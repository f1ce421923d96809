-- ===== src/Base/Bits.antt =====
-- The binary digits of `&`, `|` and Go's `&^`, and equality of numbers digit by digit.
use Prim.Native.Nat.{
  ℕ, zero, suc, ◌+◌, ◌*◌, ◌/◌, ◌%◌, ◌^◌, ◌≤◌, ◌<◌, min, max, bit_and, bit_or, bit_xor, digits,
  bitwise, differ, bit_and-bitwise, bit_or-bitwise, bit_xor-bitwise,
}
use mathlib.Core.Path.{◌≡◌, refl, ap}
use mathlib.Core.Bool.{Bool, false, not, ◌&&◌, ◌||◌}
use native.Mathlib.Nat.{le_refl, pow-suc}
use native.Mathlib.Omega.{arith}
use aural_server.Base.Tests.{◌==◌, if◌then◌else◌}

-- The library's bitwise operations run on fuel, the left number itself; any two amounts that cover
-- the number give the same digits.
module _ (done : ℕ → ℕ) (op : ℕ → ℕ → ℕ) where
  any_fuel :
      (left : ℕ) (fuel other right : ℕ)
      → left ≤ fuel
      → left ≤ other
      → digits done op fuel left right ≡ digits done op other left right
  any_fuel zero zero zero right enough too = refl
  any_fuel zero zero (suc other) right enough too = refl
  any_fuel zero (suc fuel) zero right enough too = refl
  any_fuel zero (suc fuel) (suc other) right enough too = refl
  any_fuel (suc left) zero other right enough too = absurd (omega arith)
  any_fuel (suc left) (suc fuel) zero right enough too = absurd (omega arith)
  any_fuel (suc left) (suc fuel) (suc other) right enough too =
      ap (λ high. high * 2 + op (suc left % 2) (right % 2))
        (any_fuel (suc left / 2) fuel other (right / 2) (omega arith) (omega arith))

  lowest_digit :
      (left right : ℕ)
      → 1 ≤ left
      → bitwise done op left right
        ≡ op (left % 2) (right % 2) + bitwise done op (left / 2) (right / 2) * 2
  lowest_digit zero right some_digit = absurd (omega arith)
  lowest_digit (suc left) right some_digit =
      let high =
        any_fuel (suc left / 2) left (suc left / 2) (right / 2) (omega arith) (le_refl _) in
      omega (arith, high)

pub bit_and_step : (x y : ℕ) → bit_and x y ≡ bit_and (x / 2) (y / 2) * 2 + min (x % 2) (y % 2)
bit_and_step zero y = simp bit_and-bitwise (omega arith)
bit_and_step (suc x) y =
    simp bit_and-bitwise (omega (arith, lowest_digit (λ right. 0) min (suc x) y (omega arith)))

pub bit_xor_step : (a b : ℕ) → bit_xor a b ≡ bit_xor (a / 2) (b / 2) * 2 + differ (a % 2) (b % 2)
bit_xor_step zero b = simp bit_xor-bitwise (ground arith)
bit_xor_step (suc a) b =
    simp bit_xor-bitwise
      (omega (arith, lowest_digit (λ right. right) differ (suc a) b (omega arith)))

pub bit_or_step : (x y : ℕ) → bit_or x y ≡ bit_or (x / 2) (y / 2) * 2 + max (x % 2) (y % 2)
bit_or_step zero y = simp bit_or-bitwise (omega arith)
bit_or_step (suc x) y =
    simp bit_or-bitwise (omega (arith, lowest_digit (λ right. right) max (suc x) y (omega arith)))

-- Bit `i` of a number.
unfoldable pub test_bit : ℕ → ℕ → Bool
test_bit a zero = a % 2 == 1
test_bit a (suc i) = test_bit (a / 2) i

-- Go's `a &^ b`.
unfoldable pub bit_clear : ℕ → ℕ → ℕ
bit_clear a b = bit_xor a (bit_and a b)

half_and : (a b : ℕ) → bit_and a b / 2 ≡ bit_and (a / 2) (b / 2)
half_and a b = omega (arith, bit_and_step a b)

half_or : (a b : ℕ) → bit_or a b / 2 ≡ bit_or (a / 2) (b / 2)
half_or a b = omega (arith, bit_or_step a b)

-- On one digit each, `differ` is the test of inequality.
differ_digits : (a b : ℕ) → a < 2 → b < 2 → differ a b ≡ (if a == b then 0 else 1)
differ_digits zero zero p q = refl
differ_digits zero (suc zero) p q = refl
differ_digits zero (suc (suc b)) p q = absurd (omega arith)
differ_digits (suc zero) zero p q = refl
differ_digits (suc zero) (suc zero) p q = refl
differ_digits (suc zero) (suc (suc b)) p q = absurd (omega arith)
differ_digits (suc (suc a)) b p q = absurd (omega arith)

xor_low : (a b : ℕ) → bit_xor a b ≡ bit_xor (a / 2) (b / 2) * 2 + (if a % 2 == b % 2 then 0 else 1)
xor_low a b = rw (← differ_digits (a % 2) (b % 2) (omega arith) (omega arith)) (bit_xor_step a b)

half_xor : (a b : ℕ) → bit_xor a b / 2 ≡ bit_xor (a / 2) (b / 2)
half_xor a b = ground (arith, xor_low a b)

pub test_bit-and : (a b i : ℕ) → test_bit (bit_and a b) i ≡ (test_bit a i && test_bit b i)
unfolding test_bit
test_bit-and a b zero = ground (arith, bit_and_step a b)
test_bit-and a b (suc i) = rw half_and (test_bit-and (a / 2) (b / 2) i)

pub test_bit-or : (a b i : ℕ) → test_bit (bit_or a b) i ≡ (test_bit a i || test_bit b i)
unfolding test_bit
test_bit-or a b zero = ground (arith, bit_or_step a b)
test_bit-or a b (suc i) = rw half_or (test_bit-or (a / 2) (b / 2) i)

half_clear : (a b : ℕ) → bit_clear a b / 2 ≡ bit_clear (a / 2) (b / 2)
unfolding bit_clear
half_clear a b = rw (half_xor, half_and)

low_clear : (a b : ℕ) → bit_clear a b % 2 ≡ (if a % 2 == bit_and a b % 2 then 0 else 1)
unfolding bit_clear
low_clear a b = ground (arith, xor_low a (bit_and a b))

pub test_bit-clear : (a b i : ℕ) → test_bit (bit_clear a b) i ≡ (test_bit a i && not (test_bit b i))
unfolding test_bit
test_bit-clear a b zero = ground (arith, low_clear a b, bit_and_step a b)
test_bit-clear a b (suc i) = rw half_clear (test_bit-clear (a / 2) (b / 2) i)

pub test_bit-xor :
    (a b i : ℕ)
    → test_bit (bit_xor a b) i ≡ (if test_bit a i then not (test_bit b i) else test_bit b i)
unfolding test_bit
test_bit-xor a b zero = ground (arith, xor_low a b)
test_bit-xor a b (suc i) = rw half_xor (test_bit-xor (a / 2) (b / 2) i)

-- Numbers with the same bits are equal.
bits_ext_fuel : (n a b : ℕ) → a ≤ n → b ≤ n → ((i : ℕ) → test_bit a i ≡ test_bit b i) → a ≡ b
unfolding test_bit
bits_ext_fuel zero a b p q h = omega arith
bits_ext_fuel (suc n) a b p q h =
    let rest = bits_ext_fuel n (a / 2) (b / 2) (omega arith) (omega arith) (λ i. h (suc i)) in
    ground (arith, h 0, rest)

pub bits_ext : (a b : ℕ) → ((i : ℕ) → test_bit a i ≡ test_bit b i) → a ≡ b
bits_ext a b h = bits_ext_fuel (a + b) a b (omega arith) (omega arith) h

pub test_bit-zero : (i : ℕ) → test_bit 0 i ≡ false
unfolding test_bit
test_bit-zero zero = refl
test_bit-zero (suc i) = test_bit-zero i

bit_and-zero : (a : ℕ) → bit_and a 0 ≡ 0
bit_and-zero a = bits_ext _ 0 (λ i. ground (arith, test_bit-and a 0 i, test_bit-zero i))

-- A single bit of a mask: what `p & bit` is.
pub bit_and_pow : (p k : ℕ) → bit_and p (2 ^ k) ≡ (if test_bit p k then 2 ^ k else 0)
unfolding test_bit
bit_and_pow p zero = ground (arith, bit_and_step p 1, bit_and-zero (p / 2))
bit_and_pow p (suc k) =
    ground (arith, pow-suc 2 k, bit_and_step p (2 ^ suc k), bit_and_pow (p / 2) k)
