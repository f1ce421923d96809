-- ===== src/Text/Decimal.antt =====
-- Decimal printing and parsing, as Go's `strconv` does it for the masks and ids of the program.
use aural_server.Base.{
  ℕ, zero, suc, ◌+◌, ◌-◌, ◌*◌, ◌/◌, ◌%◌, ◌^◌, ◌<◌, ◌≡◌, refl, ap, ◌∙◌, ◌≢◌, true, false, some, [],
  ◌∷◌, arith, ltb, All, Bool-cases, inl, inr,
}
use aural_server.Text.{
  Text, is_space, is_digit, trim_left, trim_right, trim_space, format_onto, format_uint,
  parse_digits, parse_uint,
}

-- One more digit.
push_digit :
    (n : ℕ) (tail : Text)
    → n < 2 ^ 64
    → parse_digits (n / 10) ((48 + n % 10) ∷ tail) ≡ parse_digits n tail
unfolding parse_digits is_digit
push_digit n tail b =
    let e : n / 10 * 10 + (48 + n % 10 - 48) ≡ n = omega arith in
    ground (arith, e, ap (λ (m : ℕ). parse_digits m tail) e)

parse_digits-format_onto :
    (fuel n : ℕ) (tail : Text)
    → n < fuel
    → n < 2 ^ 64
    → parse_digits 0 (format_onto fuel n tail) ≡ parse_digits n tail
unfolding format_onto parse_digits is_digit
parse_digits-format_onto zero n tail h b = absurd (omega arith)
parse_digits-format_onto (suc fuel) n tail h b = elim (Bool-cases (ltb n 10)) [
  | inl small ↦ rw small (ground arith)
  | inr large ↦ rw large (
      parse_digits-format_onto fuel (n / 10) ((48 + n % 10) ∷ tail) (ground arith) (omega arith)
      ∙ push_digit n tail b)
]

-- `c` is a decimal digit.
abbrev IsDigit : ℕ → Type 0
IsDigit c = is_digit c ≡ true

format_onto-IsDigit :
    (fuel n : ℕ) (tail : Text) → All IsDigit tail → All IsDigit (format_onto fuel n tail)
unfolding format_onto is_digit
format_onto-IsDigit zero n tail t = t
format_onto-IsDigit (suc fuel) n tail t = elim (Bool-cases (ltb n 10)) [
  | inl small ↦ rw small (ground arith, t)
  | inr large ↦
      rw large (format_onto-IsDigit fuel (n / 10) ((48 + n % 10) ∷ tail) (ground arith, t))
]

is_space_digit : (c : ℕ) → is_digit c ≡ true → is_space c ≡ false
unfolding is_digit is_space
is_space_digit c h = ground arith

trim_left-digits : (s : Text) → All IsDigit s → trim_left s ≡ s
unfolding trim_left
trim_left-digits [] h = refl
trim_left-digits (c ∷ rest) h = rw (is_space_digit c h.0)

trim_right-digits : (s : Text) → All IsDigit s → trim_right s ≡ s
unfolding trim_right
trim_right-digits [] h = refl
trim_right-digits (c ∷ []) h = rw (is_space_digit c h.0)
trim_right-digits (c ∷ d ∷ rest) h = rw (trim_right-digits (d ∷ rest) h.1) refl

-- Nothing is trimmed off a printed number.
pub trim_space-format_uint : (n : ℕ) → trim_space (format_uint n) ≡ format_uint n
unfolding trim_space format_uint
trim_space-format_uint n =
    rw (trim_left-digits (format_uint n) digits) (trim_right-digits (format_uint n) digits)
  where
    digits : All IsDigit (format_uint n)
    digits = format_onto-IsDigit (suc n) n [] tt

parse_uint-nonempty : (s : Text) → s ≢ [] → parse_uint s ≡ parse_digits 0 s
unfolding parse_uint
parse_uint-nonempty [] h = absurd (h refl)
parse_uint-nonempty (c ∷ rest) h = refl

format_onto-cons : (fuel n : ℕ) (c : ℕ) (tail : Text) → format_onto fuel n (c ∷ tail) ≢ []
unfolding format_onto
format_onto-cons zero n c tail e = cc
format_onto-cons (suc fuel) n c tail e = elim (Bool-cases (ltb n 10)) [
  | inl small ↦ ground (arith, e)
  | inr large ↦ format_onto-cons fuel (n / 10) (48 + n % 10) (c ∷ tail) (ground (arith, e))
]

-- A printed number is not empty.
pub format_uint-ne-nil : (n : ℕ) → format_uint n ≢ []
unfolding format_uint
format_uint-ne-nil n e = elim (Bool-cases (ltb n 10)) [
  | inl small ↦ ground (arith, e)
  | inr large ↦ format_onto-cons n (n / 10) (48 + n % 10) [] (ground (arith, e))
]

-- Reading a printed number back.
pub parse_uint-format_uint : (n : ℕ) → n < 2 ^ 64 → parse_uint (format_uint n) ≡ some n
unfolding format_uint parse_uint
parse_uint-format_uint n b =
    parse_uint-nonempty (format_uint n) (format_uint-ne-nil n)
    ∙ parse_digits-format_onto (suc n) n [] (omega arith) b
