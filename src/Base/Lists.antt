-- ===== src/Base/Lists.antt =====
-- Lists measured and indexed by native numbers, under the library's names, and lists of ids.
use Prim.Native.Nat.{ℕ, zero, suc, ◌+◌, ◌-◌, ◌≤◌}
use mathlib.Core.Path.{◌≡◌, refl, ap, sym, ◌∙◌}
use mathlib.Core.Logic.{inl, inr}
use mathlib.Core.Bool.{Bool, true, false, ◌||◌}
use mathlib.Core.List.{List, [], ◌∷◌, ◌++◌}
use mathlib.Core.Option.{Option, none, some}
use native.Mathlib.Omega.{arith}
use aural_server.Base.Tests.{◌==◌, if◌then◌else◌, ==_iff, ==_refl, Bool-cases, Bool-ext}

module _ {ℓ} {A : Type ℓ} where
  abbrev pub length : List A → ℕ
  length [] = 0
  length (x ∷ xs) = suc (length xs)

  abbrev pub get_elem? : List A → ℕ → Option A
  get_elem? [] i = none
  get_elem? (x ∷ xs) zero = some x
  get_elem? (x ∷ xs) (suc i) = get_elem? xs i

  abbrev pub take : ℕ → List A → List A
  take zero xs = []
  take (suc n) [] = []
  take (suc n) (x ∷ xs) = x ∷ take n xs

  abbrev pub drop : ℕ → List A → List A
  drop zero xs = xs
  drop (suc n) [] = []
  drop (suc n) (x ∷ xs) = drop n xs

  -- The members that pass a test, in order.
  unfoldable pub keep : (A → Bool) → List A → List A
  keep p [] = []
  keep p (x ∷ xs) = let rest = keep p xs in if p x then x ∷ rest else rest

  -- Whether some member passes.
  unfoldable pub any : (A → Bool) → List A → Bool
  any p [] = false
  any p (x ∷ xs) = p x || any p xs

  pub length-append : (xs ys : List A) → length (xs ++ ys) ≡ length xs + length ys
  length-append [] ys = omega arith
  length-append (x ∷ xs) ys = omega (arith, length-append xs ys)

  pub length-drop : (n : ℕ) (xs : List A) → length (drop n xs) ≡ length xs - n
  length-drop zero xs = omega arith
  length-drop (suc n) [] = omega arith
  length-drop (suc n) (x ∷ xs) = omega (arith, length-drop n xs)

  pub length-keep-le : (p : A → Bool) (xs : List A) → length (keep p xs) ≤ length xs
  unfolding keep
  length-keep-le p [] = omega arith
  length-keep-le p (x ∷ xs) = ground (arith, length-keep-le p xs)

  -- Every member satisfies `P`.
  abbrev pub All {κ} : (A → Type κ) → List A → Type κ
  All P [] = Unit
  All P (x ∷ xs) = P x × All P xs

-- Whether an id is a member: `slices.Contains`, and a lookup in a set of seen ids.
unfoldable pub contains : List ℕ → ℕ → Bool
contains [] a = false
contains (x ∷ xs) a = x == a || contains xs a

-- No id stands twice.
abbrev pub IsDistinct : List ℕ → Type 0
IsDistinct [] = Unit
IsDistinct (x ∷ xs) = (contains xs x ≡ false) × IsDistinct xs

pub contains-append :
    (xs ys : List ℕ) (a : ℕ) → contains (xs ++ ys) a ≡ (contains xs a || contains ys a)
unfolding contains
contains-append [] ys a = refl
contains-append (x ∷ xs) ys a = ground (arith, contains-append xs ys a)

-- A new id at the end keeps the list distinct.
pub IsDistinct-snoc :
    (xs : List ℕ) (a : ℕ) → IsDistinct xs → contains xs a ≡ false → IsDistinct (xs ++ a ∷ [])
unfolding contains
IsDistinct-snoc [] a d h = (refl, tt)
IsDistinct-snoc (x ∷ xs) a d h =
    (ground (arith, contains-append xs (a ∷ []) x), IsDistinct-snoc xs a d.1 (ground arith))

pub any_of_contains :
    (p : ℕ → Bool) (xs : List ℕ) (a : ℕ) → contains xs a ≡ true → p a ≡ true → any p xs ≡ true
unfolding any contains
any_of_contains p [] a h k = cc
any_of_contains p (x ∷ xs) a h k = elim (Bool-cases (x == a)) [
  | inl same ↦ ground (arith, ap p ((==_iff x a).0 same))
  | inr other ↦ ground (arith, any_of_contains p xs a)
]

pub contains_of_any :
    (p : ℕ → Bool) (xs : List ℕ) → any p xs ≡ true → (a : ℕ) × (contains xs a ≡ true) × (p a ≡ true)
unfolding any contains
contains_of_any p [] h = cc
contains_of_any p (x ∷ xs) h = elim (Bool-cases (p x)) [
  | inl here ↦ (x, ground (arith, ==_refl x), here)
  | inr there ↦ let (a, m, k) = contains_of_any p xs (ground arith) in (a, ground arith, k)
]

-- A test for some member sees only which ids are members.
pub any_same :
    (p : ℕ → Bool) (xs ys : List ℕ)
    → ((a : ℕ) → contains xs a ≡ contains ys a)
    → any p xs ≡ any p ys
any_same p xs ys h =
    Bool-ext _ _
      (λ k. let (a, m, t) = contains_of_any p xs k in any_of_contains p ys a (sym (h a) ∙ m) t)
      (λ k. let (a, m, t) = contains_of_any p ys k in any_of_contains p xs a (h a ∙ m) t)

pub contains-get_elem? : (xs : List ℕ) (i a : ℕ) → get_elem? xs i ≡ some a → contains xs a ≡ true
unfolding contains
contains-get_elem? [] i a h = cc
contains-get_elem? (x ∷ xs) zero a h = ground (arith, ==_refl x)
contains-get_elem? (x ∷ xs) (suc i) a h = ground (arith, contains-get_elem? xs i a h)
