-- ===== src/Base/Pigeonhole.antt =====
-- Lists of ids of one length: when every member of one is in the other, and when the reverse follows.
use aural_server.Base.{
  ℕ, suc, ◌≤◌, ◌≡◌, refl, ap, ◌∙◌, inl, inr, true, false, List, [], ◌∷◌, arith, ◌==◌, ==_iff,
  ==_refl, if◌then◌else◌, Bool-cases, length, contains, IsDistinct,
}

-- A list less the first place where an id stands.
without : ℕ → List ℕ → List ℕ
without a [] = []
without a (y ∷ ys) = let rest = without a ys in if y == a then ys else y ∷ rest

length-without :
    (a : ℕ) (ys : List ℕ) → contains ys a ≡ true → suc (length (without a ys)) ≡ length ys
unfolding without contains
length-without a [] h = cc
length-without a (y ∷ ys) h = elim (Bool-cases (y == a)) [
  | inl here ↦ ground (arith, here)
  | inr there ↦ ground (arith, there, length-without a ys (ground (arith, h, there)))
]

-- Any other id stands in it as before.
contains-without :
    (a b : ℕ) (ys : List ℕ) → (a == b) ≡ false → contains (without a ys) b ≡ contains ys b
unfolding without contains
contains-without a b [] h = refl
contains-without a b (y ∷ ys) h = elim (Bool-cases (y == a)) [
  | inl here ↦
      let other : (y == b) ≡ false = ap (λ k. k == b) ((==_iff y a).0 here) ∙ h in
      ground (arith, here, other)
  | inr there ↦ ground (arith, there, contains-without a b ys h)
]

-- Distinct ids, all from a list that is no longer, are all the ids of that list.
pub contains_back :
    (xs ys : List ℕ) (b : ℕ)
    → IsDistinct xs
    → ((a : ℕ) → contains xs a ≡ true → contains ys a ≡ true)
    → length ys ≤ length xs
    → contains ys b ≡ true
    → contains xs b ≡ true
unfolding contains
contains_back [] [] b d k l h = cc
contains_back [] (y ∷ ys) b d k l h = absurd (omega (arith, l))
contains_back (x ∷ xs) ys b d k l h =
    let here : contains ys x ≡ true = k x (ground (arith, ==_refl x)) in
    let sub : (a : ℕ) → contains xs a ≡ true → contains (without x ys) a ≡ true = λ a m.
      elim (Bool-cases (x == a)) [
        | inl same ↦ absurd (ground (arith, d.0, m, ap (contains xs) ((==_iff x a).0 same)))
        | inr other ↦ contains-without x a ys other ∙ k a (ground (arith, m))
      ] in
    elim (Bool-cases (x == b)) [
      | inl same ↦ ground (arith, same)
      | inr other ↦ ground (
        arith,
        other,
        contains_back xs (without x ys) b d.1 sub (omega (arith, l, length-without x ys here))
            (contains-without x b ys other ∙ h),
      )
    ]
