-- ===== src/Store/Fold/Twice.antt =====
-- internal/store/fold.go: folding what is folded already.
use aural_server.Base.{
  ℕ, ◌≡◌, ◌≤◌, refl, ap, sym, ◌∙◌, Bool, true, ◌&&◌, none, some, List, [], ◌∷◌, ◌++◌, leb, ltb,
  ◌==◌, Bool-cases, Option-cases, inl, inr, arith, ◌⊎◌,
}
use aural_server.Text.{Text}
use aural_server.Store.Fold.{foldings, folding_in, is_mark, plain_or, fold_rune, fold}

-- Small letters only.
plain : Text → Bool
plain [] = true
plain (c ∷ rest) = let later = plain rest in leb 97 c && leb c 122 && later

-- The keys stand above the small letters, and the values are made of them.
well_made : List (ℕ × Text) → Bool
unfolding plain
well_made [] = true
well_made ((c, p) ∷ rest) = let later = well_made rest in ltb 122 c && plain p && later

foldings-made : well_made foldings ≡ true
unfolding well_made
foldings-made = refl

found-plain :
    (table : List (ℕ × Text)) (r : ℕ) (p : Text)
    → well_made table ≡ true
    → folding_in table r ≡ some p
    → plain p ≡ true
unfolding well_made folding_in
found-plain [] r p w f = cc
found-plain ((c, q) ∷ rest) r p w f = elim (Bool-cases (c == r)) [
  | inl here ↦ let same : q ≡ p = ground (arith, here, f) in ap plain (sym same) ∙ ground (arith, w)
  | inr later ↦ found-plain rest r p (ground (arith, w)) (ground (arith, later, f))
]

small-missing :
    (table : List (ℕ × Text)) (r : ℕ) → well_made table ≡ true → r ≤ 122 → folding_in table r ≡ none
unfolding well_made folding_in
small-missing [] r w s = refl
small-missing ((c, q) ∷ rest) r w s =
    ground (arith, w, s, small-missing rest r (ground (arith, w)) s)

fold_rune-small : (r : ℕ) → r ≤ 122 → fold_rune r ≡ r ∷ []
unfolding fold_rune
fold_rune-small r s = ground (arith, s, small-missing foldings r foldings-made s)

-- A rune is dropped, kept, or written in small letters.
rune_cases :
    (r : ℕ)
    → (fold_rune r ≡ [])
      ⊎ (fold_rune r ≡ r ∷ [])
      ⊎ ((p : Text) × (fold_rune r ≡ p) × (plain p ≡ true))
unfolding fold_rune plain_or
rune_cases r = elim (Bool-cases (is_mark r)) [
  | inl mark ↦ inl (ground (arith, mark))
  | inr letter ↦ elim (Option-cases (folding_in foldings r)) [
    | inl absent ↦ inr (inl (ground (arith, letter, absent)))
    | inr (p, found) ↦
        inr (inr (p, ground (arith, letter, found), found-plain foldings r p foldings-made found))
  ]
]

append_nil : (xs : Text) → xs ++ [] ≡ xs
append_nil [] = refl
append_nil (x ∷ xs) = ap (λ l. x ∷ l) (append_nil xs)

append_assoc : (xs ys zs : Text) → (xs ++ ys) ++ zs ≡ xs ++ (ys ++ zs)
append_assoc [] ys zs = refl
append_assoc (x ∷ xs) ys zs = ap (λ l. x ∷ l) (append_assoc xs ys zs)

-- What `unicode.ToLower` keeps: what it made lower, and the small letters of ASCII.
pub record IsLower (lower : ℕ → ℕ) : Type 0 where
  pub again : (c : ℕ) → lower (lower c) ≡ lower c
  pub small : (c : ℕ) → 97 ≤ c → c ≤ 122 → lower c ≡ c

module _ (lower : ℕ → ℕ) where
  fold-append : (xs ys : Text) → fold lower (xs ++ ys) ≡ fold lower xs ++ fold lower ys
  unfolding fold
  fold-append [] ys = refl
  fold-append (x ∷ xs) ys =
      ap (λ l. fold_rune (lower x) ++ l) (fold-append xs ys)
      ∙ sym (append_assoc (fold_rune (lower x)) (fold lower xs) (fold lower ys))

  fold-plain : (p : Text) → IsLower lower → plain p ≡ true → fold lower p ≡ p
  unfolding fold plain
  fold-plain [] l h = refl
  fold-plain (c ∷ p) l h =
      ap (λ r. fold_rune r ++ fold lower p) (l.small c (ground (arith, h)) (ground (arith, h)))
      ∙ ap (λ t. t ++ fold lower p) (fold_rune-small c (ground (arith, h)))
      ∙ ap (λ t. c ∷ t) (fold-plain p l (ground (arith, h)))

  fold-kept : (r : ℕ) → lower r ≡ r → fold_rune r ≡ r ∷ [] → fold lower (r ∷ []) ≡ r ∷ []
  unfolding fold
  fold-kept r e f = append_nil (fold_rune (lower r)) ∙ ap fold_rune e ∙ f

  fold-nil : fold lower [] ≡ []
  unfolding fold
  fold-nil = refl

  refold :
      (r : ℕ) (t : Text)
      → fold_rune r ≡ t
      → fold lower t ≡ t
      → fold lower (fold_rune r) ≡ fold_rune r
  refold r t e f = ap (fold lower) e ∙ f ∙ sym e

  fold-rune : (c : ℕ) → IsLower lower → fold lower (fold_rune (lower c)) ≡ fold_rune (lower c)
  fold-rune c l = elim (rune_cases (lower c)) [
    | inl gone ↦ refold (lower c) [] gone fold-nil
    | inr (inl stays) ↦
        refold (lower c) (lower c ∷ []) stays (fold-kept (lower c) (l.again c) stays)
    | inr (inr (p, e, small)) ↦ refold (lower c) p e (fold-plain p l small)
  ]

  -- Folding a text that was folded changes nothing more, where making lower case twice is making it
  -- once and leaves the small letters of ASCII alone.
  pub fold-fold : (s : Text) → IsLower lower → fold lower (fold lower s) ≡ fold lower s
  unfolding fold
  fold-fold [] l = refl
  fold-fold (c ∷ s) l =
      fold-append (fold_rune (lower c)) (fold lower s)
      ∙ ap (λ t. t ++ fold lower (fold lower s)) (fold-rune c l)
      ∙ ap (λ t. fold_rune (lower c) ++ t) (fold-fold s l)
