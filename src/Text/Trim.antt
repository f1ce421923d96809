-- ===== src/Text/Trim.antt =====
-- Trimming, as Go's `strings.TrimSpace` does it.
use aural_server.Base.{ℕ, ◌≡◌, refl, ◌∙◌, ap, false, [], ◌∷◌, All, Bool-cases, inl, inr}
use aural_server.Text.{Text, is_space, trim_left, trim_right, trim_space, push_kept}

-- The text does not begin with a space.
abbrev NoLead : Text → Type 0
NoLead [] = Unit
NoLead (c ∷ rest) = is_space c ≡ false

trim_left-NoLead : (s : Text) → NoLead (trim_left s)
unfolding trim_left
trim_left-NoLead [] = tt
trim_left-NoLead (c ∷ rest) = elim (Bool-cases (is_space c)) [
  | inl space ↦ rw space (trim_left-NoLead rest)
  | inr other ↦ rw other other
]

trim_left_fixed : (s : Text) → NoLead s → trim_left s ≡ s
unfolding trim_left
trim_left_fixed [] h = refl
trim_left_fixed (c ∷ rest) h = rw h

push_kept-NoLead : (c : ℕ) (t : Text) → is_space c ≡ false → NoLead (push_kept c t)
unfolding push_kept
push_kept-NoLead c [] h = rw h h
push_kept-NoLead c (d ∷ rest) h = h

trim_right-NoLead : (s : Text) → NoLead s → NoLead (trim_right s)
unfolding trim_right
trim_right-NoLead [] h = tt
trim_right-NoLead (c ∷ rest) h = push_kept-NoLead c (trim_right rest) h

trim_right-push_kept :
    (c : ℕ) (t : Text) → trim_right t ≡ t → trim_right (push_kept c t) ≡ push_kept c t
unfolding trim_right push_kept
trim_right-push_kept c [] h = elim (Bool-cases (is_space c)) [
  | inl space ↦ rw space
  | inr other ↦ rw other (rw other)
]
trim_right-push_kept c (d ∷ rest) h = ap (push_kept c) h

trim_right-trim_right : (s : Text) → trim_right (trim_right s) ≡ trim_right s
unfolding trim_right
trim_right-trim_right [] = refl
trim_right-trim_right (c ∷ rest) =
    trim_right-push_kept c (trim_right rest) (trim_right-trim_right rest)

-- Trimming twice is trimming once.
pub trim_space-trim_space : (s : Text) → trim_space (trim_space s) ≡ trim_space s
unfolding trim_space
trim_space-trim_space s =
    ap trim_right (trim_left_fixed _ (trim_right-NoLead _ (trim_left-NoLead s)))
    ∙ trim_right-trim_right (trim_left s)

module _ (P : ℕ → Type 0) where
  trim_left-All : (s : Text) → All P s → All P (trim_left s)
  unfolding trim_left
  trim_left-All [] h = tt
  trim_left-All (c ∷ rest) h = elim (Bool-cases (is_space c)) [
    | inl space ↦ rw space (trim_left-All rest h.1)
    | inr other ↦ rw other h
  ]

  push_kept-All : (c : ℕ) (t : Text) → P c → All P t → All P (push_kept c t)
  unfolding push_kept
  push_kept-All c [] p h = elim (Bool-cases (is_space c)) [
    | inl space ↦ rw space tt
    | inr other ↦ rw other (p, tt)
  ]
  push_kept-All c (d ∷ rest) p h = (p, h)

  trim_right-All : (s : Text) → All P s → All P (trim_right s)
  unfolding trim_right
  trim_right-All [] h = tt
  trim_right-All (c ∷ rest) h = push_kept-All c (trim_right rest) h.0 (trim_right-All rest h.1)

  -- Trimming only removes characters.
  pub trim_space-All : (s : Text) → All P s → All P (trim_space s)
  unfolding trim_space
  trim_space-All s h = trim_right-All (trim_left s) (trim_left-All s h)
