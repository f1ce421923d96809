-- ===== src/AutoMod/Words/Shape.antt =====
-- internal/gateway/automod.go: what `screenWords` leaves of a text.
use aural_server.Base.{
  ℕ, suc, ◌≡◌, refl, ap, sym, subst, ◌∙◌, ◌⊎◌, inl, inr, Bool, true, false, not, ◌&&◌, Option, none,
  some, List, [], ◌∷◌, leb, ltb, length, arith, Bool-cases,
}
use aural_server.Text.{Text, is_space, trim_space}
use aural_server.Store.Fold.{fold}
use aural_server.AutoMod.Words.{
  Tables, censor_mark, bytes, haystack, after_needle, is_word_boundary, first_byte, origin_of,
  mask_range, Masked, try_at, scan, scan_word, scan_words, masked_or, screen_words,
}

-- A text of the same length, in which every character is the same or is the mark, and no blank is
-- masked.
abbrev pub IsMasking : Text → Text → Type 0
IsMasking [] [] = Unit
IsMasking [] (d ∷ t) = ⊥
IsMasking (c ∷ s) [] = ⊥
IsMasking (c ∷ s) (d ∷ t) = ((d ≡ c) ⊎ ((d ≡ censor_mark) × (is_space c ≡ false))) × IsMasking s t

IsMasking-refl : (s : Text) → IsMasking s s
IsMasking-refl [] = tt
IsMasking-refl (c ∷ s) = (inl refl, IsMasking-refl s)

one_more :
    (c d e : ℕ)
    → (d ≡ c) ⊎ ((d ≡ censor_mark) × (is_space c ≡ false))
    → (e ≡ d) ⊎ ((e ≡ censor_mark) × (is_space d ≡ false))
    → (e ≡ c) ⊎ ((e ≡ censor_mark) × (is_space c ≡ false))
one_more c d e (inl p) (inl q) = inl (q ∙ p)
one_more c d e (inr (m, blank)) (inl q) = inr (q ∙ m, blank)
one_more c d e (inl p) (inr (m, blank)) = inr (m, ap is_space (sym p) ∙ blank)
one_more c d e (inr (m, blank)) (inr (m', blank')) = inr (m', blank)

IsMasking-trans : (s t u : Text) → IsMasking s t → IsMasking t u → IsMasking s u
IsMasking-trans [] [] u h k = k
IsMasking-trans [] (d ∷ t) u h k = absurd h
IsMasking-trans (c ∷ s) [] u h k = absurd h
IsMasking-trans (c ∷ s) (d ∷ t) [] h k = absurd k
IsMasking-trans (c ∷ s) (d ∷ t) (e ∷ u) h k =
    (one_more c d e h.0 k.0, IsMasking-trans s t u h.1 k.1)

mask_range-IsMasking : (low high i : ℕ) (s : Text) → IsMasking s (mask_range low high i s)
unfolding mask_range
mask_range-IsMasking low high i [] = tt
mask_range-IsMasking low high i (c ∷ s) =
    let later = mask_range-IsMasking low high (suc i) s in
    elim (Bool-cases (leb low i && ltb i high && not (is_space c))) [
      | inl hit ↦ rw hit (inr (refl, ground (arith, hit)), later)
      | inr miss ↦ rw miss (inl refl, later)
    ]

module _ (t : Tables) (whole : Bool) (end : ℕ) where
  try_at-IsMasking :
      (before : ℕ) (o : Option (List (ℕ × ℕ))) (start : ℕ) (m : Masked)
      → IsMasking m.text (try_at t whole end before o start m).text
  unfolding try_at
  try_at-IsMasking before none start m = IsMasking-refl m.text
  try_at-IsMasking before (some rest) start m =
      elim (Bool-cases (whole && not (is_word_boundary t before (first_byte rest)))) [
        | inl inside ↦ rw inside (IsMasking-refl m.text)
        | inr alone ↦ rw alone (mask_range-IsMasking start (origin_of end rest) 0 m.text)
      ]

  scan-IsMasking :
      (needle : List ℕ) (before : ℕ) (hay : List (ℕ × ℕ)) (m : Masked)
      → IsMasking m.text (scan t whole end needle before hay m).text
  unfolding scan
  scan-IsMasking needle before [] m = IsMasking-refl m.text
  scan-IsMasking needle before ((b, i) ∷ rest) m =
      IsMasking-trans m.text _ _ (try_at-IsMasking before (after_needle needle ((b, i) ∷ rest)) i m)
        (scan-IsMasking needle b rest _)

  word-IsMasking :
      (hay : List (ℕ × ℕ)) (needle : List ℕ) (m : Masked)
      → IsMasking m.text (scan_word t whole end hay needle m).text
  unfolding scan_word
  word-IsMasking hay [] m = IsMasking-refl m.text
  word-IsMasking hay (n ∷ needle) m = scan-IsMasking (n ∷ needle) 32 hay m

  words-IsMasking :
      (hay : List (ℕ × ℕ)) (words : List Text) (m : Masked)
      → IsMasking m.text (scan_words t whole end hay words m).text
  unfolding scan_words
  words-IsMasking hay [] m = IsMasking-refl m.text
  words-IsMasking hay (word ∷ words) m =
      IsMasking-trans m.text _ _ (word-IsMasking hay (bytes (fold t.lower (trim_space word))) m)
        (words-IsMasking hay words _)

-- Where the rule on words finds something, the text to go on with is as long as it was, and each of
-- its characters is the one that stood there, or the mark in place of one that is not blank.
pub screen_words-IsMasking :
    (t : Tables) (content masked : Text) (words : List Text) (whole censors : Bool)
    → screen_words t content words whole censors ≡ some masked
    → IsMasking content masked
unfolding screen_words masked_or
screen_words-IsMasking t content masked words whole true e =
    let m =
      scan_words t whole (length content) (haystack t.lower 0 content) words
        (record { text = content; found = false }) in
    let same : m.text ≡ masked = ground (arith, e) in
    subst (IsMasking content) same (
      words-IsMasking t whole (length content) (haystack t.lower 0 content) words
        (record { text = content; found = false }))
screen_words-IsMasking t content masked words whole false e =
    let same : content ≡ masked = ground (arith, e) in
    subst (IsMasking content) same (IsMasking-refl content)
