-- ===== src/Validate/Clean.antt =====
-- internal/gateway/validate.go: `cleanText` and `validateNickname`.
use aural_server.Base.{
  ℕ, ◌≤◌, ◌≡◌, refl, ◌∙◌, ap, sym, subst, true, false, [], ◌∷◌, arith, All, Bool-cases, inl, inr,
  length, keep, ◌==◌,
}
use aural_server.Text.{Text, trim_space}
use aural_server.Text.Trim.{trim_space-trim_space, trim_space-All}
use aural_server.Protocol.{ok}
use aural_server.Validate.{clean_text, keeps_rune, validate_nickname, is_control, rune_error}

keep-All : (s : Text) → All (λ c. keeps_rune c ≡ true) (keep keeps_rune s)
unfolding keep
keep-All [] = tt
keep-All (c ∷ rest) = elim (Bool-cases (keeps_rune c)) [
  | inl kept ↦ rw kept (kept, keep-All rest)
  | inr dropped ↦ rw dropped (keep-All rest)
]

keep_fixed : (s : Text) → All (λ c. keeps_rune c ≡ true) s → keep keeps_rune s ≡ s
unfolding keep
keep_fixed [] h = refl
keep_fixed (c ∷ rest) h = rw (h.0, keep_fixed rest h.1)

-- A cleaned text holds no control character and no replacement character.
clean_text-All : (s : Text) → All (λ c. keeps_rune c ≡ true) (clean_text s)
unfolding clean_text
clean_text-All s = trim_space-All (λ c. keeps_rune c ≡ true) (keep keeps_rune s) (keep-All s)

-- Cleaning twice is cleaning once.
pub clean_text-clean_text : (s : Text) → clean_text (clean_text s) ≡ clean_text s
unfolding clean_text
clean_text-clean_text s =
    ap trim_space (keep_fixed _ (clean_text-All s)) ∙ trim_space-trim_space (keep keeps_rune s)

-- A rune that a name may hold.
abbrev pub IsPlain : ℕ → Type 0
IsPlain c = (is_control c ≡ false) × ((c == rune_error) ≡ false)

IsPlain-of_kept : (c : ℕ) → keeps_rune c ≡ true → IsPlain c
unfolding keeps_rune
IsPlain-of_kept c h = ground arith

All-IsPlain : (s : Text) → All (λ c. keeps_rune c ≡ true) s → All IsPlain s
All-IsPlain [] h = tt
All-IsPlain (c ∷ rest) h = (IsPlain-of_kept c h.0, All-IsPlain rest h.1)

-- An accepted nickname has 1 to 32 characters, none of them a control character, and is what the
-- check makes of it when it is sent again.
pub validate_nickname_lem :
    (raw name : Text)
    → validate_nickname raw ≡ ok name
    → (1 ≤ length name) × (length name ≤ 32) × All IsPlain name × (validate_nickname name ≡ ok name)
unfolding validate_nickname
validate_nickname_lem raw name h =
    let e : clean_text raw ≡ name = ground arith in
    let fixed : clean_text name ≡ name = ap clean_text (sym e) ∙ clean_text-clean_text raw ∙ e in
    (
      ground (arith, ap length e),
      ground (arith, ap length e),
      subst (All IsPlain) e (All-IsPlain (clean_text raw) (clean_text-All raw)),
      ground (arith, e, fixed, ap length e),
    )
