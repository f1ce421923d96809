-- ===== src/AutoMod/Words.antt =====
-- internal/gateway/automod.go: the rules on what a text says. `Tables` is what they ask of Go's
-- `unicode` and `regexp`; a place in a text is counted in characters.
pub mod Shape
use aural_server.Base.{
  ℕ, zero, suc, ◌+◌, ◌-◌, ◌*◌, ◌/◌, ◌%◌, Bool, true, false, not, ◌&&◌, ◌||◌, Option, none, some,
  List, [], ◌∷◌, ◌++◌, map, any, ltb, leb, ◌==◌, if◌then◌else◌, length, drop,
}
use mathlib.Core.List.{reverse}
use aural_server.Base.Int.{ℤ, pos, negsuc, ltb_ℤ}
use aural_server.Text.{Text, text_eq, trim_space, is_space}
use aural_server.Store.Fold.{fold}

-- The tables of `unicode`, and the matches of `urlPattern` and `mentionPattern`: where each begins
-- and ends, and how many there are.
pub record Tables : Type 0 where
  pub lower : ℕ → ℕ
  pub is_letter : ℕ → Bool
  pub is_digit : ℕ → Bool
  pub is_upper : ℕ → Bool
  pub is_lower : ℕ → Bool
  pub urls : Text → List (ℕ × ℕ)
  pub mentions : Text → ℕ

-- `censorMark`.
abbrev pub censor_mark : ℕ
censor_mark = 0x2588

-- The bytes of a character in UTF-8.
utf8 : ℕ → List ℕ
utf8 c =
    if ltb c 0x80
    then c ∷ []
    else if ltb c 0x800
    then (192 + c / 64) ∷ (128 + c % 64) ∷ []
    else if ltb c 0x10000
    then (224 + c / 4096) ∷ (128 + c / 64 % 64) ∷ (128 + c % 64) ∷ []
    else (240 + c / 262144) ∷ (128 + c / 4096 % 64) ∷ (128 + c / 64 % 64) ∷ (128 + c % 64) ∷ []

pub bytes : Text → List ℕ
unfolding utf8
bytes [] = []
bytes (c ∷ rest) = utf8 c ++ bytes rest

-- Each byte of the folded copy, with the character that it came from.
pub haystack : (ℕ → ℕ) → ℕ → Text → List (ℕ × ℕ)
unfolding bytes
haystack lower i [] = []
haystack lower i (c ∷ rest) =
    map (λ b. (b, i)) (bytes (fold lower (c ∷ []))) ++ haystack lower (suc i) rest

-- What comes after the needle, where the haystack begins with it.
after_needle : List ℕ → List (ℕ × ℕ) → Option (List (ℕ × ℕ))
after_needle [] hay = some hay
after_needle (n ∷ needle) [] = none
after_needle (n ∷ needle) ((b, i) ∷ hay) =
    let later = after_needle needle hay in if n == b then later else none

-- `isWordRune`.
is_word_rune : Tables → ℕ → Bool
is_word_rune t r = t.is_letter r || t.is_digit r

first_byte : List (ℕ × ℕ) → ℕ
first_byte [] = 32
first_byte ((b, i) ∷ rest) = b

-- `isWordBoundary`, of the bytes on both sides.
is_word_boundary : Tables → ℕ → ℕ → Bool
unfolding is_word_rune
is_word_boundary t before after = not (is_word_rune t before) && not (is_word_rune t after)

origin_of : ℕ → List (ℕ × ℕ) → ℕ
origin_of end [] = end
origin_of end ((b, i) ∷ rest) = i

-- The characters from one place up to another are masked, unless they are blank.
mask_range : ℕ → ℕ → ℕ → Text → Text
mask_range low high i [] = []
mask_range low high i (c ∷ rest) =
    let later = mask_range low high (suc i) rest in
    if leb low i && ltb i high && not (is_space c) then censor_mark ∷ later else c ∷ later

-- The text as it is masked so far, and whether anything was found.
pub record Masked : Type 0 where
  pub text : Text
  pub found : Bool

-- One place of the haystack.
try_at : Tables → Bool → ℕ → ℕ → Option (List (ℕ × ℕ)) → ℕ → Masked → Masked
unfolding is_word_boundary first_byte origin_of mask_range
try_at t whole end before none start m = m
try_at t whole end before (some rest) start m =
    if whole && not (is_word_boundary t before (first_byte rest))
    then m
    else record { text = mask_range start (origin_of end rest) 0 m.text; found = true }

-- Every place of the haystack, with the byte in front of it.
scan : Tables → Bool → ℕ → List ℕ → ℕ → List (ℕ × ℕ) → Masked → Masked
unfolding after_needle try_at
scan t whole end needle before [] m = m
scan t whole end needle before ((b, i) ∷ rest) m =
    scan t whole end needle b rest
      (try_at t whole end before (after_needle needle ((b, i) ∷ rest)) i m)

scan_word : Tables → Bool → ℕ → List (ℕ × ℕ) → List ℕ → Masked → Masked
unfolding scan
scan_word t whole end hay [] m = m
scan_word t whole end hay (n ∷ needle) m = scan t whole end (n ∷ needle) 32 hay m

scan_words : Tables → Bool → ℕ → List (ℕ × ℕ) → List Text → Masked → Masked
unfolding scan_word bytes
scan_words t whole end hay [] m = m
scan_words t whole end hay (word ∷ rest) m =
    scan_words t whole end hay rest
      (scan_word t whole end hay (bytes (fold t.lower (trim_space word))) m)

-- What comes of a rule that masks: nothing unless it found something, and the text as it was unless
-- the rule is there to mask.
unfoldable pub masked_or : Text → Bool → Masked → Option Text
masked_or content censors m = if m.found then some (if censors then m.text else content) else none

-- `screenWords`: the text to go on with, when a word was found. The return in the middle of the loop
-- is the last step here.
unfoldable pub screen_words : Tables → Text → List Text → Bool → Bool → Option Text
unfolding scan_words haystack masked_or
screen_words t content words whole censors = masked_or content censors (
    scan_words t whole (length content) (haystack t.lower 0 content) words
      (record { text = content; found = false }))
