-- ===== src/AutoMod/Rules.antt =====
-- internal/gateway/automod.go: the rules on links, mentions and capitals, and who is exempt.
use aural_server.Base.{
  ℕ, zero, suc, ◌*◌, ◌/◌, Bool, true, false, not, ◌&&◌, ◌||◌, Option, none, some, List, [], ◌∷◌,
  ◌++◌, map, any, ltb, leb, ◌==◌, if◌then◌else◌, length, drop, contains, bit_and,
}
use aural_server.Base.Int.{ℤ, pos, negsuc, ltb_ℤ}
use aural_server.Text.{Text, text_eq, trim_space}
use aural_server.Permissions.{Permission, administrator}
use aural_server.AutoMod.Words.{Tables, censor_mark, Masked, masked_or}

-- What is left of a text behind a prefix.
behind : Text → Text → Option Text
behind [] s = some s
behind (x ∷ xs) [] = none
behind (x ∷ xs) (y ∷ ys) = let more = behind xs ys in if x == y then more else none

or_text : Option Text → Text → Text
or_text none s = s
or_text (some t) s = t

-- What comes after the first place of a separator.
after_first : Text → Text → Option Text
unfolding behind
after_first sep [] = none
after_first sep (c ∷ rest) =
    let later = after_first sep rest in
    elim (behind sep (c ∷ rest)) [ none ↦ later | some tail ↦ some tail ]

-- What comes after the last place of a character.
after_last : ℕ → Text → Option Text
after_last x [] = none
after_last x (c ∷ rest) = elim (after_last x rest) [
  | none ↦ if c == x then some rest else none
  | some tail ↦ some tail
]

-- What stands in front of the first place of a character: `SplitN(s, x, 2)[0]`.
until : ℕ → Text → Text
until x [] = []
until x (c ∷ rest) = let later = until x rest in if c == x then [] else c ∷ later

-- `strings.TrimSuffix` and `strings.TrimPrefix` of one character.
trim_last : ℕ → Text → Text
trim_last x [] = []
trim_last x (c ∷ []) = if c == x then [] else c ∷ []
trim_last x (c ∷ d ∷ rest) = c ∷ trim_last x (d ∷ rest)

pub trim_first : ℕ → Text → Text
trim_first x [] = []
trim_first x (c ∷ rest) = if c == x then rest else c ∷ rest

-- `strings.HasSuffix`.
ends_with : Text → Text → Bool
ends_with [] end = text_eq [] end
ends_with (c ∷ rest) end = let later = ends_with rest end in text_eq (c ∷ rest) end || later

-- The host of a link.
host_of : Text → Text
unfolding after_first after_last until trim_last or_text
host_of lowered =
    let bare = or_text (after_first (b':' ∷ b'/' ∷ b'/' ∷ []) lowered) lowered in
    let named = or_text (after_last b'@' bare) bare in
    until b':' (trim_last b'.' (until b'/' named))

allows : Tables → Text → Text → Bool
unfolding trim_first ends_with
allows t host entry = elim (map t.lower (trim_space (trim_first b'.' entry))) [
  | [] ↦ false
  | c ∷ rest ↦ text_eq host (c ∷ rest) || ends_with host (b'.' ∷ c ∷ rest)
]

-- `domainAllowed`.
unfoldable pub domain_allowed : Tables → Text → List Text → Bool
unfolding allows host_of any
domain_allowed t raw allowed = any (allows t (host_of (map t.lower raw))) allowed

-- A part of a text.
slice : ℕ → ℕ → Text → Text
slice zero zero s = []
slice low high [] = []
slice zero (suc high) (c ∷ rest) = c ∷ slice zero high rest
slice (suc low) zero (c ∷ rest) = []
slice (suc low) (suc high) (c ∷ rest) = slice low high rest

marks : ℕ → Text
marks zero = []
marks (suc n) = censor_mark ∷ marks n

-- The loop of `screenLinks`: what is left of the text from `last` on.
mask_links : Tables → Text → List Text → ℕ → List (ℕ × ℕ) → Masked
unfolding slice marks
mask_links t content allowed last [] = record { text = drop last content; found = false }
mask_links t content allowed last ((low, high) ∷ rest) =
    let candidate = slice low high content in
    let passed = mask_links t content allowed last rest in
    let later = mask_links t content allowed high rest in
    if domain_allowed t candidate allowed then passed else record {
      text = slice last low content ++ marks (length candidate) ++ later.text;
      found = true;
    }

-- `screenLinks`: the text to go on with, when a link was found that is not allowed.
unfoldable pub screen_links : Tables → Text → List Text → Bool → Option Text
unfolding mask_links masked_or
screen_links t content allowed censors =
    masked_or content censors (mask_links t content allowed 0 (t.urls content))

-- The letters that have a case, and the capitals among them.
cased : Tables → Text → ℕ × ℕ
cased t [] = (0, 0)
cased t (c ∷ rest) =
    let later = cased t rest in
    if t.is_letter c && (t.is_upper c || t.is_lower c)
    then (suc later.0, if t.is_upper c then suc later.1 else later.1)
    else later

loud : ℕ → ℕ × ℕ → Bool
loud percent (zero, upper) = false
loud percent (suc n, upper) = leb percent (upper * 100 / suc n)

-- `shouting`.
unfoldable pub shouting : Tables → Text → ℤ → ℤ → Bool
unfolding cased loud
shouting t content (negsuc n) min_length = false
shouting t content (pos zero) min_length = false
shouting t content (pos (suc n)) min_length =
    if ltb 100 (suc n)
    then false
    else if ltb_ℤ (pos (cased t content).0) min_length
    then false
    else loud (suc n) (cased t content)

-- `countMentions`, where the limit is one.
unfoldable pub too_many_mentions : Tables → Text → ℤ → Bool
too_many_mentions t content (negsuc n) = false
too_many_mentions t content (pos zero) = false
too_many_mentions t content (pos (suc limit)) = ltb (suc limit) (t.mentions content)

-- `exemptFromAutoMod`, of the permissions and the roles of a session.
unfoldable pub exempt_from_auto_mod : Permission → List ℕ → List ℕ → Bool
unfolding any contains
exempt_from_auto_mod base held role_ids =
    not (bit_and base administrator == 0) || any (λ want. contains held want) role_ids
