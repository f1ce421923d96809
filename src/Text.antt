-- ===== src/Text.antt =====
-- Text as a list of code points, and what the program uses of Go's `strings` and `strconv`:
-- `TrimSpace`, `FormatUint` and `ParseUint` in base 10.
pub mod Decimal
pub mod Trim
use aural_server.Base.{
  ℕ, zero, suc, ◌+◌, ◌-◌, ◌*◌, ◌/◌, ◌%◌, ◌^◌, Bool, true, false, ◌&&◌, ◌||◌, Option, none, some,
  List, [], ◌∷◌, ltb, leb, ◌==◌, if◌then◌else◌,
}

abbrev pub Text : Type 0
Text = List ℕ

-- `unicode.IsSpace`.
unfoldable pub is_space : ℕ → Bool
is_space c =
    leb 9 c && leb c 13
    || c == 32
    || c == 0x85
    || c == 0xA0
    || c == 0x1680
    || leb 0x2000 c && leb c 0x200A
    || c == 0x2028
    || c == 0x2029
    || c == 0x202F
    || c == 0x205F
    || c == 0x3000

pub trim_left : Text → Text
trim_left [] = []
trim_left (c ∷ rest) = let after = trim_left rest in if is_space c then after else c ∷ rest

pub push_kept : ℕ → Text → Text
push_kept c [] = if is_space c then [] else c ∷ []
push_kept c (d ∷ rest) = c ∷ d ∷ rest

pub trim_right : Text → Text
unfolding push_kept
trim_right [] = []
trim_right (c ∷ rest) = push_kept c (trim_right rest)

-- `strings.TrimSpace`.
unfoldable pub trim_space : Text → Text
unfolding trim_left trim_right is_space
trim_space s = trim_right (trim_left s)

-- The decimal digits of a number in front of `tail`, on fuel.
pub format_onto : ℕ → ℕ → Text → Text
format_onto zero n tail = tail
format_onto (suc fuel) n tail =
    let more = format_onto fuel (n / 10) ((48 + n % 10) ∷ tail) in
    if ltb n 10 then (48 + n) ∷ tail else more

-- `strconv.FormatUint(n, 10)`. A number has no more digits than itself and one.
unfoldable pub format_uint : ℕ → Text
unfolding format_onto
format_uint n = format_onto (suc n) n []

pub is_digit : ℕ → Bool
is_digit c = leb 48 c && leb c 57

-- The loop of `strconv.ParseUint`: a character that is no digit, or a value past 64 bits, is an
-- error.
unfoldable pub parse_digits : ℕ → Text → Option ℕ
parse_digits n [] = some n
parse_digits n (c ∷ rest) =
    let n' : ℕ = n * 10 + (c - 48) in
    let after = parse_digits n' rest in
    if is_digit c then (if ltb n' (2 ^ 64) then after else none) else none

-- `strconv.ParseUint(s, 10, 64)`; `none` is its error.
unfoldable pub parse_uint : Text → Option ℕ
unfolding parse_digits is_digit
parse_uint [] = none
parse_uint (c ∷ rest) = parse_digits 0 (c ∷ rest)

-- Equality of strings.
unfoldable pub text_eq : Text → Text → Bool
text_eq [] [] = true
text_eq [] (d ∷ t) = false
text_eq (c ∷ s) [] = false
text_eq (c ∷ s) (d ∷ t) = let rest = text_eq s t in if c == d then rest else false
