-- ===== src/Validate.antt =====
-- internal/gateway/validate.go: the names, colours and message bodies that a client may send.
pub mod Clean
mod Tests
use aural_server.Base.{
  ℕ, zero, suc, ◌+◌, ◌≤◌, String, Bool, true, false, not, ◌&&◌, ◌||◌, List, [], ◌∷◌, ltb, leb, ◌==◌,
  if◌then◌else◌, length, keep,
}
use aural_server.Text.{Text, trim_space, trim_left, trim_right}
use aural_server.Protocol.{Result, ok, err, refuse, bad_request, ◌>>=◌, ◌>>◌, require}

-- `unicode.IsControl`.
unfoldable pub is_control : ℕ → Bool
is_control c = ltb c 0x20 || leb 0x7F c && leb c 0x9F

-- `utf8.RuneError`.
abbrev pub rune_error : ℕ
rune_error = 0xFFFD

keeps_rune : ℕ → Bool
keeps_rune r = not (r == rune_error || is_control r)

-- `cleanText`.
unfoldable pub clean_text : Text → Text
unfolding keeps_rune is_control keep trim_space
clean_text input = trim_space (keep keeps_rune input)

abbrev pub max_nickname_runes : ℕ
max_nickname_runes = 32

abbrev pub min_nickname_runes : ℕ
min_nickname_runes = 1

abbrev pub max_channel_name : ℕ
max_channel_name = 64

abbrev pub max_topic_runes : ℕ
max_topic_runes = 512

abbrev pub max_role_name : ℕ
max_role_name = 48

abbrev pub max_post_title : ℕ
max_post_title = 128

abbrev pub max_message_runes : ℕ
max_message_runes = 2000

abbrev pub max_message_newlines : ℕ
max_message_newlines = 30

is_empty : Text → Bool
is_empty [] = true
is_empty (c ∷ rest) = false

-- `validateNickname`.
unfoldable pub validate_nickname : Text → Result Text
validate_nickname raw = do
  let name = clean_text raw
  require (leb min_nickname_runes (length name)) bad_request "nickname must not be empty"
  require (leb (length name) max_nickname_runes) bad_request
      "nickname must be at most 32 characters"
  ok name

-- `validateChannelName`.
unfoldable pub validate_channel_name : Text → Result Text
unfolding is_empty
validate_channel_name raw = do
  let name = clean_text raw
  require (not (is_empty name)) bad_request "channel name must not be empty"
  require (leb (length name) max_channel_name) bad_request
      "channel name must be at most 64 characters"
  ok name

-- `validateTopic`.
unfoldable pub validate_topic : Text → Result Text
validate_topic raw = do
  let topic = clean_text raw
  require (leb (length topic) max_topic_runes) bad_request "topic must be at most 512 characters"
  ok topic

-- `validateRoleName`.
unfoldable pub validate_role_name : Text → Result Text
unfolding is_empty
validate_role_name raw = do
  let name = clean_text raw
  require (not (is_empty name)) bad_request "role name must not be empty"
  require (leb (length name) max_role_name) bad_request "role name must be at most 48 characters"
  ok name

-- `validatePostTitle`.
unfoldable pub validate_post_title : Text → Result Text
unfolding is_empty
validate_post_title raw = do
  let title = clean_text raw
  require (not (is_empty title)) bad_request "a post needs a title"
  require (leb (length title) max_post_title) bad_request "a title must be at most 128 characters"
  ok title

-- The bytes of a code point in UTF-8, and of a text.
rune_bytes : ℕ → ℕ
rune_bytes c = if ltb c 0x80 then 1 else if ltb c 0x800 then 2 else if ltb c 0x10000 then 3 else 4

unfoldable pub byte_length : Text → ℕ
unfolding rune_bytes
byte_length [] = 0
byte_length (c ∷ rest) = rune_bytes c + byte_length rest

unfoldable pub is_hex : ℕ → Bool
is_hex c = leb b'0' c && leb c b'9' || leb b'a' c && leb c b'f' || leb b'A' c && leb c b'F'

all_hex : Text → Bool
all_hex [] = true
all_hex (c ∷ rest) = is_hex c && all_hex rest

-- `strings.ToLower` on the ASCII text that the checks have let through.
lower : Text → Text
lower [] = []
lower (c ∷ rest) = (if leb b'A' c && leb c b'Z' then c + 32 else c) ∷ lower rest

hash_then_hex : Text → Bool
hash_then_hex [] = false
hash_then_hex (c ∷ rest) = c == b'#' && all_hex rest

-- `validateColor`. Both ways to fail carry one message, so they are one test here.
unfoldable pub validate_color : Text → Result Text
unfolding is_empty hash_then_hex byte_length all_hex is_hex lower
validate_color raw =
    let color = trim_space raw in
    if is_empty color then ok [] else do
      require (byte_length color == 7 && hash_then_hex color) bad_request
          "color must be empty or in #rrggbb form"
      ok (lower color)

-- The loop of `cleanMessage`, with the run of line breaks that stands before the rest.
clean_lines : ℕ → Text → Text
unfolding is_control
clean_lines newlines [] = []
clean_lines newlines (r ∷ rest) =
    let in_run = clean_lines (newlines + 1) rest in
    let fresh = clean_lines 0 rest in
    let dropped = clean_lines newlines rest in
    if r == 10
    then if leb (newlines + 1) max_message_newlines then 10 ∷ in_run else in_run
    else if r == 9
    then 32 ∷ fresh
    else if r == rune_error || is_control r
    then dropped
    else r ∷ fresh

is_blank : ℕ → Bool
is_blank c = c == 32 || c == 10

strip_left : Text → Text
strip_left [] = []
strip_left (c ∷ rest) = let after = strip_left rest in if is_blank c then after else c ∷ rest

push_kept : ℕ → Text → Text
push_kept c [] = if is_blank c then [] else c ∷ []
push_kept c (d ∷ rest) = c ∷ d ∷ rest

strip_right : Text → Text
unfolding push_kept
strip_right [] = []
strip_right (c ∷ rest) = push_kept c (strip_right rest)

-- `cleanMessage`; the two strips are `strings.Trim(s, " \n")`.
unfoldable pub clean_message : Text → Text
unfolding clean_lines strip_left strip_right is_blank
clean_message input = strip_right (strip_left (clean_lines 0 input))

-- `validateMessageContent`.
unfoldable pub validate_message_content : Text → Bool → Result Text
unfolding is_empty
validate_message_content raw has_attachments = do
  let content = clean_message raw
  require (not (is_empty content && not has_attachments)) bad_request "a message cannot be empty"
  require (leb (length content) max_message_runes) bad_request
      "a message must be at most 2000 characters"
  ok content
