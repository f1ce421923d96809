-- ===== src/MessageHandlers.antt =====
-- internal/gateway/handlers_message.go: what is sent, edited, deleted and read. Here are the requests
-- and the checks that read no rows; the children run the handlers. Ids are natural numbers: an id
-- below 0 is refused, or read as a missing one, where 0 is.
pub mod Steps
pub mod Send
pub mod Edit
pub mod History
pub mod Search
mod Tests
use aural_server.Base.{
  ℕ, zero, suc, ◌+◌, Bool, true, false, not, ◌&&◌, ◌||◌, Option, none, some, List, [], ◌∷◌, ◌++◌,
  ltb, leb, ◌==◌, if◌then◌else◌, length, take, contains,
}
use aural_server.Text.{Text}
use aural_server.Permissions.{Permission, view_channel}
use aural_server.Hub.{
  Hub, Channel, ChannelType, category_channel, text_channel, voice_channel, announcement_channel,
  forum_channel, media_channel, calendar_channel, channel,
}
use aural_server.Protocol.{
  Result, ok, err, refuse, bad_request, not_found, uploads_disabled, ◌>>=◌, ◌>>◌, require,
  require_some,
}
use aural_server.Store.MessageRows.{MessageRow, AttachmentRow}
use aural_server.AutoMod.Words.{Tables}
use aural_server.AutoMod.Screen.{AutoModConfig}
use aural_server.Server.{Session, ReferencedMessage, MessageView}
use aural_server.Channels.{require_channel_permission}

-- What the handlers read besides the state: the rules of automatic moderation with the tables of
-- `unicode`, how many files a message may carry if uploads are on, and the moment.
pub record Setting : Type 0 where
  pub tables : Tables
  pub auto_mod : AutoModConfig ℕ
  pub max_per_message : Option ℕ
  pub now : ℕ

-- `MessageSendRequest`.
pub record MessageSendRequest : Type 0 where
  pub channel_id : ℕ
  pub content : Text
  pub post_id : ℕ
  pub reply_to_id : Option ℕ
  pub attachments : List ℕ

-- `MessageEditRequest`.
pub record MessageEditRequest : Type 0 where
  pub message_id : ℕ
  pub content : Text

-- `MessageHistoryRequest`; a limit of 0 or less is 0.
pub record MessageHistoryRequest : Type 0 where
  pub channel_id : ℕ
  pub post_id : ℕ
  pub before : ℕ
  pub after : ℕ
  pub around : ℕ
  pub limit : ℕ

-- The loop of `validateAttachmentIDs`.
each_id : List ℕ → List ℕ → Result (Unit {0})
each_id seen [] = ok tt
each_id seen (id ∷ rest) =
    let later = each_id (id ∷ seen) rest in
    if id == 0
    then refuse bad_request "attachment ids must be positive"
    else if contains seen id
    then refuse bad_request "the same upload is listed twice"
    else later

-- `validateAttachmentIDs`. The message on too many files leaves out the limit.
unfoldable pub validate_attachment_ids : Option ℕ → List ℕ → Result (List ℕ)
unfolding each_id contains
validate_attachment_ids limit [] = ok []
validate_attachment_ids limit (id ∷ rest) = do
  most ← require_some limit uploads_disabled "this server does not accept file uploads"
  require (leb (length (id ∷ rest)) most) bad_request "a message may carry no more files"
  each_id [] (id ∷ rest)
  ok (id ∷ rest)

unfoldable pub is_text : ChannelType → Bool
is_text text_channel = true
is_text category_channel = false
is_text voice_channel = false
is_text announcement_channel = false
is_text forum_channel = false
is_text media_channel = false
is_text calendar_channel = false

-- `PostChannel`.
unfoldable pub is_post_channel : ChannelType → Bool
is_post_channel announcement_channel = true
is_post_channel forum_channel = true
is_post_channel media_channel = true
is_post_channel calendar_channel = true
is_post_channel category_channel = false
is_post_channel text_channel = false
is_post_channel voice_channel = false

-- A channel that the caller has a permission in.
reachable : Hub → Session → ℕ → Permission → Result Channel
reachable h actor channel_id want = do
  found ← require_some (channel h channel_id) not_found "no such channel"
  require_channel_permission h actor (some channel_id) want
  ok found

-- `requireTextChannel`.
unfoldable pub require_text_channel : Hub → Session → ℕ → Permission → Result (Unit {0})
unfolding reachable is_text
require_text_channel h actor channel_id want = do
  found ← reachable h actor channel_id want
  require (is_text found.type) bad_request "that channel does not carry messages"

-- `requirePostChannel`.
unfoldable pub require_post_channel : Hub → Session → ℕ → Permission → Result Channel
unfolding reachable is_post_channel
require_post_channel h actor channel_id want = do
  found ← reachable h actor channel_id want
  require (is_post_channel found.type) bad_request "that channel does not hold posts"
  ok found

-- The checks of `handleChannelRead`.
unfoldable pub check_channel_read : Hub → Session → ℕ → Result (Unit {0})
unfolding reachable is_text is_post_channel
check_channel_read h actor channel_id = do
  found ← reachable h actor channel_id view_channel
  require (is_text found.type || is_post_channel found.type) bad_request
      "that channel does not carry messages"

-- `referenceLength`.
abbrev pub reference_length : ℕ
reference_length = 512

-- `truncateRunes`, of a text by its runes.
unfoldable pub truncate_runes : Text → ℕ → Text
truncate_runes s n = if leb (length s) n then s else take n s

-- `referencedMessageView`.
unfoldable pub referenced_message_view : Option MessageRow → ℕ → ReferencedMessage
unfolding truncate_runes
referenced_message_view none id = record {
  id = id;
  channel_id = 0;
  user_id = none;
  author = [];
  content = [];
  deleted = true;
}
referenced_message_view (some m) id = record {
  id = m.id;
  channel_id = m.channel_id;
  user_id = m.user_id;
  author = m.author;
  content = truncate_runes m.content reference_length;
  deleted = false;
}

-- `messageView`.
unfoldable pub message_view :
    MessageRow → List AttachmentRow → Option ReferencedMessage → MessageView
message_view m attachments reply_to = record {
  message = m;
  attachments = attachments;
  reply_to = reply_to;
}

-- `samePost`.
unfoldable pub same_post : Option ℕ → Option ℕ → Bool
same_post none none = true
same_post (some a) (some b) = a == b
same_post none (some b) = false
same_post (some a) none = false

-- Whether a column names a user: `m.UserID != nil && *m.UserID == s.UserID()`.
unfoldable pub written_by : ℕ → Option ℕ → Bool
written_by user_id none = false
written_by user_id (some writer) = writer == user_id

-- The id that an optional reference names, if it is above 0.
unfoldable pub positive : Option ℕ → Option ℕ
positive none = none
positive (some zero) = none
positive (some (suc n)) = some (suc n)
