-- ===== src/MessageHandlers/Send.antt =====
-- internal/gateway/handlers_message.go: `handleMessageSend`.
mod Created
mod Withdrawn
pub mod Refused
use aural_server.Base.{
  ℕ, zero, suc, String, Bool, true, false, not, ◌&&◌, Option, none, some, List, [], ◌∷◌, ◌++◌, ◌==◌,
  if◌then◌else◌,
}
use aural_server.Text.{Text}
use aural_server.Permissions.{send_messages, attach_files}
use aural_server.Protocol
use aural_server.Protocol.{
  Result, ok, err, refuse, internal, not_found, bad_request, post_locked, require, require_some,
}
use aural_server.Store.{Db, Outcome, done, missing, broken}
use aural_server.Store.MessageRows.{MessageRow, AttachmentRow, PostRow}
use aural_server.Store.Messages.{
  NewMessage, insert_message, move_read_marker, message_by_id, delete_message,
}
use aural_server.Store.Messages.Claims.{claim_attachments, attachments_for_message}
use aural_server.Server.{
  Server, Session, Handler, MessageView, ReferencedMessage, message_created, relay_message, query,
  write, no_value,
}
use aural_server.Server.Exec.{◌>>=◌, ◌>>◌, pure, check, act, attempt}
use aural_server.Channels.{require_channel_permission}
use aural_server.Channels.Handlers.{broadcast_channel_event}
use aural_server.Validate.{validate_message_content}
use aural_server.MessageHandlers.{
  Setting, MessageSendRequest, validate_attachment_ids, require_text_channel,
  referenced_message_view, message_view, same_post, positive,
}
use aural_server.MessageHandlers.Steps.{
  insist, load_visible_post, take_message_token, screened, relay,
}

has_any : List ℕ → Bool
has_any [] = false
has_any (id ∷ rest) = true

-- Whether a comment may be written under a post.
open_for : PostRow → ℕ → Result (Unit {0})
open_for post channel_id =
    Protocol.◌>>◌
      (require (post.channel_id == channel_id) bad_request "that post is in another channel")
      (require (not post.locked) post_locked "that post is closed to comments")

-- The post that a message is a comment on, after the checks of where it goes.
unfoldable pub destination : Session → ℕ → ℕ → Handler (Option ℕ)
unfolding open_for
destination actor channel_id zero =
    check (λ s. require_text_channel s.hub actor channel_id send_messages) >>= λ _. pure none
destination actor channel_id (suc n) = load_visible_post actor (suc n) >>= λ found.
    check (λ s. open_for found.0 channel_id) >>= λ _.
    check (λ s. require_channel_permission s.hub actor (some channel_id) send_messages) >>= λ _.
    pure (some found.0.id)

may_attach : Session → ℕ → List ℕ → Server → Result (Unit {0})
may_attach actor channel_id [] s = ok tt
may_attach actor channel_id (id ∷ rest) s =
    require_channel_permission s.hub actor (some channel_id) attach_files

-- A message that may be answered from a channel and a post.
answerable : ℕ → Option ℕ → MessageRow → Result (Option (ℕ × ReferencedMessage))
answerable channel_id post_id target =
    Protocol.◌>>◌
      (require (target.channel_id == channel_id && same_post target.post_id post_id) bad_request
        "cannot reply to a message from somewhere else")
      (ok (some (target.id, referenced_message_view (some target) target.id)))

reply_target : ℕ → Option ℕ → Option ℕ → Handler (Option (ℕ × ReferencedMessage))
unfolding answerable
reply_target channel_id post_id none = pure none
reply_target channel_id post_id (some id) =
    attempt "the message you are replying to does not exist"
      "the server failed to load reply target" (query (λ db. message_by_id db id))
    >>= λ target. check (λ s. answerable channel_id post_id target)

reply_id : Option (ℕ × ReferencedMessage) → Option ℕ
reply_id none = none
reply_id (some (id, view)) = some id

reply_view : Option (ℕ × ReferencedMessage) → Option ReferencedMessage
reply_view none = none
reply_view (some (id, view)) = some view

-- `CreateMessage`, as the handler answers to it: the insert, the read marker and the read.
unfoldable pub create_message : NewMessage → Handler MessageRow
create_message n = do
  id ← insist "the server failed to store the message" (write (insert_message n))
  insist "the server failed to store the message"
      (write (λ db. no_value (move_read_marker n id db)))
  insist "the server failed to store the message" (query (λ db. message_by_id db id))

-- `ClaimAttachments`, less its early return.
read_claimed : ℕ → Outcome (Unit {0}) × Server → Outcome (List AttachmentRow) × Server
read_claimed id (done _, s) = query (λ db. done (attachments_for_message db id)) s
read_claimed id (missing, s) = (missing, s)
read_claimed id (broken, s) = (broken, s)

-- The message goes when its files cannot be attached.
taken_back : MessageRow → Server → Server
taken_back m s = (write (λ db. no_value (delete_message m.id db)) s).1

attached : MessageRow → Outcome (List AttachmentRow) × Server → Result (List AttachmentRow) × Server
unfolding taken_back
attached m (done files, s) = (ok files, s)
attached m (missing, s) =
    (refuse not_found "one of those uploads is gone, already posted, or not yours", taken_back m s)
attached m (broken, s) = (refuse internal "the server failed to attach the files", taken_back m s)

-- The claim of the files of a message that was just written.
unfoldable pub attach_files_to : Session → MessageRow → List ℕ → Handler (List AttachmentRow)
unfolding attached read_claimed
attach_files_to actor m [] s = (ok [], s)
attach_files_to actor m (id ∷ rest) s = attached m (
    read_claimed m.id
      (write (λ db. no_value (claim_attachments m.id actor.user.id m.channel_id (id ∷ rest) db)) s))

-- From the row on: the files, the frame and the bridge.
unfoldable pub publish :
    Session → MessageRow → List ℕ → Option ReferencedMessage → Handler MessageView
publish actor created ids reply = do
  files ← attach_files_to actor created ids
  let view = message_view created files reply
  act (broadcast_channel_event (message_created view) created.channel_id)
  act (relay (relay_message created files))
  pure view

-- `handleMessageSend`.
unfoldable pub handle_message_send :
    Setting → Session → Option MessageSendRequest → Handler MessageView
unfolding has_any may_attach reply_target reply_id reply_view publish
handle_message_send cfg actor raw = do
  req ← check (λ s. require_some raw bad_request "payload does not match the shape this op expects")
  ids ← check (λ s. validate_attachment_ids cfg.max_per_message req.attachments)
  content ← check (λ s. validate_message_content req.content (has_any ids))
  post_id ← destination actor req.channel_id req.post_id
  check (may_attach actor req.channel_id ids)
  actor' ← take_message_token cfg actor "you are sending messages too quickly"
  text ← screened cfg actor' req.channel_id content true
  target ← reply_target req.channel_id post_id (positive req.reply_to_id)
  created ← create_message (record {
    channel_id = req.channel_id;
    post_id = post_id;
    user_id = actor.user.id;
    content = text;
    reply_to_id = reply_id target;
    now = cfg.now;
  })
  publish actor created ids (reply_view target)
