-- ===== src/MessageHandlers/Edit.antt =====
-- internal/gateway/handlers_message.go: `handleMessageEdit` and `handleMessageDelete`.
pub mod Authors
pub mod Deleted
use aural_server.Base.{
  ℕ, zero, suc, String, Bool, true, false, not, ◌&&◌, Option, none, some, List, [], ◌∷◌, ◌++◌, ◌==◌,
  if◌then◌else◌,
}
use aural_server.Text.{Text}
use aural_server.Permissions.{manage_messages}
use aural_server.Hub.{Channel, channel}
use aural_server.Protocol.{
  Result, ok, err, refuse, internal, not_found, bad_request, forbidden, require, require_some,
}
use aural_server.Store.{Db, Outcome, done, missing, broken, AuditChange}
use aural_server.Store.MessageRows.{MessageRow, AttachmentRow, PostRow}
use aural_server.Store.Messages.{message_by_id, post_by_id, update_message_content, delete_message}
use aural_server.Store.Messages.Claims.{attachments_for_message}
use aural_server.Server.{
  Server, Session, Handler, MessageView, message_updated, message_deleted, relay_edit, relay_delete,
  query, write, no_value, audit,
}
use aural_server.Server.Exec.{◌>>=◌, ◌>>◌, pure, check, act, attempt}
use aural_server.Channels.{require_channel_permission}
use aural_server.Channels.Handlers.{broadcast_channel_event}
use aural_server.Roles.Handlers.{audit_target}
use aural_server.Validate.{validate_message_content}
use aural_server.MessageHandlers.{Setting, MessageEditRequest, message_view, written_by}
use aural_server.MessageHandlers.Steps.{
  insist, load_visible_message, take_message_token, screened, resolve_message_reply, relay,
}

has_files : List AttachmentRow → Bool
has_files [] = false
has_files (a ∷ rest) = true

-- The view of a message that was just changed.
shown : MessageRow → List AttachmentRow → Handler MessageView
shown m files s =
    let found = resolve_message_reply m.reply_to_id s in
    (ok (message_view m files found.0), found.1)

-- `UpdateMessageContent`, as the handler answers to it: the update and the read.
unfoldable pub edit_message : ℕ → Text → ℕ → Handler MessageRow
edit_message id content now = do
  attempt "no such message" "the server failed to edit the message"
      (write (λ db. no_value (update_message_content id content now db)))
  attempt "no such message" "the server failed to edit the message"
      (query (λ db. message_by_id db id))

-- `handleMessageEdit`.
unfoldable pub handle_message_edit :
    Setting → Session → Option MessageEditRequest → Handler MessageView
unfolding has_files shown
handle_message_edit cfg actor raw = do
  req ← check (λ s. require_some raw bad_request "payload does not match the shape this op expects")
  existing ← load_visible_message actor req.message_id
  check (λ s.
      require (written_by actor.user.id existing.user_id) forbidden
        "you can only edit your own messages")
  files ←
      insist "the server failed to read the message"
        (query (λ db. done (attachments_for_message db existing.id)))
  content ← check (λ s. validate_message_content req.content (has_files files))
  actor' ← take_message_token cfg actor "you are editing messages too quickly"
  text ← screened cfg actor' existing.channel_id content false
  updated ← edit_message req.message_id text cfg.now
  view ← shown updated files
  act (broadcast_channel_event (message_updated view) updated.channel_id)
  act (relay (relay_edit updated))
  pure view

-- Whose message it is, or what lets somebody else delete it.
may_delete : Session → MessageRow → Server → Result (Unit {0})
may_delete actor m s =
    if written_by actor.user.id m.user_id
    then ok tt
    else require_channel_permission s.hub actor (some m.channel_id) manage_messages

is_body : Option ℕ → ℕ → Bool
is_body none id = false
is_body (some root) id = root == id

-- The body of a post is not deleted on its own; a post that is gone has no body.
not_body : ℕ → Outcome PostRow × Server → Result (Unit {0}) × Server
unfolding is_body
not_body id (done post, s) = (
  require (not (is_body post.root_message_id id)) bad_request
      "that message is the body of a post; delete the post instead",
  s,
)
not_body id (missing, s) = (ok tt, s)
not_body id (broken, s) = (refuse internal "the server failed to read the message", s)

unless_body : MessageRow → Option ℕ → Handler (Unit {0})
unfolding not_body
unless_body m none s = (ok tt, s)
unless_body m (some post_id) s = not_body m.id (query (λ db. post_by_id db post_id) s)

remove_files : List AttachmentRow → Server → Server
remove_files files s = record s { removed_files = s.removed_files ++ files }

where_it_was : Option Channel → List AuditChange
where_it_was none = []
where_it_was (some c) = record { key = "channel"; before = []; after = c.name } ∷ []

-- Only somebody else's message goes into the log.
log_deletion : Session → MessageRow → Server → Server
unfolding where_it_was
log_deletion actor m s =
    if written_by actor.user.id m.user_id
    then s
    else audit actor
        (record (audit_target "message.delete" "message" m.id m.author) {
          changes = where_it_was (channel s.hub m.channel_id);
        })
        s

-- `handleMessageDelete`; the request is the id of the message.
unfoldable pub handle_message_delete : Session → Option ℕ → Handler (ℕ × ℕ)
unfolding may_delete unless_body remove_files log_deletion
handle_message_delete actor raw = do
  id ← check (λ s. require_some raw bad_request "payload does not match the shape this op expects")
  existing ← load_visible_message actor id
  check (may_delete actor existing)
  unless_body existing existing.post_id
  files ←
      insist "the server failed to read the message"
        (query (λ db. done (attachments_for_message db existing.id)))
  attempt "no such message" "the server failed to delete the message"
      (write (λ db. no_value (delete_message id db)))
  act (remove_files files)
  act (
      broadcast_channel_event (message_deleted existing.id existing.channel_id) existing.channel_id)
  act (relay (relay_delete existing))
  act (log_deletion actor existing)
  pure (existing.id, existing.channel_id)
