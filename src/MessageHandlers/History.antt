-- ===== src/MessageHandlers/History.antt =====
-- internal/gateway/handlers_message.go: `handleMessageHistory`, and `handleChannelRead` of
-- internal/gateway/handlers_channel.go.
use mathlib.Core.List.{reverse}
use aural_server.Base.{
  ℕ, zero, suc, ◌+◌, String, Bool, true, false, not, ◌&&◌, ◌||◌, Option, none, some, List, [], ◌∷◌,
  min, ltb, leb, ◌==◌, if◌then◌else◌, keep,
}
use aural_server.Permissions.{view_channel}
use aural_server.Protocol.{bad_request, require, require_some}
use aural_server.Store.{Db, done}
use aural_server.Store.MessageRows.{MessageRow, AttachmentRow, names_one, message_ids}
use aural_server.Store.Messages.Timeline.{
  messages_before, messages_after, messages_around, post_messages_before, has_messages_before,
  has_messages_after, has_post_messages_before, replies_for_messages,
}
use aural_server.Store.Messages.{message_row}
use aural_server.Store.Messages.Claims.{attachments_for_messages}
use aural_server.Store.Messages.Reads.{ChannelUnread, newest_in, mark_read, unread_after}
use aural_server.Server.{Session, Handler, MessageView, ReferencedMessage, query, write}
use aural_server.Server.Exec.{◌>>=◌, ◌>>◌, pure, check}
use aural_server.MessageHandlers.{
  MessageHistoryRequest, require_text_channel, check_channel_read, referenced_message_view,
  message_view,
}
use aural_server.MessageHandlers.Steps.{insist, load_visible_post}

abbrev pub default_history_limit : ℕ
default_history_limit = 50

abbrev pub max_history_limit : ℕ
max_history_limit = 100

-- The limit that a page is read with.
unfoldable pub history_limit : ℕ → ℕ
history_limit limit = if limit == 0 then default_history_limit else min limit max_history_limit

-- `MessageHistoryResult`.
pub record MessageHistoryResult : Type 0 where
  pub channel_id : ℕ
  pub post_id : ℕ
  pub messages : List MessageView
  pub has_more : Bool
  pub has_more_after : Bool

reply_ids : List MessageRow → List ℕ
reply_ids [] = []
reply_ids (m ∷ rest) =
    let later = reply_ids rest in elim m.reply_to_id [ none ↦ later | some id ↦ id ∷ later ]

reply_of : List MessageRow → Option ℕ → Option ReferencedMessage
unfolding message_row
reply_of replies none = none
reply_of replies (some id) = some (referenced_message_view (message_row replies id) id)

views_of : List AttachmentRow → List MessageRow → List MessageRow → List MessageView
unfolding reply_of keep names_one
views_of files replies [] = []
views_of files replies (m ∷ rest) =
    message_view m (keep (λ a. names_one (m.id ∷ []) a.message_id) files)
      (reply_of replies m.reply_to_id)
    ∷ views_of files replies rest

-- The messages that a page answers; none are read where it answers none.
read_replies : String → List ℕ → Handler (List MessageRow)
read_replies what [] = pure []
read_replies what (id ∷ rest) =
    insist what (query (λ db. done (replies_for_messages db (id ∷ rest))))

-- The files of a page; none are read for an empty page.
read_files : String → List ℕ → Handler (List AttachmentRow)
read_files what [] = pure []
read_files what (id ∷ rest) =
    insist what (query (λ db. done (attachments_for_messages db (id ∷ rest))))

-- `messageViews`.
unfoldable pub message_views : String → List MessageRow → Handler (List MessageView)
unfolding read_files read_replies message_ids reply_ids views_of
message_views what page = do
  files ← read_files what (message_ids page)
  replies ← read_replies what (reply_ids page)
  pure (views_of files replies page)

-- The page that a request asks for, oldest first: the branches of the `switch`.
unfoldable pub history_page : MessageHistoryRequest → ℕ → Db → List MessageRow
history_page req limit db =
    if not (req.around == 0)
    then messages_around db req.channel_id req.around limit
    else if not (req.after == 0)
    then messages_after db req.channel_id req.after limit
    else reverse (messages_before db req.channel_id req.before limit)

last_id : ℕ → List MessageRow → ℕ
last_id id [] = id
last_id id (m ∷ rest) = last_id m.id rest

-- What lies on either side of a page that is not empty.
around_page : ℕ → List MessageRow → Handler (Bool × Bool)
unfolding last_id
around_page channel_id [] = pure (false, false)
around_page channel_id (m ∷ rest) = do
  more ←
      insist "the server failed to read the channel history"
        (query (λ db. done (has_messages_before db channel_id m.id)))
  after ←
      insist "the server failed to read the channel history"
        (query (λ db. done (has_messages_after db channel_id (last_id m.id rest))))
  pure (more, after)

one_if : Bool → ℕ
one_if true = 1
one_if false = 0

cursors : MessageHistoryRequest → ℕ
unfolding one_if
cursors req = one_if (ltb 0 req.before) + one_if (ltb 0 req.after) + one_if (ltb 0 req.around)

-- A channel's history.
channel_history : Session → MessageHistoryRequest → Handler MessageHistoryResult
unfolding around_page
channel_history actor req = do
  check (λ s. require_text_channel s.hub actor req.channel_id view_channel)
  page ←
      insist "the server failed to read the channel history"
        (query (λ db. done (history_page req (history_limit req.limit) db)))
  views ← message_views "the server failed to read the channel history" page
  more ← around_page req.channel_id page
  pure (record {
    channel_id = req.channel_id;
    post_id = 0;
    messages = views;
    has_more = more.0;
    has_more_after = more.1;
  })

root_of : Option ℕ → ℕ
root_of none = 0
root_of (some id) = id

before_page : ℕ → ℕ → List MessageRow → Handler Bool
before_page post_id root [] = pure false
before_page post_id root (m ∷ rest) =
    insist "the server failed to read the post"
      (query (λ db. done (has_post_messages_before db post_id root m.id)))

-- `postHistory`.
unfoldable pub post_history : Session → MessageHistoryRequest → Handler MessageHistoryResult
unfolding root_of before_page
post_history actor req = do
  check (λ s.
      require (req.after == 0 && req.around == 0) bad_request
        "a post's comments are paged backwards from before")
  found ← load_visible_post actor req.post_id
  let post = found.0
  check (λ s.
      require (req.channel_id == 0 || post.channel_id == req.channel_id) bad_request
        "that post is in another channel")
  let root = root_of post.root_message_id
  page ← insist "the server failed to read the post" (
      query (λ db.
        done (reverse (post_messages_before db post.id root req.before (history_limit req.limit)))))
  views ← message_views "the server failed to read the post" page
  more ← before_page post.id root page
  pure (record {
    channel_id = post.channel_id;
    post_id = post.id;
    messages = views;
    has_more = more;
    has_more_after = false;
  })

-- `handleMessageHistory`.
unfoldable pub handle_message_history :
    Session → Option MessageHistoryRequest → Handler MessageHistoryResult
unfolding cursors channel_history
handle_message_history actor raw = do
  req ← check (λ s. require_some raw bad_request "payload does not match the shape this op expects")
  check (λ s.
      require (leb (cursors req) 1) bad_request
        "before, after and around name three different pages; send one")
  (if req.post_id == 0 then channel_history actor req else post_history actor req)

-- `ChannelReadRequest`.
pub record ChannelReadRequest : Type 0 where
  pub channel_id : ℕ
  pub message_id : ℕ

-- The message that `MarkChannelRead` marks up to.
marked_id : ℕ → ℕ → Handler ℕ
marked_id channel_id zero =
    insist "the server failed to mark the channel read"
      (query (λ db. done (newest_in db.messages.messages channel_id)))
marked_id channel_id (suc n) = pure (suc n)

-- `handleChannelRead`, with `MarkChannelRead`.
unfoldable pub handle_channel_read : Session → Option ChannelReadRequest → Handler ChannelUnread
unfolding marked_id
handle_channel_read actor raw = do
  req ← check (λ s. require_some raw bad_request "payload does not match the shape this op expects")
  check (λ s. check_channel_read s.hub actor req.channel_id)
  id ← marked_id req.channel_id req.message_id
  insist "the server failed to mark the channel read"
      (write (λ db. done (mark_read actor.user.id req.channel_id id db, tt)))
  insist "the server failed to mark the channel read"
      (query (λ db. done (unread_after actor.user.id req.channel_id id db)))
