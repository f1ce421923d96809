-- ===== src/Store/Messages/Timeline.antt =====
-- internal/store/messages.go: reading the history a page at a time.
use mathlib.Core.List.{reverse}
use aural_server.Base.{
  ℕ, zero, suc, ◌+◌, ◌-◌, ◌/◌, Bool, true, false, not, ◌&&◌, Option, none, some, List, [], ◌∷◌,
  ◌++◌, ltb, ◌==◌, if◌then◌else◌, keep, any, take, length, contains,
}
use aural_server.Store.{Db}
use aural_server.Store.MessageRows.{MessageRow}
use aural_server.Store.Messages.{scan_messages}

-- `ORDER BY m.id ASC`.
unfoldable pub insert_by_id : MessageRow → List MessageRow → List MessageRow
insert_by_id m [] = m ∷ []
insert_by_id m (n ∷ rest) =
    let later = insert_by_id m rest in if ltb n.id m.id then n ∷ later else m ∷ n ∷ rest

unfoldable pub by_id : List MessageRow → List MessageRow
unfolding insert_by_id
by_id [] = []
by_id (m ∷ rest) = insert_by_id m (by_id rest)

pub is_top : Option ℕ → Bool
is_top none = true
is_top (some id) = false

-- A line of a channel's timeline.
unfoldable pub is_line : ℕ → MessageRow → Bool
unfolding is_top
is_line channel_id m = m.channel_id == channel_id && is_top m.post_id

pub in_post : ℕ → Option ℕ → Bool
in_post post_id none = false
in_post post_id (some id) = id == post_id

-- A comment of a post: its messages past the body.
unfoldable pub is_comment : ℕ → ℕ → MessageRow → Bool
unfolding in_post
is_comment post_id root m = in_post post_id m.post_id && ltb root m.id

-- The rows of a run before a cursor; 0 is the end of the run.
unfoldable pub before_cursor : ℕ → MessageRow → Bool
before_cursor zero m = true
before_cursor (suc n) m = ltb m.id (suc n)

-- A page of a run, newest first.
unfoldable pub page_before : (MessageRow → Bool) → ℕ → ℕ → List MessageRow → List MessageRow
unfolding keep by_id before_cursor
page_before run before limit rows =
    take limit (reverse (by_id (keep (λ m. run m && before_cursor before m) rows)))

-- A page of a run, oldest first.
unfoldable pub page_after : (MessageRow → Bool) → ℕ → ℕ → List MessageRow → List MessageRow
unfolding keep by_id
page_after run after limit rows = take limit (by_id (keep (λ m. run m && ltb after m.id) rows))

-- `MessagesBefore`.
unfoldable pub messages_before : Db → ℕ → ℕ → ℕ → List MessageRow
unfolding page_before
messages_before db channel_id before limit =
    scan_messages db.users (page_before (is_line channel_id) before limit db.messages.messages)

-- `MessagesAfter`.
unfoldable pub messages_after : Db → ℕ → ℕ → ℕ → List MessageRow
unfolding page_after
messages_after db channel_id after limit =
    scan_messages db.users (page_after (is_line channel_id) after limit db.messages.messages)

-- `PostMessagesBefore`.
unfoldable pub post_messages_before : Db → ℕ → ℕ → ℕ → ℕ → List MessageRow
unfolding page_before
post_messages_before db post_id root before limit =
    scan_messages db.users (page_before (is_comment post_id root) before limit db.messages.messages)

-- `MessagesAround`.
unfoldable pub messages_around : Db → ℕ → ℕ → ℕ → List MessageRow
messages_around db channel_id id limit =
    let older = messages_before db channel_id (id + 1) (limit / 2 + 1) in
    let newer = messages_after db channel_id id (limit - length older) in reverse older ++ newer

-- Whether a run has a row before an id.
unfoldable pub has_before : (MessageRow → Bool) → ℕ → List MessageRow → Bool
unfolding any
has_before run id rows = any (λ m. run m && ltb m.id id) rows

-- `HasMessagesBefore`.
unfoldable pub has_messages_before : Db → ℕ → ℕ → Bool
unfolding has_before
has_messages_before db channel_id id = has_before (is_line channel_id) id db.messages.messages

-- `HasMessagesAfter`.
unfoldable pub has_messages_after : Db → ℕ → ℕ → Bool
unfolding any
has_messages_after db channel_id id =
    any (λ m. is_line channel_id m && ltb id m.id) db.messages.messages

-- `HasPostMessagesBefore`.
unfoldable pub has_post_messages_before : Db → ℕ → ℕ → ℕ → Bool
unfolding has_before
has_post_messages_before db post_id root id =
    has_before (is_comment post_id root) id db.messages.messages

-- `MessagesByID`, which reads nothing for an empty list.
unfoldable pub messages_by_id : Db → List ℕ → List MessageRow
unfolding keep by_id contains
messages_by_id db ids =
    scan_messages db.users (by_id (keep (λ m. contains ids m.id) db.messages.messages))

-- `RepliesForMessages`: the rows that some ids name, less the ids that name none.
unfoldable pub replies_for_messages : Db → List ℕ → List MessageRow
unfolding keep contains
replies_for_messages db ids =
    scan_messages db.users (keep (λ m. contains ids m.id && not (m.id == 0)) db.messages.messages)
