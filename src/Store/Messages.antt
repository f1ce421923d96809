-- ===== src/Store/Messages.antt =====
-- internal/store/messages.go: writing, reading and deleting messages. Each function is one statement;
-- an insert, the move of the read marker after it and the read that follows are three.
pub mod Timeline
pub mod Ordered
mod Pages
pub mod Paged
pub mod Steps
pub mod Mapped
mod Effects
pub mod Replay
pub mod Reads
pub mod Marked
pub mod Undone
pub mod Scanned
pub mod Rows
pub mod Claims
pub mod Claimed
mod Tests
use aural_server.Base.{
  ℕ, zero, suc, Bool, true, false, not, ◌&&◌, ◌||◌, Option, none, some, List, [], ◌∷◌, ◌++◌, max,
  ltb, leb, ◌==◌, if◌then◌else◌, keep, any,
}
use aural_server.Text.{Text}
use aural_server.Hub.{User}
use aural_server.Store.{Db, Outcome, done, missing, broken, user_row}
use aural_server.Store.Channels.{channel_row}
use aural_server.Store.MessageRows.{MessageRow, ReadRow, PostRow, MessageTables, delete_where}

-- The row with an id.
unfoldable pub message_row : List MessageRow → ℕ → Option MessageRow
message_row [] id = none
message_row (m ∷ rest) id = if m.id == id then some m else message_row rest id

-- The user that a column names, by the left join.
author_row : List User → Option ℕ → Option User
unfolding user_row
author_row users none = none
author_row users (some id) = user_row users id

-- `COALESCE(u.nickname, m.author)`.
resolve_author : Option User → MessageRow → MessageRow
resolve_author none m = m
resolve_author (some u) m = record m { author = u.nickname }

-- `scanMessage`, with the columns that it reads.
unfoldable pub scan_message : List User → MessageRow → MessageRow
unfolding author_row resolve_author
scan_message users m = resolve_author (author_row users m.user_id) m

-- `scanMessages`.
unfoldable pub scan_messages : List User → List MessageRow → List MessageRow
unfolding scan_message
scan_messages users [] = []
scan_messages users (m ∷ rest) = scan_message users m ∷ scan_messages users rest

-- `MessageByID`.
unfoldable pub message_by_id : Db → ℕ → Outcome MessageRow
unfolding message_row scan_message
message_by_id db id = elim (message_row db.messages.messages id) [
  | none ↦ missing
  | some m ↦ done (scan_message db.users m)
]

-- What a writer hands to `CreateMessage`, with the moment.
pub record NewMessage : Type 0 where
  pub channel_id : ℕ
  pub post_id : Option ℕ
  pub user_id : ℕ
  pub content : Text
  pub reply_to_id : Option ℕ
  pub now : ℕ

unfoldable pub post_row : List PostRow → ℕ → Option PostRow
post_row [] id = none
post_row (p ∷ rest) id = if p.id == id then some p else post_row rest id

named_post : Option User → PostRow → PostRow
named_post none p = p
named_post (some u) p = record p { author = u.nickname }

-- `PostByID`.
unfoldable pub post_by_id : Db → ℕ → Outcome PostRow
unfolding post_row named_post author_row
post_by_id db id = elim (post_row db.messages.posts id) [
  | none ↦ missing
  | some p ↦ done (named_post (author_row db.users p.user_id) p)
]

-- The foreign keys of a new row.
post_exists : List PostRow → Option ℕ → Bool
unfolding post_row
post_exists posts none = true
post_exists posts (some id) = elim (post_row posts id) [ none ↦ false | some p ↦ true ]

channel_exists : Db → ℕ → Bool
unfolding channel_row
channel_exists db id = elim (channel_row db.channels id) [ none ↦ false | some c ↦ true ]

-- The row of a new message, under the name that its author has now.
unfoldable pub new_row : ℕ → Text → NewMessage → MessageRow
new_row id author n = record {
  id = id;
  channel_id = n.channel_id;
  post_id = n.post_id;
  user_id = some n.user_id;
  author = author;
  content = n.content;
  created_at = n.now;
  edited_at = none;
  reply_to_id = n.reply_to_id;
  webhook_id = none;
  webhook_avatar = none;
  webhook_source = none;
  embeds = none;
}

-- A row at the end of the table, which takes the next id: the column is an AUTOINCREMENT one
-- (internal/store/migrations.go).
unfoldable pub append_row : MessageRow → MessageTables → MessageTables
append_row m t = record t {
  messages = t.messages ++ m ∷ [];
  next_message_id = suc t.next_message_id;
}

-- The first statement of `insertMessage`. An author who is gone has no nickname, which the column
-- does not take.
unfoldable pub insert_message : NewMessage → Db → Outcome (Db × ℕ)
unfolding new_row append_row post_exists channel_exists user_row
insert_message n db = elim (user_row db.users n.user_id) [
  | none ↦ broken
  | some u ↦
      if channel_exists db n.channel_id && post_exists db.messages.posts n.post_id
      then done (
        record db {
          messages = append_row (new_row db.messages.next_message_id u.nickname n) db.messages;
        },
        db.messages.next_message_id,
      )
      else broken
]

unfoldable pub is_marker : ℕ → ℕ → ReadRow → Bool
is_marker user_id channel_id r = r.user_id == user_id && r.channel_id == channel_id

-- `INSERT INTO channel_reads … ON CONFLICT DO UPDATE SET last_read_id = MAX(…)`.
unfoldable pub raise_marker : ℕ → ℕ → ℕ → List ReadRow → List ReadRow
unfolding is_marker
raise_marker user_id channel_id id [] =
    record { user_id = user_id; channel_id = channel_id; last_read_id = id } ∷ []
raise_marker user_id channel_id id (r ∷ rest) =
    let later = raise_marker user_id channel_id id rest in
    if is_marker user_id channel_id r
    then record r { last_read_id = max id r.last_read_id } ∷ rest
    else r ∷ later

-- The second statement of `insertMessage`.
unfoldable pub move_read_marker : NewMessage → ℕ → Db → Outcome Db
unfolding raise_marker
move_read_marker n id db = done (record db {
  messages = record db.messages {
    channel_reads = raise_marker n.user_id n.channel_id id db.messages.channel_reads;
  };
})

-- `CreateWebhookMessage`, the insert: the author is the name that came with the delivery.
unfoldable pub insert_webhook_message : ℕ → MessageRow → Db → Outcome (Db × ℕ)
unfolding append_row channel_exists
insert_webhook_message now m db =
    let row = record m {
      id = db.messages.next_message_id;
      post_id = none;
      user_id = none;
      created_at = now;
      edited_at = none;
    } in
    if channel_exists db m.channel_id
    then done (record db { messages = append_row row db.messages }, db.messages.next_message_id)
    else broken

-- A change of the row with an id.
unfoldable pub set_message : ℕ → (MessageRow → MessageRow) → List MessageRow → List MessageRow
set_message id f [] = []
set_message id f (m ∷ rest) =
    let later = set_message id f rest in if m.id == id then f m ∷ later else m ∷ later

-- `requireOneRow`, where the statement is on the row with an id.
one_message : Option MessageRow → Db → Outcome Db
one_message none db = missing
one_message (some m) db = done db

-- The update of `UpdateMessageContent`.
unfoldable pub update_message_content : ℕ → Text → ℕ → Db → Outcome Db
unfolding set_message one_message message_row
update_message_content id content now db =
    one_message (message_row db.messages.messages id) (record db {
      messages = record db.messages {
        messages =
            set_message id
              (λ (m : MessageRow). record m { content = content; edited_at = some now })
              db.messages.messages;
      };
    })

-- The update of `UpdateWebhookMessage`.
unfoldable pub update_webhook_message : ℕ → Text → Option Text → ℕ → Db → Outcome Db
unfolding set_message one_message message_row
update_webhook_message id content embeds now db =
    one_message (message_row db.messages.messages id) (record db {
      messages = record db.messages {
        messages =
            set_message id
              (λ (m : MessageRow). record m {
                content = content;
                embeds = embeds;
                edited_at = some now;
              })
              db.messages.messages;
      };
    })

-- `DeleteMessage`.
unfoldable pub delete_message : ℕ → Db → Outcome Db
unfolding one_message message_row delete_where
delete_message id db =
    one_message (message_row db.messages.messages id)
      (record db { messages = delete_where (λ m. m.id == id) db.messages })

-- `DeletedMessageTarget`.
pub record DeletedMessageTarget : Type 0 where
  pub id : ℕ
  pub channel_id : ℕ

unfoldable pub targets_of : List MessageRow → List DeletedMessageTarget
targets_of [] = []
targets_of (m ∷ rest) = record { id = m.id; channel_id = m.channel_id } ∷ targets_of rest

-- Whether a purge of a user's messages takes one: a cutoff of 0 takes them all.
unfoldable pub is_purged : ℕ → ℕ → MessageRow → Bool
is_purged user_id cutoff m = elim m.user_id [
  | none ↦ false
  | some writer ↦ writer == user_id && (cutoff == 0 || leb cutoff m.created_at)
]

-- `DeleteMessagesByUser`, its read and its delete.
unfoldable pub delete_messages_by_user : ℕ → ℕ → Db → Outcome (Db × List DeletedMessageTarget)
unfolding targets_of is_purged delete_where keep
delete_messages_by_user user_id cutoff db =
    let targets = targets_of (keep (is_purged user_id cutoff) db.messages.messages) in
    elim targets [
      | [] ↦ done (db, [])
      | t ∷ rest ↦
          done
            (record db { messages = delete_where (is_purged user_id cutoff) db.messages }, t ∷ rest)
    ]
