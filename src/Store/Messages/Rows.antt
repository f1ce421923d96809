-- ===== src/Store/Messages/Rows.antt =====
-- internal/store/messages.go: the row with an id, after a statement on one row.
use aural_server.Base.{
  ℕ, ◌≡◌, refl, inl, inr, false, not, ◌&&◌, some, List, [], ◌∷◌, arith, ◌==◌, Bool-cases,
  Option-cases, keep,
}
use aural_server.Text.{Text}
use aural_server.Store.{Db, done, user_row}
use aural_server.Store.MessageRows.{MessageRow, MessageTables, delete_where}
use aural_server.Store.Messages.{
  message_row, set_message, update_message_content, delete_message, NewMessage, insert_message,
  new_row, append_row, channel_exists, post_exists,
}

-- A change of one row leaves the others.
pub row-set :
    (id : ℕ) (f : MessageRow → MessageRow) (rows : List MessageRow) (x : ℕ)
    → ((m : MessageRow) → (f m).id ≡ m.id)
    → (id == x) ≡ false
    → message_row (set_message id f rows) x ≡ message_row rows x
unfolding message_row set_message
row-set id f [] x same h = refl
row-set id f (m ∷ rows) x same h = elim (Bool-cases (m.id == id)) [
  | inl here ↦ ground (arith, here, same m, row-set id f rows x same h)
  | inr other ↦ ground (arith, other, row-set id f rows x same h)
]

pub update-done :
    (id : ℕ) (content : Text) (now : ℕ) (db db' : Db)
    → update_message_content id content now db ≡ done db'
    → db'.messages.messages
      ≡ set_message id
          (λ (m : MessageRow). record m { content = content; edited_at = some now })
          db.messages.messages
unfolding update_message_content
update-done id content now db db' h = elim (Option-cases (message_row db.messages.messages id)) [
  | inl absent ↦ absurd (ground (arith, absent, h))
  | inr (m, found) ↦ ground (arith, found, h)
]

pub delete-done :
    (id : ℕ) (db db' : Db)
    → delete_message id db ≡ done db'
    → db'.messages.messages ≡ keep (λ m. not (m.id == id)) db.messages.messages
unfolding delete_message delete_where
delete-done id db db' h = elim (Option-cases (message_row db.messages.messages id)) [
  | inl absent ↦ absurd (ground (arith, absent, h))
  | inr (m, found) ↦ ground (arith, found, h)
]

-- The words of a message that is somebody else's, or nobody's.
abbrev pub Words : ℕ → MessageRow → MessageTables → Type 0
Words x m t = message_row t.messages x ≡ some m

pub row-keep :
    (id : ℕ) (rows : List MessageRow) (x : ℕ)
    → (id == x) ≡ false
    → message_row (keep (λ m. not (m.id == id)) rows) x ≡ message_row rows x
unfolding message_row keep
row-keep id [] x h = refl
row-keep id (m ∷ rows) x h = elim (Bool-cases (m.id == id)) [
  | inl here ↦ ground (arith, here, row-keep id rows x h)
  | inr other ↦ ground (arith, other, row-keep id rows x h)
]

-- What an insert that succeeds has done.
pub insert-done :
    (n : NewMessage) (db db' : Db) (id : ℕ)
    → insert_message n db ≡ done (db', id)
    → (author : Text) × (id ≡ db.messages.next_message_id)
      × (db' ≡ record db {
        messages = append_row (new_row db.messages.next_message_id author n) db.messages;
      })
unfolding insert_message
insert-done n db db' id h = elim (Option-cases (user_row db.users n.user_id)) [
  | inl gone ↦ absurd (ground (arith, gone, h))
  | inr (u, known) ↦
      elim (Bool-cases
        (channel_exists db n.channel_id && post_exists db.messages.posts n.post_id)) [
          | inl exists ↦
              (u.nickname, ground (arith, known, exists, h), ground (arith, known, exists, h))
          | inr dangling ↦ absurd (ground (arith, known, dangling, h))
        ]
]

pub delete-lem :
    (id : ℕ) (db : Db) (m : MessageRow)
    → message_row db.messages.messages id ≡ some m
    → delete_message id db
      ≡ done (record db { messages = delete_where (λ k. k.id == id) db.messages })
unfolding delete_message
delete-lem id db m found = ground (arith, found)
