-- ===== src/Store/Messages/Steps.antt =====
-- internal/store/messages.go: its statements that write, the markers of internal/store/channelreads.go
-- and the deletion of a channel, as steps of the database. Writing and deleting a post are not among
-- them.
use aural_server.Base.{
  ◌==◌, ◌&&◌, ℕ, ◌≤◌, ◌≡◌, refl, sym, subst, inl, inr, Option, none, some, List, [], ◌∷◌, arith,
  Bool-cases, Option-cases, keep, contains,
}
use aural_server.Text.{Text}
use aural_server.Store.{Db, Outcome, done, missing, broken, user_row}
use aural_server.Store.Channels.{delete_channel, channel_row}
use aural_server.Store.MessageRows.{MessageRow, MessageTables, delete_where, cascade_channels}
use aural_server.Store.Messages.{
  NewMessage, insert_message, insert_webhook_message, update_message_content,
  update_webhook_message, delete_message, delete_messages_by_user, one_message, move_read_marker,
  new_row, channel_exists, post_exists, DeletedMessageTarget, targets_of, is_purged,
}
use aural_server.Store.Messages.Reads.{mark_read, mark_row}
use aural_server.Store.Messages.Ordered.{
  IsOrdered, IsRising, append_row-IsOrdered, delete_where-IsOrdered, set_message-IsOrdered,
}

-- One statement on the messages or the markers, or the deletion of a channel.
pub data MessageStep (db : Db) (db' : Db) : Type 0 where
  inserted : (n : NewMessage) (id : ℕ) → insert_message n db ≡ done (db', id) → MessageStep db db'
  marked : (n : NewMessage) (id : ℕ) → move_read_marker n id db ≡ done db' → MessageStep db db'
  read : (user_id channel_id id : ℕ) → db' ≡ mark_read user_id channel_id id db → MessageStep db db'
  delivered :
      (now : ℕ) (m : MessageRow) (id : ℕ)
      → insert_webhook_message now m db ≡ done (db', id)
      → MessageStep db db'
  edited :
      (id : ℕ) (content : Text) (now : ℕ)
      → update_message_content id content now db ≡ done db'
      → MessageStep db db'
  redelivered :
      (id : ℕ) (content : Text) (embeds : Option Text) (now : ℕ)
      → update_webhook_message id content embeds now db ≡ done db'
      → MessageStep db db'
  deleted : (id : ℕ) → delete_message id db ≡ done db' → MessageStep db db'
  purged :
      (user_id cutoff : ℕ) (targets : List DeletedMessageTarget)
      → delete_messages_by_user user_id cutoff db ≡ done (db', targets)
      → MessageStep db db'
  channel_deleted :
      (id : ℕ) (below : List ℕ) → delete_channel db id ≡ done (db', below) → MessageStep db db'

pub data MessageSteps (db : Db) : Db → Type 0 where
  here : MessageSteps db db
  next : {db' db'' : Db} → MessageSteps db db' → MessageStep db' db'' → MessageSteps db db''

-- The tables inside the answer of a statement.
abbrev After {ℓ} : {A : Type ℓ} → (A → Db) → (Db → Type 0) → Outcome A → Type 0
After db_of P (done a) = P (db_of a)
After db_of P missing = Unit
After db_of P broken = Unit

after {ℓ} :
    {A : Type ℓ} (db_of : A → Db) (P : Db → Type 0) (o : Outcome A) (a : A)
    → After db_of P o
    → o ≡ done a
    → P (db_of a)
after db_of P (done b) a h e = subst P (ground (arith, e)) h
after db_of P missing a h e = cc
after db_of P broken a h e = cc

abbrev Ordered : Db → Type 0
Ordered db = IsOrdered db.messages

insert-Ordered :
    (n : NewMessage) (db : Db)
    → Ordered db
    → After (λ (p : Db × ℕ). p.0) Ordered (insert_message n db)
unfolding insert_message
insert-Ordered n db o = elim (Option-cases (user_row db.users n.user_id)) [
  | inl gone ↦ rw (After, gone) tt
  | inr (u, known) ↦
      elim (Bool-cases
        (channel_exists db n.channel_id && post_exists db.messages.posts n.post_id)) [
          | inl exists ↦
              rw (After, known, exists)
                (append_row-IsOrdered (new_row db.messages.next_message_id u.nickname n) db.messages
                  refl o)
          | inr dangling ↦ rw (After, known, dangling) tt
        ]
]

deliver-Ordered :
    (now : ℕ) (m : MessageRow) (db : Db)
    → Ordered db
    → After (λ (p : Db × ℕ). p.0) Ordered (insert_webhook_message now m db)
unfolding insert_webhook_message
deliver-Ordered now m db o = elim (Bool-cases (channel_exists db m.channel_id)) [
  | inl exists ↦ rw exists (append_row-IsOrdered _ db.messages refl o)
  | inr dangling ↦ rw dangling tt
]

one_message-Ordered :
    (found : Option MessageRow) (db : Db)
    → Ordered db
    → After (λ (d : Db). d) Ordered (one_message found db)
unfolding one_message
one_message-Ordered none db o = tt
one_message-Ordered (some m) db o = o

purge-Ordered :
    (user_id cutoff : ℕ) (db : Db)
    → Ordered db
    → After
        (λ (p : Db × List DeletedMessageTarget). p.0)
        Ordered
        (delete_messages_by_user user_id cutoff db)
unfolding delete_messages_by_user
purge-Ordered user_id cutoff db o =
    go (targets_of (keep (is_purged user_id cutoff) db.messages.messages))
  where
    go :
        (targets : List DeletedMessageTarget)
        → After
            (λ (p : Db × List DeletedMessageTarget). p.0)
            Ordered
            (elim targets [
              | [] ↦ done (db, [])
              | t ∷ rest ↦ done (
                record db { messages = delete_where (is_purged user_id cutoff) db.messages },
                t ∷ rest,
              )
            ])
    go [] = o
    go (t ∷ rest) = delete_where-IsOrdered (is_purged user_id cutoff) db.messages o

cascade-IsOrdered :
    (gone : List ℕ) (t : MessageTables) → IsOrdered t → IsOrdered (cascade_channels gone t)
unfolding cascade_channels
cascade-IsOrdered gone t o =
    let kept = delete_where-IsOrdered (λ m. contains gone m.channel_id) t o in
    record { started = kept.started; rising = kept.rising; below = kept.below }

delete_channel-Ordered :
    (id : ℕ) (db : Db)
    → Ordered db
    → After (λ (p : Db × List ℕ). p.0) Ordered (delete_channel db id)
unfolding delete_channel
delete_channel-Ordered id db o = elim (Option-cases (channel_row db.channels id)) [
  | inl absent ↦ rw (After, absent) tt
  | inr (c, found) ↦ rw (After, found) (cascade-IsOrdered _ db.messages o)
]

-- Marking a channel as read leaves the messages and their sequence.
pub mark_read-rows :
    (user_id channel_id id : ℕ) (db : Db)
    → ((mark_read user_id channel_id id db).messages.messages ≡ db.messages.messages)
      × ((mark_read user_id channel_id id db).messages.next_message_id
          ≡ db.messages.next_message_id)
unfolding mark_read mark_row
mark_read-rows user_id channel_id id db = elim (Option-cases (user_row db.users user_id)) [
  | inl gone ↦ rw gone (refl, refl)
  | inr (u, known) ↦ rw known (refl, refl)
]

step-Ordered : {db db' : Db} → MessageStep db db' → Ordered db → Ordered db'
unfolding update_message_content update_webhook_message delete_message move_read_marker
step-Ordered {db} {db'} (inserted n id e) o =
    after (λ (p : Db × ℕ). p.0) Ordered _ (db', id) (insert-Ordered n db o) e
step-Ordered {db} {db'} (marked n id e) o =
    after (λ (d : Db). d) Ordered (move_read_marker n id db) db'
      (record { started = o.started; rising = o.rising; below = o.below }) e
step-Ordered {db} {db'} (read user_id channel_id id e) o =
    let (rows, numbered) = mark_read-rows user_id channel_id id db in
    subst Ordered (sym e) (record {
      started = subst (λ k. 1 ≤ k) (sym numbered) o.started;
      rising = subst (IsRising 1) (sym rows) o.rising;
      below = rw (rows, numbered) o.below;
    })
step-Ordered {db} {db'} (delivered now m id e) o =
    after (λ (p : Db × ℕ). p.0) Ordered _ (db', id) (deliver-Ordered now m db o) e
step-Ordered {db} {db'} (edited id content now e) o =
    after (λ (d : Db). d) Ordered _ db'
      (one_message-Ordered _ _ (set_message-IsOrdered id _ db.messages (λ m. refl) o)) e
step-Ordered {db} {db'} (redelivered id content embeds now e) o =
    after (λ (d : Db). d) Ordered _ db'
      (one_message-Ordered _ _ (set_message-IsOrdered id _ db.messages (λ m. refl) o)) e
step-Ordered {db} {db'} (deleted id e) o =
    after (λ (d : Db). d) Ordered _ db'
      (one_message-Ordered _ _ (delete_where-IsOrdered (λ m. m.id == id) db.messages o)) e
step-Ordered {db} {db'} (purged user_id cutoff targets e) o =
    after (λ (p : Db × List DeletedMessageTarget). p.0) Ordered _ (db', targets)
      (purge-Ordered user_id cutoff db o) e
step-Ordered {db} {db'} (channel_deleted id below e) o =
    after (λ (p : Db × List ℕ). p.0) Ordered _ (db', below) (delete_channel-Ordered id db o) e

-- The table stays in the order of its ids, and the next id is above them all.
pub MessageSteps-IsOrdered :
    {db db' : Db} → MessageSteps db db' → IsOrdered db.messages → IsOrdered db'.messages
MessageSteps-IsOrdered here o = o
MessageSteps-IsOrdered (next steps step) o = step-Ordered step (MessageSteps-IsOrdered steps o)
