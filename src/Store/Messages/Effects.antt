-- ===== src/Store/Messages/Effects.antt =====
-- internal/store/messages.go: the table of messages after each statement that succeeds.
use aural_server.Base.{
  ℕ, ◌≡◌, refl, ap, sym, subst, ◌∙◌, inl, inr, not, ◌&&◌, Option, none, some, List, [], ◌∷◌, arith,
  ◌==◌, if◌then◌else◌, Bool-cases, Option-cases, keep, contains,
}
use aural_server.Text.{Text}
use aural_server.Hub.{User}
use aural_server.Store.{Db, done, user_row}
use aural_server.Store.Channels.{delete_channel, channel_row}
use aural_server.Store.MessageRows.{MessageRow, delete_where, cascade_channels}
use aural_server.Store.Messages.{
  NewMessage, insert_message, insert_webhook_message, update_webhook_message,
  delete_messages_by_user, one_message, new_row, append_row, channel_exists, post_exists,
  DeletedMessageTarget, targets_of, is_purged, message_row, set_message,
}
use aural_server.Store.Messages.Ordered.{IsOrdered, IsBelow}
use aural_server.Store.Messages.Mapped.{row-append}

unfoldable pub nickname_of : Option User → Text
nickname_of none = []
nickname_of (some u) = u.nickname

-- A new row, with an id above those of all others.
appended :
    (m : MessageRow) (db db' : Db) (id x : ℕ)
    → IsOrdered db.messages
    → m.id ≡ db.messages.next_message_id
    → id ≡ db.messages.next_message_id
    → db' ≡ record db { messages = append_row m db.messages }
    → message_row db'.messages.messages x
      ≡ (if id == x then some m else message_row db.messages.messages x)
unfolding append_row
appended m db db' id x o numbered named grown =
    ap (λ (d : Db). message_row d.messages.messages x) grown
    ∙ row-append m db.messages.messages x
        (subst (λ k. IsBelow k db.messages.messages) (sym numbered) o.below)
    ∙ ap (λ k. if k == x then some m else message_row db.messages.messages x) (numbered ∙ sym named)

pub insert-row :
    (n : NewMessage) (db db' : Db) (id x : ℕ)
    → IsOrdered db.messages
    → insert_message n db ≡ done (db', id)
    → message_row db'.messages.messages x ≡ (
        if id == x
        then some (new_row id (nickname_of (user_row db.users n.user_id)) n)
        else message_row db.messages.messages x)
unfolding insert_message nickname_of new_row
insert-row n db db' id x o h = elim (Option-cases (user_row db.users n.user_id)) [
  | inl gone ↦ absurd (ground (arith, gone, h))
  | inr (u, known) ↦
      elim (Bool-cases
        (channel_exists db n.channel_id && post_exists db.messages.posts n.post_id)) [
          | inl exists ↦
              let named : id ≡ db.messages.next_message_id = ground (arith, known, exists, h) in
              rw known (
                appended (new_row id u.nickname n) db db' id x o named named
                  (ground (arith, known, exists, h, named)))
          | inr dangling ↦ absurd (ground (arith, known, dangling, h))
        ]
]

pub deliver-row :
    (now : ℕ) (m : MessageRow) (db db' : Db) (id x : ℕ)
    → IsOrdered db.messages
    → insert_webhook_message now m db ≡ done (db', id)
    → message_row db'.messages.messages x ≡ (
        if id == x
        then some (record m {
          id = id;
          post_id = none;
          user_id = none;
          created_at = now;
          edited_at = none;
        })
        else message_row db.messages.messages x)
unfolding insert_webhook_message
deliver-row now m db db' id x o h = elim (Bool-cases (channel_exists db m.channel_id)) [
  | inl exists ↦
      let named : id ≡ db.messages.next_message_id = ground (arith, exists, h) in
      appended
        (record m { id = id; post_id = none; user_id = none; created_at = now; edited_at = none })
        db db' id x o named named (ground (arith, exists, h, named))
  | inr dangling ↦ absurd (ground (arith, dangling, h))
]

pub redelivered-done :
    (id : ℕ) (content : Text) (embeds : Option Text) (now : ℕ) (db db' : Db)
    → update_webhook_message id content embeds now db ≡ done db'
    → db'.messages.messages
      ≡ set_message id
          (λ (m : MessageRow). record m {
            content = content;
            embeds = embeds;
            edited_at = some now;
          })
          db.messages.messages
unfolding update_webhook_message one_message
redelivered-done id content embeds now db db' h =
    elim (Option-cases (message_row db.messages.messages id)) [
      | inl absent ↦ absurd (ground (arith, absent, h))
      | inr (m, found) ↦ ground (arith, found, h)
    ]

-- A purge that finds nothing has nothing to delete.
none_purged :
    (user_id cutoff : ℕ) (rows : List MessageRow)
    → targets_of (keep (is_purged user_id cutoff) rows) ≡ []
    → keep (λ m. not (is_purged user_id cutoff m)) rows ≡ rows
unfolding targets_of keep
none_purged user_id cutoff [] h = refl
none_purged user_id cutoff (m ∷ rows) h = elim (Bool-cases (is_purged user_id cutoff m)) [
  | inl goes ↦ absurd (ground (arith, goes, h))
  | inr stays ↦ ground (arith, stays, none_purged user_id cutoff rows (ground (arith, stays, h)))
]

pub purge-done :
    (user_id cutoff : ℕ) (db db' : Db) (targets found : List DeletedMessageTarget)
    → targets_of (keep (is_purged user_id cutoff) db.messages.messages) ≡ found
    → delete_messages_by_user user_id cutoff db ≡ done (db', targets)
    → db'.messages.messages ≡ keep (λ m. not (is_purged user_id cutoff m)) db.messages.messages
unfolding delete_messages_by_user delete_where
purge-done user_id cutoff db db' targets [] e h =
    ground (arith, e, h, none_purged user_id cutoff db.messages.messages e)
purge-done user_id cutoff db db' targets (t ∷ rest) e h = ground (arith, e, h)

pub channel_deleted-done :
    (id : ℕ) (db db' : Db) (below : List ℕ)
    → delete_channel db id ≡ done (db', below)
    → db'.messages.messages
      ≡ keep (λ (m : MessageRow). not (contains (id ∷ below) m.channel_id)) db.messages.messages
unfolding delete_channel cascade_channels delete_where
channel_deleted-done id db db' below h = elim (Option-cases (channel_row db.channels id)) [
  | inl absent ↦ absurd (ground (arith, absent, h))
  | inr (c, found) ↦ ground (arith, found, h)
]
