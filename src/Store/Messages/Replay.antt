-- ===== src/Store/Messages/Replay.antt =====
-- internal/store/messages.go: the table of messages as a map from ids to rows, and what each statement
-- does to it.
use aural_server.Base.{
  leb, false, ◌&&◌, ◌||◌, Option-cases, inl, inr, Bool, ℕ, ◌≡◌, refl, ap, ◌∙◌, not, Option, none,
  some, ◌∷◌, arith, ◌==◌, if◌then◌else◌, contains,
}
use aural_server.Store.{Db, user_row}
use aural_server.Store.MessageRows.{MessageRow}
use aural_server.Store.Messages.{move_read_marker, new_row, is_purged, message_row}
use aural_server.Store.Messages.Ordered.{IsOrdered}
use aural_server.Store.Messages.Rows.{update-done, delete-done}
use aural_server.Store.Messages.Steps.{
  MessageStep, inserted, marked, read, delivered, edited, redelivered, deleted, purged,
  channel_deleted, MessageSteps, here, next, MessageSteps-IsOrdered, mark_read-rows,
}
use aural_server.Store.Messages.Mapped.{changed, passing, row-changed, row-passing, delete-row}
use aural_server.Store.Messages.Effects.{
  nickname_of, insert-row, deliver-row, redelivered-done, purge-done, channel_deleted-done,
}

-- Whether a column names a user.
wrote : ℕ → Option ℕ → Bool
wrote user_id none = false
wrote user_id (some writer) = writer == user_id

-- What a statement does to the row with an id, on the map from ids to rows: a new id gets a row, the
-- row that is named is changed or goes, the rows of a writer or of some channels go, and every other
-- row stays as it is.
unfoldable pub row_after :
    {db db' : Db} → MessageStep db db' → ℕ → Option MessageRow → Option MessageRow
unfolding nickname_of changed passing wrote
row_after {db} (inserted n id e) x row =
    if id == x
    then some (record {
      id = id;
      channel_id = n.channel_id;
      post_id = n.post_id;
      user_id = some n.user_id;
      author = nickname_of (user_row db.users n.user_id);
      content = n.content;
      created_at = n.now;
      edited_at = none;
      reply_to_id = n.reply_to_id;
      webhook_id = none;
      webhook_avatar = none;
      webhook_source = none;
      embeds = none;
    })
    else row
row_after (marked n id e) x row = row
row_after (read user_id channel_id id e) x row = row
row_after (delivered now m id e) x row =
    if id == x
    then some
        (record m { id = id; post_id = none; user_id = none; created_at = now; edited_at = none })
    else row
row_after (edited id content now e) x row =
    if id == x
    then changed (λ (m : MessageRow). record m { content = content; edited_at = some now }) row
    else row
row_after (redelivered id content embeds now e) x row =
    if id == x
    then changed
        (λ (m : MessageRow). record m { content = content; embeds = embeds; edited_at = some now })
        row
    else row
row_after (deleted id e) x row = if id == x then none else row
row_after (purged user_id cutoff targets e) x row =
    passing
      (λ (m : MessageRow).
        not (wrote user_id m.user_id && (cutoff == 0 || leb cutoff m.created_at)))
      row
row_after (channel_deleted id below e) x row =
    passing (λ (m : MessageRow). not (contains (id ∷ below) m.channel_id)) row

unfoldable pub rows_after :
    {db db' : Db} → MessageSteps db db' → ℕ → Option MessageRow → Option MessageRow
unfolding row_after
rows_after here x row = row
rows_after (next steps step) x row = row_after step x (rows_after steps x row)

is_purged_lem :
    (user_id cutoff : ℕ) (m : MessageRow)
    → is_purged user_id cutoff m
      ≡ (wrote user_id m.user_id && (cutoff == 0 || leb cutoff m.created_at))
unfolding is_purged wrote
is_purged_lem user_id cutoff m = elim (Option-cases m.user_id) [
  | inl nobody ↦ rw nobody refl
  | inr (writer, named) ↦ rw named refl
]

passing_same :
    (p q : MessageRow → Bool) (row : Option MessageRow)
    → ((m : MessageRow) → p m ≡ q m)
    → passing p row ≡ passing q row
unfolding passing
passing_same p q none h = refl
passing_same p q (some m) h = rw (h m) refl

step-row :
    {db db' : Db} (step : MessageStep db db') (x : ℕ)
    → IsOrdered db.messages
    → message_row db'.messages.messages x ≡ row_after step x (message_row db.messages.messages x)
unfolding row_after move_read_marker new_row
step-row {db} {db'} (inserted n id e) x o = insert-row n db db' id x o e
step-row {db} {db'} (marked n id e) x o = ground (arith, e)
step-row {db} {db'} (read user_id channel_id id e) x o =
    ap (λ (d : Db). message_row d.messages.messages x) e
    ∙ ap (λ rows. message_row rows x) (mark_read-rows user_id channel_id id db).0
step-row {db} {db'} (delivered now m id e) x o = deliver-row now m db db' id x o e
step-row {db} {db'} (edited id content now e) x o =
    ap (λ rows. message_row rows x) (update-done id content now db db' e)
    ∙ row-changed id _ db.messages.messages x (λ m. refl)
step-row {db} {db'} (redelivered id content embeds now e) x o =
    ap (λ rows. message_row rows x) (redelivered-done id content embeds now db db' e)
    ∙ row-changed id _ db.messages.messages x (λ m. refl)
step-row {db} {db'} (deleted id e) x o =
    ap (λ rows. message_row rows x) (delete-done id db db' e) ∙ delete-row id db.messages.messages x
step-row {db} {db'} (purged user_id cutoff targets e) x o =
    ap (λ rows. message_row rows x) (purge-done user_id cutoff db db' targets _ refl e)
    ∙ row-passing _ 1 db.messages.messages x o.rising
    ∙ passing_same _ _ (message_row db.messages.messages x)
        (λ m. ap not (is_purged_lem user_id cutoff m))
step-row {db} {db'} (channel_deleted id below e) x o =
    ap (λ rows. message_row rows x) (channel_deleted-done id db db' below e)
    ∙ row-passing _ 1 db.messages.messages x o.rising

-- The table of messages is a map from ids to rows. However messages are written, delivered by
-- webhooks, edited, deleted one by one, purged with their writer or lost with their channel, and
-- however markers move, the row under each id afterwards is what those statements make of it one after
-- another, where an insert gives its own id a row, a change or a deletion touches the one row that it
-- names, a purge takes the rows that the user wrote since the cutoff, the deletion of a channel those
-- of that channel and the ones below, and everything else is left alone. The table starts in the order
-- of its ids.
pub MessageSteps-rows_after :
    {db db' : Db} (steps : MessageSteps db db') (x : ℕ)
    → IsOrdered db.messages
    → message_row db'.messages.messages x ≡ rows_after steps x (message_row db.messages.messages x)
unfolding rows_after
MessageSteps-rows_after here x o = refl
MessageSteps-rows_after (next steps step) x o =
    step-row step x (MessageSteps-IsOrdered steps o)
    ∙ ap (row_after step x) (MessageSteps-rows_after steps x o)
