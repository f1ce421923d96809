-- ===== src/Store/Messages/Marked.antt =====
-- internal/store/channelreads.go: what marking a channel as read does to what is unread.
use aural_server.Base.{
  ℕ, ◌≤◌, ◌≡◌, refl, ap, inl, inr, Bool, true, ◌&&◌, Option, none, some, List, [], ◌∷◌, arith, max,
  ltb, ◌==◌, if◌then◌else◌, Bool-cases, keep, length, ==_refl,
}
use aural_server.Hub.{User}
use aural_server.Store.{Db, user_row}
use aural_server.Store.MessageRows.{MessageRow, ReadRow, MessageTables}
use aural_server.Store.Messages.{is_marker, raise_marker}
use aural_server.Store.Messages.Reads.{
  marker, effective_marker, unread_in, unread_entries, with_entry, unread_channel_counts, newest_in,
  mark_row, mark_read,
}

-- Raising one marker raises it as it is read, and leaves the others.
marker-raise :
    (u c id : ℕ) (reads : List ReadRow) (u' c' : ℕ)
    → marker (raise_marker u c id reads) u' c'
      ≡ (if u == u' && c == c' then max id (marker reads u' c') else marker reads u' c')
unfolding marker raise_marker is_marker
marker-raise u c id [] u' c' = ground arith
marker-raise u c id (r ∷ reads) u' c' = elim (Bool-cases (is_marker u c r)) [
  | inl same ↦ ground (arith, same)
  | inr other ↦ ground (arith, other, marker-raise u c id reads u' c')
]

keep-fewer :
    (p q : MessageRow → Bool) (rows : List MessageRow)
    → ((m : MessageRow) → p m ≡ true → q m ≡ true)
    → length (keep p rows) ≤ length (keep q rows)
unfolding keep
keep-fewer p q [] h = omega arith
keep-fewer p q (m ∷ rows) h = ground (arith, h m, keep-fewer p q rows h)

effective_marker-mark_row :
    (o : Option User) (user_id channel_id id : ℕ) (t : MessageTables) (u' c' : ℕ)
    → effective_marker t u' c' ≤ effective_marker (mark_row o user_id channel_id id t) u' c'
unfolding effective_marker mark_row
effective_marker-mark_row none user_id channel_id id t u' c' = omega arith
effective_marker-mark_row (some u) user_id channel_id id t u' c' =
    ground (
      arith,
      marker-raise user_id channel_id (max id (t.unread_epoch user_id)) t.channel_reads u' c',
    )

-- The one who marks has a marker from the message on.
raised_to :
    (u : User) (user_id channel_id id : ℕ) (t : MessageTables)
    → id ≤ effective_marker (mark_row (some u) user_id channel_id id t) user_id channel_id
unfolding effective_marker mark_row
raised_to u user_id channel_id id t = ground (
  arith,
  ==_refl user_id,
  ==_refl channel_id,
  marker-raise user_id channel_id (max id (t.unread_epoch user_id)) t.channel_reads user_id
      channel_id,
)

messages-mark_row :
    (o : Option User) (user_id channel_id id : ℕ) (t : MessageTables)
    → (mark_row o user_id channel_id id t).messages ≡ t.messages
unfolding mark_row
messages-mark_row none user_id channel_id id t = refl
messages-mark_row (some u) user_id channel_id id t = refl

module _ (user_id channel_id id : ℕ) (db : Db) where
  -- Marking a channel as read up to any message, an old one too, makes nothing unread again: no
  -- member has more unread messages in any channel than before.
  pub mark_read-unread_in :
      (u' c' : ℕ)
      → length (unread_in (mark_read user_id channel_id id db).messages u' c')
        ≤ length (unread_in db.messages u' c')
  unfolding unread_in mark_read
  mark_read-unread_in u' c' =
      let o = user_row db.users user_id in
      rw (messages-mark_row o user_id channel_id id db.messages) (
        keep-fewer _ _ db.messages.messages (λ m h.
          ground (arith, effective_marker-mark_row o user_id channel_id id db.messages u' c')))

newest_in-le :
    (rows : List MessageRow) (c mark : ℕ)
    → newest_in rows c ≤ mark
    → keep (λ m. m.channel_id == c && ltb mark m.id) rows ≡ []
unfolding newest_in keep
newest_in-le [] c mark h = refl
newest_in-le (m ∷ rows) c mark h = ground (arith, newest_in-le rows c mark)

nothing_unread :
    (u : User) (user_id channel_id : ℕ) (t : MessageTables)
    → unread_in
        (mark_row (some u) user_id channel_id (newest_in t.messages channel_id) t)
        user_id
        channel_id
      ≡ []
unfolding unread_in
nothing_unread u user_id channel_id t =
    let id = newest_in t.messages channel_id in
    rw (messages-mark_row (some u) user_id channel_id id t)
      (newest_in-le t.messages channel_id _ (raised_to u user_id channel_id id t))

entries_of_nothing :
    (t : MessageTables) (user_id c : ℕ)
    → unread_in t user_id c ≡ []
    → unread_entries t user_id (c ∷ []) ≡ []
unfolding unread_entries with_entry
entries_of_nothing t user_id c e = ap (λ rows. with_entry t user_id c rows []) e

-- Marking a channel as read up to the newest message in it leaves nothing unread there for that
-- member. The member is known.
pub mark_read-newest :
    (db : Db) (user_id channel_id : ℕ) (u : User)
    → user_row db.users user_id ≡ some u
    → unread_channel_counts
        (mark_read user_id channel_id (newest_in db.messages.messages channel_id) db)
        user_id
        (channel_id ∷ [])
      ≡ []
unfolding unread_channel_counts mark_read
mark_read-newest db user_id channel_id u known =
    rw (unread_channel_counts, known)
      (rw (mark_read, known)
        (entries_of_nothing
          (mark_row (some u) user_id channel_id (newest_in db.messages.messages channel_id)
            db.messages)
          user_id channel_id (nothing_unread u user_id channel_id db.messages)))
