-- ===== src/Store/Messages/Scanned.antt =====
-- internal/store/messages.go: what a query gives back of a row. Only the name of the author may differ.
use aural_server.Base.{List, ◌≡◌, refl, inl, inr, Option-cases}
use aural_server.Hub.{User}
use aural_server.Store.MessageRows.{MessageRow}
use aural_server.Store.Messages.{scan_message, author_row}

module _ (users : List User) (m : MessageRow) where
  pub scan_message-id : (scan_message users m).id ≡ m.id
  unfolding scan_message
  scan_message-id = elim (Option-cases (author_row users m.user_id)) [
    | inl gone ↦ rw gone refl
    | inr (u, here) ↦ rw here refl
  ]

  pub scan_message-user_id : (scan_message users m).user_id ≡ m.user_id
  unfolding scan_message
  scan_message-user_id = elim (Option-cases (author_row users m.user_id)) [
    | inl gone ↦ rw gone refl
    | inr (u, here) ↦ rw here refl
  ]

  pub scan_message-channel_id : (scan_message users m).channel_id ≡ m.channel_id
  unfolding scan_message
  scan_message-channel_id = elim (Option-cases (author_row users m.user_id)) [
    | inl gone ↦ rw gone refl
    | inr (u, here) ↦ rw here refl
  ]
