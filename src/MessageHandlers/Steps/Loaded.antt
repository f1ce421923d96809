-- ===== src/MessageHandlers/Steps/Loaded.antt =====
-- internal/gateway/handlers_message.go: what a message that was loaded is.
use aural_server.Base.{
  ℕ, String, ◌≡◌, ap, subst, sym, ◌∙◌, inl, inr, Bool, true, some, arith, ◌==◌, ==_iff,
  if◌then◌else◌, Option-cases,
}
use aural_server.Protocol.{ok, refuse, not_found}
use aural_server.Store.{Db, done}
use aural_server.Store.MessageRows.{MessageRow}
use aural_server.Store.Messages.{message_row, message_by_id, scan_message}
use aural_server.Store.Messages.Rows.{Words}
use aural_server.Store.Messages.Scanned.{scan_message-user_id, scan_message-channel_id}
use aural_server.Server.{Server, Session, Handler, query}
use aural_server.Server.Exec.{check, attempt}
use aural_server.Server.Sync.{session_can_view}
use aural_server.Server.Quiet.{query-ok, step-ok, QuietCall-query, Quiet-attempt}
use aural_server.MessageHandlers.Steps.{load_visible_message}

pub record Loaded (actor : Session) (id : ℕ) (s : Server) (m : MessageRow) : Type 0 where
  pub row : MessageRow
  pub found : message_row s.db.messages.messages id ≡ some row
  pub scanned : m ≡ scan_message s.db.users row
  pub seen : session_can_view s.hub actor m.channel_id ≡ true

message_by_id-done :
    (db : Db) (id : ℕ) (m : MessageRow)
    → message_by_id db id ≡ done m
    → (row : MessageRow) × (message_row db.messages.messages id ≡ some row)
      × (m ≡ scan_message db.users row)
unfolding message_by_id
message_by_id-done db id m h = elim (Option-cases (message_row db.messages.messages id)) [
  | inl absent ↦ absurd (ground (arith, absent, h))
  | inr (row, found) ↦ (row, found, ground (arith, found, h))
]

seen_lem :
    (b : Bool) (m m' : MessageRow) (c : String)
    → (if b then ok m' else refuse not_found c) ≡ ok m
    → (b ≡ true) × (m' ≡ m)
seen_lem b m m' c h = ground (arith, h)

-- A message that was loaded is a row of the table, in a channel that the caller sees.
pub load_visible_message-ok :
    (actor : Session) (id : ℕ) (s : Server) (m : MessageRow)
    → (load_visible_message actor id s).0 ≡ ok m
    → Loaded actor id s m
unfolding load_visible_message
load_visible_message-ok actor id s m h =
    let read : Handler MessageRow =
      attempt "no such message" "the server failed to read the message"
        (query (λ db. message_by_id db id)) in
    let (m', first, second) =
      step-ok read
        (λ k. check (λ t.
          if session_can_view t.hub actor k.channel_id
          then ok k
          else refuse not_found "no such message"))
        s m h in
    let (row, found, scanned) = message_by_id-done s.db id m' (
      query-ok "no such message" "the server failed to read the message" (λ db. message_by_id db id)
        s m' first) in
    let (seen, same) =
      seen_lem (session_can_view (read s).1.hub actor m'.channel_id) m m' "no such message"
        second in
    let kept : (read s).1.hub ≡ s.hub =
      ((Quiet-attempt "no such message" "the server failed to read the message" _
          (QuietCall-query (λ db. message_by_id db id))).at
        s).same_hub in
    record {
      row = row;
      found = found;
      scanned = sym same ∙ scanned;
      seen =
          subst (λ (k : MessageRow). session_can_view s.hub actor k.channel_id ≡ true) same
            (subst (λ h'. session_can_view h' actor m'.channel_id ≡ true) kept seen);
    }

-- What was loaded has the columns of the row.
pub Loaded-columns :
    (actor : Session) (id : ℕ) (s : Server) (existing : MessageRow) (x : ℕ) (m : MessageRow)
    → Loaded actor id s existing
    → Words x m s.db.messages
    → (id == x) ≡ true
    → (existing.user_id ≡ m.user_id) × (existing.channel_id ≡ m.channel_id)
Loaded-columns actor id s existing x m l w same =
    let row : l.row ≡ m =
      ground (arith, l.found, w, ap (message_row s.db.messages.messages) ((==_iff id x).0 same)) in
    (
      ap (λ (k : MessageRow). k.user_id) l.scanned
          ∙ scan_message-user_id s.db.users l.row
          ∙ ap (λ (k : MessageRow). k.user_id) row,
      ap (λ (k : MessageRow). k.channel_id) l.scanned
          ∙ scan_message-channel_id s.db.users l.row
          ∙ ap (λ (k : MessageRow). k.channel_id) row,
    )
