-- ===== src/Server.antt =====
-- What the handlers of internal/gateway act on: the database, the cached hub, the sessions, and
-- what has been sent. A handler runs to its end before the next one is read from here.
pub mod Exec
pub mod Sync
pub mod Keeps
pub mod Table
pub mod Settled
pub mod Quiet
use aural_server.Base.{
  ℕ, zero, suc, String, Bool, true, false, not, ◌&&◌, Option, none, some, List, [], ◌∷◌, ◌++◌, map,
  ◌==◌, if◌then◌else◌,
}
use aural_server.Text.{Text}
use aural_server.Permissions.{Permission, has, view_audit_log, connect, view_channel}
use aural_server.Hub.{
  Hub, Role, User, Channel, reload_channels, effective_role_ids, permissions_for,
  channel_permissions, reload_roles, is_owner, rank_of,
}
use aural_server.Protocol.{Code, Failure, Result, ok, err, refuse, internal, forbidden, not_found}
use aural_server.RateLimit.{RateLimiter}
use aural_server.AutoMod.{RecentMessage}
use aural_server.Store.MessageRows.{MessageRow, AttachmentRow}
use aural_server.Store.Channels.{all_channels}
use aural_server.Store.{
  Db, AuditEntry, Outcome, done, missing, broken, all_roles, role_ids_for_user, record_audit,
  user_by_id,
}

-- `Session`, as far as permissions, presence and messages read it: `messages` is its bucket for
-- posting, and `recent` what it wrote last.
pub record Session : Type 0 where
  pub id : ℕ
  pub user : User
  pub role_ids : List ℕ
  pub base : Permission
  pub channel_id : Option ℕ
  pub messages : RateLimiter
  pub recent : List RecentMessage

-- `ReferencedMessage`: the message that another one answers.
pub record ReferencedMessage : Type 0 where
  pub id : ℕ
  pub channel_id : ℕ
  pub user_id : Option ℕ
  pub author : Text
  pub content : Text
  pub deleted : Bool

-- `messageView`: the columns of the rows stand for the fields of the frame.
pub record MessageView : Type 0 where
  pub message : MessageRow
  pub attachments : List AttachmentRow
  pub reply_to : Option ReferencedMessage

-- The frames that these handlers push. `ready` is the snapshot that `buildReady` takes of the state.
pub data Event : Type 0 where
  role_created role_updated : Role → Event
  role_deleted : ℕ → Event
  channel_created channel_updated : Channel → Event
  channel_deleted : ℕ → List ℕ → Event
  audit_entry : AuditEntry → Event
  member_updated : ℕ → Event
  ready : Event
  user_moved : ℕ → Option ℕ → Option ℕ → Event
  message_created message_updated : MessageView → Event
  message_deleted : ℕ → ℕ → Event

-- A frame and the session that it was queued for.
pub record Sent : Type 0 where
  pub to : ℕ
  pub event : Event

-- What is handed to a bridge.
pub data Relayed : Type 0 where
  relay_message : MessageRow → List AttachmentRow → Relayed
  relay_edit relay_delete : MessageRow → Relayed

-- `faults` says of the coming database calls, in order, whether they fail; past its end they
-- succeed. `left_voice` lists the calls of `leaveVoice`, which the voice rooms answer to,
-- `closed_voice` the channels whose rooms are reset, closed and forgotten, `relayed` what went to the
-- bridges, and `removed_files` the files that were taken from the disk.
pub record Server : Type 0 where
  pub db : Db
  pub hub : Hub
  pub sessions : List Session
  pub outbox : List Sent
  pub left_voice : List (ℕ × ℕ)
  pub closed_voice : List ℕ
  pub relayed : List Relayed
  pub removed_files : List AttachmentRow
  pub faults : List Bool

-- The next call fails, or not; and what stands after it.
next_fault : List Bool → Bool × List Bool
next_fault [] = (false, [])
next_fault (b ∷ rest) = (b, rest)

abbrev pub Handler : Type 0 → Type 0
Handler A = Server → Result A × Server

after_fault : Bool × List Bool → Server → Bool × Server
after_fault (fails, rest) s = (fails, record s { faults = rest })

read_rows {ℓ} : {A : Type ℓ} → (Db → Outcome A) → Bool × Server → Outcome A × Server
read_rows f (true, s) = (broken, s)
read_rows f (false, s) = (f s.db, s)

-- A call of the store that reads.
unfoldable pub query {ℓ} : {A : Type ℓ} → (Db → Outcome A) → Server → Outcome A × Server
unfolding next_fault after_fault read_rows
query f s = read_rows f (after_fault (next_fault s.faults) s)

apply_write {ℓ} : {A : Type ℓ} → Outcome (Db × A) → Server → Outcome A × Server
apply_write (done (db, a)) s = (done a, record s { db = db })
apply_write missing s = (missing, s)
apply_write broken s = (broken, s)

write_rows {ℓ} : {A : Type ℓ} → (Db → Outcome (Db × A)) → Bool × Server → Outcome A × Server
write_rows f (true, s) = (broken, s)
write_rows f (false, s) = apply_write (f s.db) s

-- A call of the store that writes. One that fails leaves the rows alone.
unfoldable pub write {ℓ} : {A : Type ℓ} → (Db → Outcome (Db × A)) → Server → Outcome A × Server
unfolding next_fault after_fault write_rows apply_write
write f s = write_rows f (after_fault (next_fault s.faults) s)

-- A statement that returns nothing.
abbrev pub no_value : Outcome Db → Outcome (Db × Unit {0})
no_value (done db) = done (db, tt)
no_value missing = missing
no_value broken = broken

-- A frame for the sessions that want it, in their order: `BroadcastTo`.
unfoldable pub send_to : (Session → Bool) → Event → List Session → List Sent
send_to want e [] = []
send_to want e (s ∷ rest) =
    let later = send_to want e rest in
    if want s then record { to = s.id; event = e } ∷ later else later

unfoldable pub broadcast_to : Event → (Session → Bool) → Server → Server
broadcast_to e want s = record s { outbox = s.outbox ++ send_to want e s.sessions }

-- `Broadcast`.
unfoldable pub broadcast : Event → Server → Server
unfolding broadcast_to
broadcast e = broadcast_to e (λ _. true)

reloaded : Outcome (List Role) × Server → Outcome (Unit {0}) × Server
reloaded (done rows, s) = (done tt, record s { hub = reload_roles s.hub rows })
reloaded (missing, s) = (missing, s)
reloaded (broken, s) = (broken, s)

-- `ReloadRoles`.
unfoldable pub reload : Server → Outcome (Unit {0}) × Server
unfolding query reloaded
reload s = reloaded (query (λ db. done (all_roles db)) s)

tree_reloaded : Outcome (List Channel) × Server → Outcome (Unit {0}) × Server
tree_reloaded (done rows, s) = (done tt, record s { hub = reload_channels s.hub rows })
tree_reloaded (missing, s) = (missing, s)
tree_reloaded (broken, s) = (broken, s)

-- `ReloadChannels`, with its read.
unfoldable pub reload_tree : Server → Outcome (Unit {0}) × Server
unfolding query tree_reloaded
reload_tree s = tree_reloaded (query (λ db. done (all_channels db)) s)

recorded : AuditEntry → Outcome (Unit {0}) × Server → Server
unfolding broadcast_to
recorded e (done _, s) = broadcast_to (audit_entry e) (λ viewer. has viewer.base view_audit_log) s
recorded e (missing, s) = s
recorded e (broken, s) = s

-- `Hub.audit`: the actor is filled in, and a failed write is dropped.
unfoldable pub audit : Session → AuditEntry → Server → Server
unfolding recorded write
audit actor e s =
    let entry = record e { actor_id = some actor.user.id; actor_name = actor.user.nickname } in
    recorded entry (write (λ db. done (record_audit db entry, tt)) s)

-- The actor of an entry that the server makes of itself.
the_server : Text
the_server = b't' ∷ b'h' ∷ b'e' ∷ 32 ∷ b's' ∷ b'e' ∷ b'r' ∷ b'v' ∷ b'e' ∷ b'r' ∷ []

-- `Hub.audit` without an actor.
unfoldable pub audit_unattended : AuditEntry → Server → Server
unfolding recorded write the_server
audit_unattended e s =
    let entry = record e { actor_id = none; actor_name = the_server } in
    recorded entry (write (λ db. done (record_audit db entry, tt)) s)
