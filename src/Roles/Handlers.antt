-- ===== src/Roles/Handlers.antt =====
-- The handlers of internal/gateway/handlers_role.go as they run: the checks, the store, the caches,
-- the frames and the audit log, in the order of the source.
use aural_server.Base.{
  ℕ, String, Bool, true, false, Option, none, some, List, [], ◌∷◌, ◌++◌, ◌==◌, ltb, if◌then◌else◌,
}
use aural_server.Text.{Text, format_uint, text_eq}
use aural_server.Permissions.{to_text}
use aural_server.Hub.{Hub, Role, User, role, rank_of, effective_role_ids}
use aural_server.Protocol.{ok, forbidden, bad_request, require, require_some}
use aural_server.Store
use aural_server.Store.{
  AuditEntry, AuditChange, Outcome, done, missing, broken, user_by_id, role_ids_for_user,
}
use aural_server.Server.{
  Server, Session, Handler, role_created, role_updated, role_deleted, member_updated, ready, query,
  write, no_value, broadcast, reload, audit,
}
use aural_server.Server.Exec.{◌>>=◌, ◌>>◌, pure, check, act, attempt}
use aural_server.Server.Sync.{resync_all, evict_unreachable, session_for_user, refresh_permissions}
use aural_server.Roles.{
  RoleCreateRequest, RoleUpdateRequest, check_create, check_update, check_delete, check_reorder,
  check_membership,
}

-- `auditTarget`: an id of 0 names nothing.
unfoldable pub audit_target : String → String → ℕ → Text → AuditEntry
audit_target action kind id name = record {
  actor_id = none;
  actor_name = [];
  action = action;
  target_type = kind;
  target_id = if id == 0 then none else some id;
  target_name = name;
  reason = [];
  changes = [];
}

-- `changed`.
unfoldable pub changed : List AuditChange → String → Text → Text → List AuditChange
unfolding text_eq
changed list key before after =
    if text_eq before after
    then list
    else list ++ record { key = key; before = before; after = after } ∷ []

-- `handleRoleCreate`.
unfoldable pub handle_role_create : Session → Option RoleCreateRequest → Handler Role
handle_role_create actor raw = do
  r ← check (λ s. check_create s.hub actor raw)
  created ←
      attempt "" "the server failed to create the role"
        (write (λ db. done (Store.create_role db r)))
  attempt "" "the server failed to reload roles" reload
  act (broadcast (role_created created))
  act (audit actor (audit_target "role.create" "role" created.id created.name))
  pure created

role_changes : Role → Role → List AuditChange
role_changes before after =
    changed
      (changed (changed (changed [] "name" before.name after.name) "color" before.color after.color)
        "permissions" (to_text before.permissions) (to_text after.permissions))
      "position" (format_uint before.position) (format_uint after.position)

when : Bool → (Server → Server) → Server → Server
when true f s = f s
when false f s = s

-- The resync after a change of what people may do.
resettle : Server → Server
resettle s = evict_unreachable (resync_all s)

-- `handleRoleUpdate`.
unfoldable pub handle_role_update : Session → Option RoleUpdateRequest → Handler Role
unfolding role_changes when resettle
handle_role_update actor raw = do
  checked ← check (λ s. check_update s.hub actor raw)
  let before = checked.0
  let after = checked.1.after
  attempt "no such role" "the server failed to update the role"
      (write (λ db. no_value (Store.update_role db after)))
  attempt "" "the server failed to reload roles" reload
  act (broadcast (role_updated after))
  act (
      audit actor (record (audit_target "role.update" "role" after.id after.name) {
        changes = role_changes before after;
      }))
  act (when checked.1.permissions_changed resettle)
  pure after

-- `handleRoleDelete`.
unfoldable pub handle_role_delete : Session → Option ℕ → Handler ℕ
unfolding resettle
handle_role_delete actor raw = do
  r ← check (λ s. check_delete s.hub actor raw)
  attempt "no such role" "the server failed to delete the role"
      (write (λ db. no_value (Store.delete_role db r.id)))
  attempt "" "the server failed to reload roles" reload
  act (broadcast (role_deleted r.id))
  act resettle
  act (audit actor (audit_target "role.delete" "role" r.id r.name))
  pure r.id

-- `rolesInOrder`, which also lists the frames of a reorder.
roles_in_order : Hub → List ℕ → List Role
roles_in_order h [] = []
roles_in_order h (id ∷ rest) = elim (role h id) [
  | none ↦ roles_in_order h rest
  | some r ↦ r ∷ roles_in_order h rest
]

announce_each : List Role → Server → Server
announce_each [] s = s
announce_each (r ∷ rest) s = announce_each rest (broadcast (role_updated r) s)

-- `orderOf`.
order_of : List Role → Text
order_of [] = []
order_of (r ∷ []) = r.name
order_of (r ∷ s ∷ rest) = r.name ++ (32 ∷ b'<' ∷ 32 ∷ order_of (s ∷ rest))

-- `handleRoleReorder`.
unfoldable pub handle_role_reorder : Session → Option (List ℕ) → Handler (List Role)
unfolding resettle roles_in_order announce_each order_of
handle_role_reorder actor raw = do
  checked ← check (λ s. check_reorder s.hub actor raw)
  let ids = checked.1
  attempt "no such role" "the server failed to reorder the roles"
      (write (λ db. no_value (Store.reorder_roles db ids)))
  attempt "" "the server failed to reload roles" reload
  views ← check (λ s. ok (roles_in_order s.hub ids))
  act (announce_each views)
  act (
      audit actor (record (audit_target "role.update" "role" 0 []) {
        changes = changed [] "order" (order_of checked.0) (order_of views);
      }))
  act resettle
  pure views

-- The requests of `handlers_role.go` that work on the roles themselves, as `dispatch` tells them
-- apart; an absent payload is one that does not decode.
pub data RoleRequest : Type 0 where
  role_create : Option RoleCreateRequest → RoleRequest
  role_update : Option RoleUpdateRequest → RoleRequest
  role_delete : Option ℕ → RoleRequest
  role_reorder : Option (List ℕ) → RoleRequest

-- The reply to each, without its payload.
unfoldable pub handle_role_request : Session → RoleRequest → Handler (Unit {0})
handle_role_request actor (role_create raw) = handle_role_create actor raw >>= λ _. pure tt
handle_role_request actor (role_update raw) = handle_role_update actor raw >>= λ _. pure tt
handle_role_request actor (role_delete raw) = handle_role_delete actor raw >>= λ _. pure tt
handle_role_request actor (role_reorder raw) = handle_role_reorder actor raw >>= λ _. pure tt

-- The roles of somebody who is not connected: two reads, each of which may fail.
offline_roles : ℕ → Handler (List ℕ)
offline_roles target = do
  user ←
      attempt "no such user" "the server failed to load that user"
        (query (λ db. user_by_id db target))
  explicit ←
      attempt "" "the server failed to load that user"
        (query (λ db. done (role_ids_for_user db target)))
  check (λ s. ok (effective_role_ids s.hub user explicit))

target_roles : ℕ → Option Session → Handler (List ℕ)
unfolding offline_roles
target_roles target (some session) = pure session.role_ids
target_roles target none = offline_roles target

-- `requireOutranksUser`. Anybody may act on themselves.
unfoldable pub require_outranks_user : Session → ℕ → Handler (Unit {0})
unfolding target_roles
require_outranks_user actor target s =
    if actor.user.id == target
    then (ok tt, s)
    else (do
      ids ← target_roles target (session_for_user s target)
      check λ now.
          require (ltb (rank_of now.hub target ids) (rank_of now.hub actor.user.id actor.role_ids))
            forbidden "that user stands at or above you")
        s

-- `nicknameOf`: from the live session, else from the row, else nothing.
nickname : Outcome User → Text
nickname (done u) = u.nickname
nickname missing = []
nickname broken = []

read_nickname : ℕ → Option Session → Server → Text × Server
unfolding nickname
read_nickname target (some session) s = (session.user.nickname, s)
read_nickname target none s =
    let (found, s') = query (λ db. user_by_id db target) s in (nickname found, s')

nickname_of : ℕ → Handler Text
unfolding read_nickname
nickname_of target s =
    let (name, s') = read_nickname target (session_for_user s target) s in (ok name, s')

-- `RoleMembershipRequest`.
pub record RoleMembershipRequest : Type 0 where
  pub user_id : ℕ
  pub role_id : ℕ

assign : Bool → ℕ → ℕ → Server → Outcome (Unit {0}) × Server
assign true user_id role_id = write (λ db. no_value (Store.assign_role db user_id role_id))
assign false user_id role_id = write (λ db. no_value (Store.unassign_role db user_id role_id))

-- The end of `changeRoleMembership` for somebody who is away: the row and its roles are read for
-- the announcement.
announce_offline : ℕ → Handler (Unit {0})
announce_offline target = do
  user ←
      attempt "no such user" "the server failed to load that user"
        (query (λ db. user_by_id db target))
  attempt "" "the server failed to load that user"
      (query (λ db. done (role_ids_for_user db user.id)))
  act (broadcast (member_updated user.id))

as_outcome : Bool × Server → Outcome (Unit {0}) × Server
as_outcome (true, s) = (done tt, s)
as_outcome (false, s) = (broken, s)

send : Session → Server → Server
send session s = record s { outbox = s.outbox ++ record { to = session.id; event = ready } ∷ [] }

-- And for somebody who is here: their session takes the new roles at once.
announce_online : Session → Handler (Unit {0})
unfolding as_outcome send
announce_online target = do
  attempt "" "the server failed to refresh permissions"
      (λ s. as_outcome (refresh_permissions target s))
  act (broadcast (member_updated target.user.id))
  attempt "" "the server failed to build the state snapshot" (query (λ db. done tt))
  act (send target)
  act evict_unreachable

announce : ℕ → Option Session → Handler (Unit {0})
unfolding announce_offline announce_online
announce target none = announce_offline target
announce target (some session) = announce_online session

announce_member : ℕ → Handler (Unit {0})
unfolding announce
announce_member target s = announce target (session_for_user s target) s

-- `changeRoleMembership`: `handleRoleAssign` grants, `handleRoleUnassign` revokes.
unfoldable pub change_role_membership :
    Session → Option RoleMembershipRequest → Bool → Handler (Unit {0})
unfolding assign announce_member nickname_of
change_role_membership actor raw grant = do
  req ← check λ _. require_some raw bad_request "payload does not match the shape this op expects"
  r ← check (λ s. check_membership s.hub actor req.role_id)
  require_outranks_user actor req.user_id
  attempt "the server failed to change role membership"
      "the server failed to change role membership" (assign grant req.user_id req.role_id)
  name ← nickname_of req.user_id
  act (
      audit actor
        (record (audit_target (if grant then "role.assign" else "role.unassign") "user" req.user_id
          name) { changes = record { key = "role"; before = []; after = r.name } ∷ [] }))
  announce_member req.user_id
