-- ===== src/Roles/Atomic.antt =====
-- internal/gateway/handlers_role.go: what the role handlers leave in the database.
use aural_server.Base.{ℕ, ◌≡◌, ◌≢◌, Option, List}
use aural_server.Protocol.{Failure, err, internal}
use aural_server.Server.{Server, Session}
use aural_server.Server.Keeps.{Atomic, atomic_rules, Atomic-then}
use aural_server.Roles.{RoleCreateRequest, RoleUpdateRequest}
use aural_server.Roles.Handlers.{
  handle_role_create, handle_role_update, handle_role_delete, handle_role_reorder, RoleRequest,
  role_create, role_update, role_delete, role_reorder, handle_role_request,
}

create-Atomic :
    (actor : Session) (raw : Option RoleCreateRequest) → Atomic (handle_role_create actor raw)
unfolding handle_role_create
create-Atomic actor raw = search atomic_rules depth 12

update-Atomic :
    (actor : Session) (raw : Option RoleUpdateRequest) → Atomic (handle_role_update actor raw)
unfolding handle_role_update
update-Atomic actor raw = search atomic_rules depth 14

delete-Atomic : (actor : Session) (raw : Option ℕ) → Atomic (handle_role_delete actor raw)
unfolding handle_role_delete
delete-Atomic actor raw = search atomic_rules depth 14

reorder-Atomic : (actor : Session) (raw : Option (List ℕ)) → Atomic (handle_role_reorder actor raw)
unfolding handle_role_reorder
reorder-Atomic actor raw = search atomic_rules depth 14

request-Atomic : (actor : Session) (req : RoleRequest) → Atomic (handle_role_request actor req)
unfolding handle_role_request
request-Atomic actor (role_create raw) = Atomic-then _ _ (create-Atomic actor raw)
request-Atomic actor (role_update raw) = Atomic-then _ _ (update-Atomic actor raw)
request-Atomic actor (role_delete raw) = Atomic-then _ _ (delete-Atomic actor raw)
request-Atomic actor (role_reorder raw) = Atomic-then _ _ (reorder-Atomic actor raw)

-- Creating, editing, deleting and restacking roles: a request that is refused for any reason but an
-- internal error leaves the database exactly as it was.
pub handle_role_request_refused :
    (actor : Session) (req : RoleRequest) (s : Server) (e : Failure)
    → (handle_role_request actor req s).0 ≡ err e
    → e.code ≢ internal
    → (handle_role_request actor req s).1.db ≡ s.db
handle_role_request_refused actor req = (request-Atomic actor req).at
