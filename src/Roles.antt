-- ===== src/Roles.antt =====
-- internal/gateway/handlers_role.go: who may create, edit, restack, delete and hand out roles.
-- Here are the checks of each handler, up to what it hands to the store; `Roles.Handlers` runs them.
pub mod Guards
pub mod Order
pub mod Handlers
pub mod Atomic
mod Tests
use aural_server.Base.{
  ℕ, zero, suc, ◌+◌, ◌-◌, bit_xor, String, Bool, true, false, not, ◌&&◌, ◌||◌, Option, none, some,
  List, [], ◌∷◌, ◌++◌, ltb, leb, ◌==◌, if◌then◌else◌, length, contains, keep,
}
use aural_server.Base.Int.{ℤ, pos, negsuc, ltb_ℤ}
use aural_server.Text.{Text}
use aural_server.Permissions.{Permission, has, parse, manage_roles}
use aural_server.Hub.{
  Hub, Role, Managed, unmanaged, everyone, registered, admin, role, rank_of, is_owner, sorted_roles,
  is_unmanaged, auto_assigned,
}
use aural_server.Protocol.{
  Result, ok, err, refuse, bad_request, forbidden, not_found, ◌>>=◌, ◌>>◌, require, require_some,
}
use aural_server.Validate.{validate_role_name, validate_color}
use aural_server.Server.{Session}

-- `RoleCreateRequest`.
pub record RoleCreateRequest : Type 0 where
  pub name : Text
  pub color : Text
  pub permissions : Text
  pub hoist : Bool

-- `RoleUpdateRequest`; an absent field is `none`.
pub record RoleUpdateRequest : Type 0 where
  pub role_id : ℕ
  pub name : Option Text
  pub color : Option Text
  pub permissions : Option Text
  pub position : Option ℤ
  pub hoist : Option Bool

is_everyone : Managed → Bool
is_everyone m = elim m [ everyone ↦ true | _ ↦ false ]

is_admin : Managed → Bool
is_admin m = elim m [ admin ↦ true | _ ↦ false ]

highest_unmanaged : List Role → ℕ → ℕ
unfolding is_admin
highest_unmanaged [] n = n
highest_unmanaged (r ∷ rest) n =
    highest_unmanaged rest
      (if is_admin r.managed then n else if ltb n r.position then r.position else n)

-- `nextRolePosition`.
unfoldable pub next_role_position : Hub → ℕ
unfolding highest_unmanaged
next_role_position h = highest_unmanaged (sorted_roles h) 0 + 1

highest : List Role → ℕ → ℕ
highest [] n = n
highest (r ∷ rest) n = highest rest (if ltb n r.position then r.position else n)

-- `topRolePosition`.
unfoldable pub top_role_position : Hub → ℕ
unfolding highest
top_role_position h = highest (sorted_roles h) 0

-- A request whose payload does not decode is refused before anything is read.
abbrev decoded {ℓ} : {A : Type ℓ} → Option A → Result A
decoded raw = require_some raw bad_request "payload does not match the shape this op expects"

may_manage : Session → Result (Unit {0})
may_manage actor =
    require (has actor.base manage_roles) forbidden "you are not allowed to manage roles"

-- `handleRoleCreate` up to `CreateRole`: the role to insert.
unfoldable pub check_create : Hub → Session → Option RoleCreateRequest → Result Role
unfolding may_manage
check_create h actor raw = do
  req ← decoded raw
  may_manage actor
  name ← validate_role_name req.name
  color ← validate_color req.color
  perms ←
      require_some (parse req.permissions) bad_request
        "permissions must be a decimal bitmask string"
  require (has actor.base perms) forbidden "a role cannot be given permissions you do not hold"
  let ceiling = rank_of h actor.user.id actor.role_ids
  let next = next_role_position h
  let position = if leb ceiling next then ceiling - 1 else next
  require (leb 1 position) forbidden "your own role is too low to create a role below it"
  ok (record {
    id = 0;
    name = name;
    color = color;
    permissions = perms;
    position = position;
    hoist = req.hoist;
    managed = unmanaged;
    created_at = 0;
  })

patch_name : Option Text → Role → Result Role
unfolding is_everyone
patch_name none r = ok r
patch_name (some raw) r = do
  require (not (is_everyone r.managed)) forbidden "the everyone role cannot be renamed"
  name ← validate_role_name raw
  ok (record r { name = name })

patch_color : Option Text → Role → Result Role
patch_color none r = ok r
patch_color (some raw) r = do color ← validate_color raw; ok (record r { color = color })

patch_hoist : Option Bool → Role → Role
patch_hoist none r = r
patch_hoist (some hoist) r = record r { hoist = hoist }

-- The patched role, and whether its permissions or its place changed.
pub record Patch : Type 0 where
  pub after : Role
  pub permissions_changed : Bool

patch_permissions : Permission → Option Text → Role → Result Patch
patch_permissions base none r = ok (record { after = r; permissions_changed = false })
patch_permissions base (some raw) r = do
  next ← require_some (parse raw) bad_request "permissions must be a decimal bitmask string"
  require (has base (bit_xor r.permissions next)) forbidden
      "that change touches a permission you do not hold"
  ok (record {
    after = record r { permissions = next };
    permissions_changed = not (r.permissions == next);
  })

place_at : Hub → ℕ → ℕ → Patch → Result Patch
place_at h ceiling position p = do
  require (leb position (top_role_position h)) bad_request
      "position must not be above the top of the role stack"
  require (ltb position ceiling) forbidden "you cannot move a role to or above your own"
  ok (record { after = record p.after { position = position }; permissions_changed = true })

-- A position below 1 is refused, negative or zero.
from_one : Hub → ℕ → ℤ → Patch → Result Patch
unfolding place_at
from_one h ceiling (negsuc n) p = refuse bad_request "position must be at least 1"
from_one h ceiling (pos zero) p = refuse bad_request "position must be at least 1"
from_one h ceiling (pos (suc n)) p = place_at h ceiling (suc n) p

patch_position : Hub → ℕ → Option ℤ → Patch → Result Patch
unfolding is_everyone from_one
patch_position h ceiling none p = ok p
patch_position h ceiling (some position) p = do
  require (not (is_everyone p.after.managed)) forbidden "the everyone role is always at the bottom"
  from_one h ceiling position p

-- The patches of `handleRoleUpdate`, in their order.
apply_patches : Hub → Permission → ℕ → RoleUpdateRequest → Role → Result Patch
unfolding patch_name patch_color patch_hoist patch_permissions patch_position
apply_patches h base ceiling req before = do
  named ← patch_name req.name before
  coloured ← patch_color req.color named
  patched ← patch_permissions base req.permissions (patch_hoist req.hoist coloured)
  patch_position h ceiling req.position patched

-- `handleRoleUpdate` up to `UpdateRole`: the role as it stood, and the patch.
unfoldable pub check_update : Hub → Session → Option RoleUpdateRequest → Result (Role × Patch)
unfolding may_manage apply_patches
check_update h actor raw = do
  req ← decoded raw
  may_manage actor
  before ← require_some (role h req.role_id) not_found "no such role"
  let ceiling = rank_of h actor.user.id actor.role_ids
  require (ltb before.position ceiling) forbidden "that role sits at or above your own"
  patch ← apply_patches h actor.base ceiling req before
  ok (before, patch)

-- `handleRoleDelete` up to `DeleteRole`: the role to remove.
unfoldable pub check_delete : Hub → Session → Option ℕ → Result Role
unfolding may_manage
check_delete h actor raw = do
  role_id ← decoded raw
  may_manage actor
  r ← require_some (role h role_id) not_found "no such role"
  require (is_unmanaged r.managed) forbidden "built-in roles cannot be deleted"
  require (ltb r.position (rank_of h actor.user.id actor.role_ids)) forbidden
      "that role sits at or above your own"
  ok r

-- The stack that a reorder is about: everything but the everyone role.
unfoldable pub current_stack : Hub → List Role
unfolding is_everyone keep
current_stack h = keep (λ r. not (is_everyone r.managed)) (sorted_roles h)

-- Where a role stands in a stack: `wasAt`.
pub was_at : List Role → ℕ → Option ℕ
was_at [] id = none
was_at (r ∷ rest) id =
    if r.id == id then some 0 else elim (was_at rest id) [ none ↦ none | some i ↦ some (suc i) ]

is_some : Option ℕ → Bool
is_some none = false
is_some (some n) = true

-- Each id names a role of the stack, and none that was named before.
pub names_each : List Role → List ℕ → List ℕ → Bool
unfolding is_some
names_each stack seen [] = true
names_each stack seen (id ∷ rest) =
    is_some (was_at stack id) && not (contains seen id) && names_each stack (id ∷ seen) rest

-- The loop that finds where the authority of a rank stops, as an index.
pub ceiling_from : ℕ → List Role → ℕ → ℕ → ℕ
ceiling_from rank [] i found = found
ceiling_from rank (r ∷ rest) i found =
    ceiling_from rank rest (suc i) (if ltb r.position rank then suc i else found)

-- The index below which the caller may move roles.
unfoldable pub reorder_ceiling : Hub → Session → List Role → ℕ
unfolding ceiling_from
reorder_ceiling h actor stack =
    if is_owner h actor.user.id
    then length stack
    else ceiling_from (rank_of h actor.user.id actor.role_ids) stack 0 0

-- One role that stays, or moves below the ceiling.
stays_below : ℕ → ℕ → Option ℕ → Bool
stays_below ceiling to none = false
stays_below ceiling to (some from) = from == to || ltb from ceiling && ltb to ceiling

pub may_restack : ℕ → List Role → ℕ → List ℕ → Bool
unfolding stays_below
may_restack ceiling stack to [] = true
may_restack ceiling stack to (id ∷ rest) =
    stays_below ceiling to (was_at stack id) && may_restack ceiling stack (suc to) rest

-- `handleRoleReorder` up to `ReorderRoles`: the stack as it stood, and the order asked for.
unfoldable pub check_reorder : Hub → Session → Option (List ℕ) → Result (List Role × List ℕ)
unfolding may_manage current_stack names_each may_restack reorder_ceiling
check_reorder h actor raw = do
  ids ← decoded raw
  may_manage actor
  let stack = current_stack h
  require (length ids == length stack) bad_request "a reorder must name every role exactly once"
  require (names_each stack [] ids) bad_request "a reorder must name every role exactly once"
  require (may_restack (reorder_ceiling h actor stack) stack 0 ids) forbidden
      "you cannot move a role to or above your own"
  ok (stack, ids)

-- `changeRoleMembership` up to `requireOutranksUser`: the role to hand out or take back.
unfoldable pub check_membership : Hub → Session → ℕ → Result Role
unfolding may_manage
check_membership h actor role_id = do
  may_manage actor
  r ← require_some (role h role_id) not_found "no such role"
  require (not (auto_assigned r)) forbidden
      "that role is granted automatically and cannot be assigned by hand"
  require (ltb r.position (rank_of h actor.user.id actor.role_ids)) forbidden
      "that role sits at or above your own"
  ok r
