-- ===== src/Roles/Guards.antt =====
-- internal/gateway/handlers_role.go: the checks on creating, editing, deleting and handing out roles.
use aural_server.Base.{
  ℕ, zero, suc, List, ◌≤◌, ◌<◌, ◌≡◌, ap, Bool, true, false, ◌⊎◌, inl, inr, Option, some, none,
  arith, bit_xor,
}
use aural_server.Base.Bits.{test_bit, test_bit-xor}
use aural_server.Base.Int.{ℤ, pos, negsuc}
use aural_server.Permissions.{Permission, has, manage_roles}
use aural_server.Permissions.Has.{has_iff}
use aural_server.Hub.{Hub, Role, unmanaged, rank_of, is_unmanaged, auto_assigned}
use aural_server.Protocol.{ok, >>=-eq-ok, ◌>>=◌}
use aural_server.Server.{Session}
use aural_server.Roles.{
  RoleCreateRequest, RoleUpdateRequest, Patch, check_create, check_update, check_delete,
  check_membership, may_manage, patch_name, patch_color, patch_hoist, patch_permissions,
  apply_patches, patch_position, from_one, place_at, top_role_position, is_everyone,
}

-- A role that its creator may have made: unmanaged, strictly below them, and with no permission
-- that they do not hold.
pub record IsWithin (h : Hub) (actor : Session) (r : Role) : Type 0 where
  pub manages : has actor.base manage_roles ≡ true
  pub held : has actor.base r.permissions ≡ true
  pub placed : 1 ≤ r.position
  pub below : r.position < rank_of h actor.user.id actor.role_ids
  pub plain : r.managed ≡ unmanaged

-- A role that a create request gets past the checks is unmanaged, stands at least at place 1 and
-- strictly below its creator, and has only permissions that satisfy the creator's own mask; the
-- creator manages roles.
pub check_create-IsWithin :
    (h : Hub) (actor : Session) (raw : Option RoleCreateRequest) (r : Role)
    → check_create h actor raw ≡ ok r
    → IsWithin h actor r
unfolding check_create may_manage
check_create-IsWithin h actor raw r e = ground arith

-- A role that may be deleted: one that is not built in, below the caller.
pub record IsRemovable (h : Hub) (actor : Session) (r : Role) : Type 0 where
  pub manages : has actor.base manage_roles ≡ true
  pub below : r.position < rank_of h actor.user.id actor.role_ids
  pub plain : is_unmanaged r.managed ≡ true

-- A role that a delete request gets past the checks is unmanaged and strictly below its caller, who
-- manages roles.
pub check_delete-IsRemovable :
    (h : Hub) (actor : Session) (raw : Option ℕ) (r : Role)
    → check_delete h actor raw ≡ ok r
    → IsRemovable h actor r
unfolding check_delete may_manage
check_delete-IsRemovable h actor raw r e = ground arith

-- A role that may be handed out: not one that follows from what a user is, and below the caller.
pub record IsAssignable (h : Hub) (actor : Session) (r : Role) : Type 0 where
  pub manages : has actor.base manage_roles ≡ true
  pub below : r.position < rank_of h actor.user.id actor.role_ids
  pub explicit : auto_assigned r ≡ false

-- A role that gets past the checks of a membership change is not granted automatically and strictly
-- below its caller, who manages roles.
pub check_membership-IsAssignable :
    (h : Hub) (actor : Session) (role_id : ℕ) (r : Role)
    → check_membership h actor role_id ≡ ok r
    → IsAssignable h actor r
unfolding check_membership may_manage
check_membership-IsAssignable h actor role_id r e = ground arith

-- What the patches of a name, a colour and the hoist flag leave alone.
record KeepsAuthority (r r' : Role) : Type 0 where
  same_id : r'.id ≡ r.id
  same_managed : r'.managed ≡ r.managed
  same_permissions : r'.permissions ≡ r.permissions
  same_position : r'.position ≡ r.position

patch_name-KeepsAuthority :
    (o : Option (List ℕ)) (r r' : Role) → patch_name o r ≡ ok r' → KeepsAuthority r r'
unfolding patch_name
patch_name-KeepsAuthority none r r' e = ground arith
patch_name-KeepsAuthority (some raw) r r' e = ground arith

patch_color-KeepsAuthority :
    (o : Option (List ℕ)) (r r' : Role) → patch_color o r ≡ ok r' → KeepsAuthority r r'
unfolding patch_color
patch_color-KeepsAuthority none r r' e = ground arith
patch_color-KeepsAuthority (some raw) r r' e = ground arith

patch_hoist-KeepsAuthority : (o : Option Bool) (r : Role) → KeepsAuthority r (patch_hoist o r)
unfolding patch_hoist
patch_hoist-KeepsAuthority none r = ground arith
patch_hoist-KeepsAuthority (some b) r = ground arith

KeepsAuthority-trans : {a b c : Role} → KeepsAuthority a b → KeepsAuthority b c → KeepsAuthority a c
KeepsAuthority-trans h k = ground arith

-- The flips of a permission edit are the caller's to make.
record IsRemask (base : Permission) (r : Role) (p : Patch) : Type 0 where
  same_id : p.after.id ≡ r.id
  same_managed : p.after.managed ≡ r.managed
  same_position : p.after.position ≡ r.position
  flips :
      (p.after.permissions ≡ r.permissions)
      ⊎ (has base (bit_xor r.permissions p.after.permissions) ≡ true)
  quiet : p.permissions_changed ≡ false → p.after.permissions ≡ r.permissions

patch_permissions-IsRemask :
    (base : Permission) (o : Option (List ℕ)) (r : Role) (p : Patch)
    → patch_permissions base o r ≡ ok p
    → IsRemask base r p
unfolding patch_permissions
patch_permissions-IsRemask base none r p e = ground arith
patch_permissions-IsRemask base (some raw) r p e = ground arith

-- A role stays where it is, or goes to a place of the stack below the caller.
record IsMove (h : Hub) (ceiling : ℕ) (p q : Patch) : Type 0 where
  same_id : q.after.id ≡ p.after.id
  same_managed : q.after.managed ≡ p.after.managed
  same_permissions : q.after.permissions ≡ p.after.permissions
  place :
      ((q.after.position ≡ p.after.position) × (q.permissions_changed ≡ p.permissions_changed))
      ⊎ ((1 ≤ q.after.position)
          × (q.after.position ≤ top_role_position h)
          × (q.after.position < ceiling)
          × (q.permissions_changed ≡ true)
          × (is_everyone p.after.managed ≡ false))

patch_position-IsMove :
    (h : Hub) (ceiling : ℕ) (o : Option ℤ) (p q : Patch)
    → patch_position h ceiling o p ≡ ok q
    → IsMove h ceiling p q
unfolding patch_position from_one place_at
patch_position-IsMove h ceiling none p q e = ground arith
patch_position-IsMove h ceiling (some (negsuc n)) p q e = ground arith
patch_position-IsMove h ceiling (some (pos zero)) p q e = ground arith
patch_position-IsMove h ceiling (some (pos (suc n))) p q e = ground arith

-- An edit that the caller may make: of a role below them, which stays below them, is still the same
-- role of the same kind, and whose flipped permissions they hold; and when nothing is reported as
-- changed, neither its permissions nor its place did.
pub record IsEdit (h : Hub) (actor : Session) (before : Role) (p : Patch) : Type 0 where
  pub manages : has actor.base manage_roles ≡ true
  pub below : before.position < rank_of h actor.user.id actor.role_ids
  pub still_below : p.after.position < rank_of h actor.user.id actor.role_ids
  pub same_id : p.after.id ≡ before.id
  pub same_managed : p.after.managed ≡ before.managed
  pub flips :
      (p.after.permissions ≡ before.permissions)
      ⊎ (has actor.base (bit_xor before.permissions p.after.permissions) ≡ true)
  pub quiet :
      p.permissions_changed ≡ false
      → (p.after.permissions ≡ before.permissions) × (p.after.position ≡ before.position)

IsEdit-of_parts :
    (h : Hub) (actor : Session) (before r : Role) (p q : Patch)
    → has actor.base manage_roles ≡ true
    → before.position < rank_of h actor.user.id actor.role_ids
    → KeepsAuthority before r
    → IsRemask actor.base r p
    → IsMove h (rank_of h actor.user.id actor.role_ids) p q
    → IsEdit h actor before q
IsEdit-of_parts h actor before r p q m b k f t = record {
  manages = m;
  below = b;
  still_below = ground arith;
  same_id = ground arith;
  same_managed = ground arith;
  flips = ground arith;
  quiet = λ q'. (ground (arith, f.quiet), ground (arith, f.quiet));
}

module _ (h : Hub) (actor : Session) (req : RoleUpdateRequest) (before : Role) where
  abbrev ceiling : ℕ
  ceiling = rank_of h actor.user.id actor.role_ids

  -- What a successful row of patches went through.
  apply_patches-parts :
      (q : Patch)
      → apply_patches h actor.base ceiling req before ≡ ok q
      → (r : Role) × (p : Patch) × KeepsAuthority before r
        × IsRemask actor.base r p
        × IsMove h ceiling p q
  unfolding apply_patches
  apply_patches-parts q e =
      let (named, n, e1) =
        >>=-eq-ok (patch_name req.name before)
          (λ named. patch_color req.color named >>= λ coloured.
            patch_permissions actor.base req.permissions (patch_hoist req.hoist coloured)
            >>= patch_position h ceiling req.position)
          e in
      let (coloured, c, e2) =
        >>=-eq-ok (patch_color req.color named)
          (λ coloured.
            patch_permissions actor.base req.permissions (patch_hoist req.hoist coloured)
            >>= patch_position h ceiling req.position)
          e1 in
      let (patched, f, e3) =
        >>=-eq-ok (patch_permissions actor.base req.permissions (patch_hoist req.hoist coloured))
          (patch_position h ceiling req.position) e2 in
      (
        patch_hoist req.hoist coloured,
        patched,
        KeepsAuthority-trans (patch_name-KeepsAuthority req.name before named n) (
            KeepsAuthority-trans (patch_color-KeepsAuthority req.color named coloured c)
              (patch_hoist-KeepsAuthority req.hoist coloured)),
        patch_permissions-IsRemask actor.base req.permissions _ patched f,
        patch_position-IsMove h ceiling req.position patched q e3,
      )

  apply_patches-IsEdit :
      (q : Patch)
      → has actor.base manage_roles ≡ true
      → before.position < ceiling
      → apply_patches h actor.base ceiling req before ≡ ok q
      → IsEdit h actor before q
  apply_patches-IsEdit q m b e =
      let (r, p, k, f, t) = apply_patches-parts q e in
      IsEdit-of_parts h actor before r p q m b k f t

-- An edit that gets past the checks is made by somebody who manages roles, on a role below their
-- rank that stays below it; the id and the kind of the role stay, the permissions that change pass
-- the caller's own mask, and one that reports no change of authority changed neither the
-- permissions nor the place.
pub check_update-IsEdit :
    (h : Hub) (actor : Session) (raw : Option RoleUpdateRequest) (before : Role) (p : Patch)
    → check_update h actor raw ≡ ok (before, p)
    → IsEdit h actor before p
unfolding check_update may_manage
check_update-IsEdit h actor none before p e = ground arith
check_update-IsEdit h actor (some req) before p e =
    apply_patches-IsEdit h actor req before p (ground arith) (ground arith) (ground arith)

-- An edit that gets past the checks, by a caller without the administrator bit, leaves every bit of
-- the permissions as it was that the caller does not hold.
pub check_update-bits :
    (h : Hub) (actor : Session) (raw : Option RoleUpdateRequest) (before : Role) (p : Patch) (i : ℕ)
    → check_update h actor raw ≡ ok (before, p)
    → test_bit actor.base 31 ≡ false
    → test_bit actor.base i ≡ false
    → test_bit p.after.permissions i ≡ test_bit before.permissions i
check_update-bits h actor raw before p i e a b =
    elim (check_update-IsEdit h actor raw before p e).flips [
      | inl same ↦ ap (λ m. test_bit m i) same
      | inr flips ↦ elim ((has_iff actor.base _).0 flips) [
        | inl powerful ↦ ground arith
        | inr within ↦
            ground (arith, within i, test_bit-xor before.permissions p.after.permissions i)
      ]
    ]
