-- ===== src/Hub/Effective.antt =====
-- internal/gateway/hub.go: `EffectiveRoleIDs`, `BasePermissions` and `PermissionsFor`.
use aural_server.Base.{
  ℕ, ◌≡◌, refl, ◌∙◌, Bool, false, not, ◌&&◌, ◌||◌, List, [], ◌∷◌, arith, ◌==◌, if◌then◌else◌,
  ==_iff, contains, contains-append, IsDistinct, IsDistinct-snoc, Bool-cases, inl, inr, Option,
  some, none, any, ap, Option-cases,
}
use aural_server.Base.Bits.{test_bit}
use aural_server.Permissions.{all}
use aural_server.Permissions.Resolved.{resolve-bits}
use aural_server.Hub.{
  Hub, User, Role, is_registered, add_id, add_ids, effective_role_ids, find_role, masks_of,
  base_permissions, permissions_for, is_owner, role,
}

contains-single : (id a : ℕ) → contains (id ∷ []) a ≡ (id == a)
unfolding contains
contains-single id a = ground arith

contains-add_id :
    (out : List ℕ) (id a : ℕ)
    → contains (add_id out id) a ≡ (contains out a || not (id == 0) && id == a)
unfolding add_id
contains-add_id out id a = elim (Bool-cases (id == a)) [
  | inl same ↦ ground (
    arith,
    contains-append out (id ∷ []) a,
    contains-single id a,
    ap (contains out) ((==_iff id a).0 same),
  )
  | inr other ↦ ground (arith, contains-append out (id ∷ []) a, contains-single id a)
]

contains-add_ids :
    (out ids : List ℕ) (a : ℕ)
    → contains (add_ids out ids) a ≡ (contains out a || not (a == 0) && contains ids a)
unfolding add_ids contains
contains-add_ids out [] a = ground arith
contains-add_ids out (id ∷ rest) a =
    contains-add_ids (add_id out id) rest a ∙ ground (arith, contains-add_id out id a)

-- An identity holds exactly the everyone role, the registered role once it has an account, and its
-- grants; never the id 0.
pub contains-effective_role_ids :
    (h : Hub) (u : User) (explicit : List ℕ) (a : ℕ)
    → contains (effective_role_ids h u explicit) a ≡ (
        not (a == 0)
        && (a == h.everyone_id || is_registered u && a == h.registered_id || contains explicit a))
unfolding effective_role_ids contains
contains-effective_role_ids h u explicit a =
    contains-add_ids
      (if is_registered u
        then add_id (add_id [] h.everyone_id) h.registered_id
        else add_id [] h.everyone_id)
      explicit a
    ∙ ground (
      arith,
      contains-add_id [] h.everyone_id a,
      contains-add_id (add_id [] h.everyone_id) h.registered_id a,
    )

add_id-IsDistinct : (out : List ℕ) (id : ℕ) → IsDistinct out → IsDistinct (add_id out id)
unfolding add_id
add_id-IsDistinct out id d = ground (arith, IsDistinct-snoc out id d)

add_ids-IsDistinct : (out ids : List ℕ) → IsDistinct out → IsDistinct (add_ids out ids)
unfolding add_ids
add_ids-IsDistinct out [] d = d
add_ids-IsDistinct out (id ∷ rest) d =
    add_ids-IsDistinct (add_id out id) rest (add_id-IsDistinct out id d)

-- No role is listed twice, whatever the grants say.
pub effective_role_ids-IsDistinct :
    (h : Hub) (u : User) (explicit : List ℕ) → IsDistinct (effective_role_ids h u explicit)
unfolding effective_role_ids
effective_role_ids-IsDistinct h u explicit = add_ids-IsDistinct _ explicit (
    ground (
      arith,
      add_id-IsDistinct [] h.everyone_id tt,
      add_id-IsDistinct (add_id [] h.everyone_id) h.registered_id
          (add_id-IsDistinct [] h.everyone_id tt),
    ))

-- Whether the role behind an id, if it is cached, has bit `i`.
abbrev pub role_bit : Option Role → ℕ → Bool
role_bit none i = false
role_bit (some r) i = test_bit r.permissions i

any-masks_of :
    (roles : List Role) (ids : List ℕ) (i : ℕ)
    → any (λ m. test_bit m i) (masks_of roles ids) ≡ any (λ id. role_bit (find_role roles id) i) ids
unfolding any masks_of
any-masks_of roles [] i = refl
any-masks_of roles (id ∷ rest) i = elim (Option-cases (find_role roles id)) [
  | inl missing ↦ ground (arith, missing, any-masks_of roles rest i)
  | inr (r, found) ↦ ground (arith, found, any-masks_of roles rest i)
]

-- What an identity may do server-wide: everything, for the owner and for who holds a role with the
-- administrator bit; otherwise what some cached role of theirs grants.
pub permissions_for-bits :
    (h : Hub) (user_id : ℕ) (ids : List ℕ) (i : ℕ)
    → test_bit (permissions_for h user_id ids) i ≡ (
        if is_owner h user_id || any (λ id. role_bit (role h id) 31) ids
        then test_bit all i
        else any (λ id. role_bit (role h id) i) ids)
unfolding permissions_for base_permissions role
permissions_for-bits h user_id ids i = ground (
  arith,
  resolve-bits (masks_of h.roles ids) i,
  any-masks_of h.roles ids 31,
  any-masks_of h.roles ids i,
)
