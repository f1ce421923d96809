-- ===== src/Hub/Stack.antt =====
-- internal/gateway/hub.go: `SortedRoles`.
use mathlib.Core.List.Perm
use mathlib.Core.List.{Perm}
use aural_server.Base.{◌≡◌, true, false, List, [], ◌∷◌, arith, All, Bool-cases, inl, inr}
use aural_server.Hub.{Hub, Role, stands_below, insert_role, sort_roles, sorted_roles}

insert_role-perm : (r : Role) (rs : List Role) → Perm (insert_role r rs) (r ∷ rs)
unfolding insert_role
insert_role-perm r [] = Perm.refl (r ∷ [])
insert_role-perm r (s ∷ rest) = elim (Bool-cases (stands_below s r)) [
  | inl below ↦ rw below (Perm.trans (Perm.cons s (insert_role-perm r rest)) (Perm.swap r s rest))
  | inr above ↦ rw above (Perm.refl (r ∷ s ∷ rest))
]

sort_roles-perm : (rs : List Role) → Perm (sort_roles rs) rs
unfolding sort_roles
sort_roles-perm [] = Perm.refl []
sort_roles-perm (r ∷ rest) =
    Perm.trans (insert_role-perm r (sort_roles rest)) (Perm.cons r (sort_roles-perm rest))

-- `a` may stand before `b`.
abbrev pub InOrder : Role → Role → Type 0
InOrder a b = stands_below b a ≡ false

-- Each role may stand before all that follow.
abbrev pub IsStacked : List Role → Type 0
IsStacked [] = Unit
IsStacked (r ∷ rest) = All (InOrder r) rest × IsStacked rest

InOrder-trans : (a b c : Role) → InOrder a b → InOrder b c → InOrder a c
unfolding stands_below
InOrder-trans a b c h k = ground arith

InOrder-of_below : (a b : Role) → stands_below a b ≡ true → InOrder a b
unfolding stands_below
InOrder-of_below a b h = ground arith

All-InOrder-trans :
    (a b : Role) (rs : List Role) → InOrder a b → All (InOrder b) rs → All (InOrder a) rs
All-InOrder-trans a b [] h k = tt
All-InOrder-trans a b (r ∷ rs) h k = (InOrder-trans a b r h k.0, All-InOrder-trans a b rs h k.1)

insert_role-All :
    (a r : Role) (rs : List Role)
    → InOrder a r
    → All (InOrder a) rs
    → All (InOrder a) (insert_role r rs)
unfolding insert_role
insert_role-All a r [] h k = (h, tt)
insert_role-All a r (s ∷ rest) h k = elim (Bool-cases (stands_below s r)) [
  | inl below ↦ rw below (k.0, insert_role-All a r rest h k.1)
  | inr above ↦ rw above (h, k)
]

insert_role-IsStacked : (r : Role) (rs : List Role) → IsStacked rs → IsStacked (insert_role r rs)
unfolding insert_role
insert_role-IsStacked r [] h = (tt, tt)
insert_role-IsStacked r (s ∷ rest) h = elim (Bool-cases (stands_below s r)) [
  | inl below ↦
      rw below (
        insert_role-All s r rest (InOrder-of_below s r below) h.0,
        insert_role-IsStacked r rest h.1,
      )
  | inr above ↦ rw above ((above, All-InOrder-trans r s rest above h.0), h)
]

sort_roles-IsStacked : (rs : List Role) → IsStacked (sort_roles rs)
unfolding sort_roles
sort_roles-IsStacked [] = tt
sort_roles-IsStacked (r ∷ rest) =
    insert_role-IsStacked r (sort_roles rest) (sort_roles-IsStacked rest)

-- `SortedRoles` lists every cached role exactly as often as it is cached, and by position, with
-- the id deciding among equals.
pub sorted_roles_lem : (h : Hub) → Perm (sorted_roles h) h.roles × IsStacked (sorted_roles h)
unfolding sorted_roles
sorted_roles_lem h = (sort_roles-perm h.roles, sort_roles-IsStacked h.roles)
