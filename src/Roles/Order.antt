-- ===== src/Roles/Order.antt =====
-- internal/gateway/handlers_role.go: the checks of `handleRoleReorder`.
use aural_server.Base.{
  ℕ, zero, suc, ◌+◌, ◌≤◌, ◌≡◌, refl, ap, true, false, inl, inr, Option, some, none, List, [], ◌∷◌,
  arith, ◌==◌, Bool-cases, Bool-ext, Option-cases, contains, IsDistinct, get_elem?, length, ==_iff,
  ==_refl, subst, ◌∙◌,
}
use aural_server.Base.Pigeonhole.{contains_back}
use aural_server.Permissions.{has, manage_roles}
use aural_server.Hub.{Hub, Role}
use aural_server.Protocol.{ok}
use aural_server.Server.{Session}
use aural_server.Roles.{
  check_reorder, may_manage, current_stack, was_at, names_each, may_restack, reorder_ceiling,
  stays_below, is_some,
}

-- The id that stands at a place of a stack.
abbrev pub id_at : List Role → ℕ → Option ℕ
id_at [] i = none
id_at (r ∷ rest) zero = some r.id
id_at (r ∷ rest) (suc i) = id_at rest i

id_at-was_at : (stack : List Role) (id i : ℕ) → was_at stack id ≡ some i → id_at stack i ≡ some id
unfolding was_at
id_at-was_at [] id i e = cc
id_at-was_at (r ∷ rest) id i e = elim (Bool-cases (r.id == id)) [
  | inl here ↦ first r rest id i here (ground arith)
  | inr later ↦ elim (Option-cases (was_at rest id)) [
    | inl absent ↦ ground (arith, absent)
    | inr (j, found) ↦
        let next : suc j ≡ i = ground (arith, found) in
        subst (λ n. id_at (r ∷ rest) n ≡ some id) next (id_at-was_at rest id j found)
  ]
]
  where
    first :
        (r : Role) (rest : List Role) (id i : ℕ)
        → (r.id == id) ≡ true
        → 0 ≡ i
        → id_at (r ∷ rest) i ≡ some id
    first r rest id i same z =
        subst (λ n. id_at (r ∷ rest) n ≡ some id) z (ap some ((==_iff r.id id).0 same))

stays_below-fixed :
    (ceiling to : ℕ) (o : Option ℕ)
    → stays_below ceiling to o ≡ true
    → is_some o ≡ true
    → ceiling ≤ to
    → o ≡ some to
unfolding stays_below is_some
stays_below-fixed ceiling to none h k b = cc
stays_below-fixed ceiling to (some from) h k b = ap some (ground arith)

-- At and above the ceiling an accepted order has what stood there before.
may_restack-fixed :
    (ceiling : ℕ) (stack : List Role) (ids seen : List ℕ) (i j id : ℕ)
    → may_restack ceiling stack i ids ≡ true
    → names_each stack seen ids ≡ true
    → ceiling ≤ i + j
    → get_elem? ids j ≡ some id
    → id_at stack (i + j) ≡ some id
unfolding may_restack names_each
may_restack-fixed ceiling stack [] seen i j id m n h g = cc
may_restack-fixed ceiling stack (x ∷ rest) seen i zero id m n h g =
    let same : x ≡ id = ground arith in
    let at : was_at stack x ≡ some (i + 0) =
      stays_below-fixed ceiling i (was_at stack x) (ground arith) (ground arith) (omega arith)
      ∙ ap some (omega arith) in
    id_at-was_at stack x (i + 0) at ∙ ap some same
may_restack-fixed ceiling stack (x ∷ rest) seen i (suc j) id m n h g =
    ap (id_at stack) (omega arith)
    ∙ may_restack-fixed ceiling stack rest (x ∷ seen) (suc i) j id (ground arith) (ground arith)
        (omega arith) g

names_each-IsDistinct :
    (stack : List Role) (seen ids : List ℕ)
    → names_each stack seen ids ≡ true
    → IsDistinct ids × ((a : ℕ) → contains seen a ≡ true → contains ids a ≡ false)
unfolding names_each contains
names_each-IsDistinct stack seen [] h = (tt, λ a m. refl)
names_each-IsDistinct stack seen (x ∷ rest) h =
    let (d, apart) = names_each-IsDistinct stack (x ∷ seen) rest (ground arith) in
    (
      (apart x (ground (arith, ==_refl x)), d),
      λ a m. elim (Bool-cases (x == a)) [
        | inl same ↦ ground (arith, ap (contains seen) ((==_iff x a).0 same))
        | inr other ↦ ground (arith, apart a)
      ],
    )

-- The ids of a stack, in its order.
abbrev pub stack_ids : List Role → List ℕ
stack_ids [] = []
stack_ids (r ∷ rest) = r.id ∷ stack_ids rest

length-stack_ids : (stack : List Role) → length (stack_ids stack) ≡ length stack
length-stack_ids [] = refl
length-stack_ids (r ∷ rest) = ap suc (length-stack_ids rest)

contains-stack_ids :
    (stack : List Role) (id : ℕ)
    → is_some (was_at stack id) ≡ true
    → contains (stack_ids stack) id ≡ true
unfolding is_some was_at contains
contains-stack_ids [] id h = cc
contains-stack_ids (r ∷ rest) id h = elim (Option-cases (was_at rest id)) [
  | inl absent ↦ ground (arith, absent)
  | inr (i, found) ↦ ground (arith, contains-stack_ids rest id (ground (arith, found)))
]

names_each-contains :
    (stack : List Role) (seen ids : List ℕ) (id : ℕ)
    → names_each stack seen ids ≡ true
    → contains ids id ≡ true
    → contains (stack_ids stack) id ≡ true
unfolding names_each contains
names_each-contains stack seen [] id h m = cc
names_each-contains stack seen (x ∷ rest) id h m = elim (Bool-cases (x == id)) [
  | inl here ↦
      subst (λ k. contains (stack_ids stack) k ≡ true) ((==_iff x id).0 here)
        (contains-stack_ids stack x (ground arith))
  | inr there ↦ names_each-contains stack (x ∷ seen) rest id (ground arith) (ground (arith, there))
]

-- An order that a caller may ask for: the ids are those of the stack, all of them and no others, each
-- exactly once; and from the caller's ceiling upwards it is the order that stood before.
pub record IsRestack (h : Hub) (actor : Session) (stack : List Role) (ids : List ℕ) : Type 0 where
  pub manages : has actor.base manage_roles ≡ true
  pub whole : stack ≡ current_stack h
  pub same_length : length ids ≡ length stack
  pub distinct : IsDistinct ids
  pub named : (id : ℕ) → contains ids id ≡ contains (stack_ids stack) id
  pub fixed :
      (j id : ℕ)
      → reorder_ceiling h actor stack ≤ j
      → get_elem? ids j ≡ some id
      → id_at stack j ≡ some id

IsRestack-of_tests :
    (h : Hub) (actor : Session) (stack : List Role) (ids : List ℕ)
    → has actor.base manage_roles ≡ true
    → stack ≡ current_stack h
    → (length ids == length stack) ≡ true
    → names_each stack [] ids ≡ true
    → may_restack (reorder_ceiling h actor stack) stack 0 ids ≡ true
    → IsRestack h actor stack ids
IsRestack-of_tests h actor stack ids m w l n r =
    let distinct : IsDistinct ids = (names_each-IsDistinct stack [] ids n).0 in
    let same_length : length ids ≡ length stack = (==_iff _ _).0 l in
    record {
      manages = m;
      whole = w;
      same_length = same_length;
      distinct = distinct;
      named = λ id. Bool-ext _ _ (names_each-contains stack [] ids id n) (
          contains_back ids (stack_ids stack) id distinct
            (λ a. names_each-contains stack [] ids a n)
            (omega (arith, same_length, length-stack_ids stack)));
      fixed = λ j id b g.
          ap (id_at stack) (omega arith)
          ∙ may_restack-fixed (reorder_ceiling h actor stack) stack ids [] 0 j id r n (omega arith)
              g;
    }

-- An order that a reorder request gets past the checks, from a caller who manages roles, names every
-- role of the stack exactly once and nothing else, and from the caller's ceiling upwards it has what
-- stood there before.
pub check_reorder-IsRestack :
    (h : Hub) (actor : Session) (raw : Option (List ℕ)) (stack : List Role) (ids : List ℕ)
    → check_reorder h actor raw ≡ ok (stack, ids)
    → IsRestack h actor stack ids
unfolding check_reorder may_manage
check_reorder-IsRestack h actor none stack ids e = ground arith
check_reorder-IsRestack h actor (some req) stack ids e =
    let w : stack ≡ current_stack h = ground arith in
    let r : ids ≡ req = ground arith in
    rw (w, r)
      (IsRestack-of_tests h actor (current_stack h) req (ground arith) refl (ground arith)
        (ground arith) (ground arith))
