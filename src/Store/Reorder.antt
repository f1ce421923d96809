-- ===== src/Store/Reorder.antt =====
-- internal/store/roles.go: `ReorderRoles`.
use aural_server.Base.{
  ℕ, zero, suc, ◌+◌, ◌≡◌, ◌∙◌, ap, true, false, inl, inr, Option, some, none, List, [], ◌∷◌, arith,
  ◌==◌, if◌then◌else◌, Bool-cases, Option-cases, ==_iff, contains, IsDistinct, get_elem?,
  contains-get_elem?, subst,
}
use aural_server.Hub.{Role}
use aural_server.Store.{
  Db, Outcome, done, missing, broken, row, update_rows, renumber, commit, reorder_roles,
}

-- A role with another position.
abbrev pub place : ℕ → Role → Role
place n r = record r { position = n }

place_row : ℕ → Option Role → Option Role
place_row n none = none
place_row n (some r) = some (place n r)

row-update :
    (id n k : ℕ) (rows : List Role)
    → row (update_rows id (place n) rows) k
      ≡ (if id == k then place_row n (row rows k) else row rows k)
unfolding row update_rows place_row
row-update id n k [] = ground arith
row-update id n k (r ∷ rest) = ground (arith, row-update id n k rest)

-- Rows that are not named keep what they hold.
renumber_other :
    (ids : List ℕ) (i k : ℕ) (rows rows' : List Role)
    → renumber i ids rows ≡ done rows'
    → contains ids k ≡ false
    → row rows' k ≡ row rows k
unfolding renumber contains
renumber_other [] i k rows rows' e c = ground (arith, ap (λ l. l) e)
renumber_other (id ∷ rest) i k rows rows' e c = elim (Option-cases (row rows id)) [
  | inl absent ↦ ground (arith, absent, e)
  | inr (r, found) ↦
      renumber_other rest (suc i) k (update_rows id (place (suc i)) rows) rows'
        (ground (arith, found, e)) (ground arith)
      ∙ ground (arith, row-update id (suc i) k rows)
]

placed :
    (id i : ℕ) (rows : List Role) (r : Role)
    → row rows id ≡ some r
    → row (update_rows id (place (suc i)) rows) id ≡ some (place (i + 0 + 1) r)
unfolding place_row
placed id i rows r found =
    ground (arith, row-update id (suc i) id rows, found, ap (λ n. place n r) (next i))
  where
    next : (i : ℕ) → suc i ≡ i + 0 + 1
    next i = omega arith

apart :
    (id k : ℕ) (rest : List ℕ)
    → contains rest id ≡ false
    → contains rest k ≡ true
    → (id == k) ≡ false
apart id k rest h m = elim (Bool-cases (id == k)) [
  | inl same ↦ ground (arith, h, m, ap (contains rest) ((==_iff id k).0 same))
  | inr other ↦ other
]

renumbered : (db db' : Db) (o : Outcome (List Role)) → commit db o ≡ done db' → o ≡ done db'.roles
unfolding commit
renumbered db db' (done rows) e = ground arith
renumbered db db' missing e = ground arith
renumbered db db' broken e = ground arith

-- The row at place `j` of the order ends up at position `j + 1`, and keeps everything else.
renumber_lem :
    (ids : List ℕ) (i j k : ℕ) (rows rows' : List Role)
    → renumber i ids rows ≡ done rows'
    → IsDistinct ids
    → get_elem? ids j ≡ some k
    → (r : Role) × (row rows k ≡ some r) × (row rows' k ≡ some (place (i + j + 1) r))
unfolding renumber
renumber_lem [] i j k rows rows' e d g = cc
renumber_lem (id ∷ rest) i zero k rows rows' e d g = elim (Option-cases (row rows id)) [
  | inl absent ↦ ground (arith, absent, e)
  | inr (r, found) ↦
      let same : id ≡ k = ground arith in
      let here : row rows' id ≡ some (place (i + 0 + 1) r) =
        renumber_other rest (suc i) id (update_rows id (place (suc i)) rows) rows'
          (ground (arith, found, e)) d.0
        ∙ placed id i rows r found in
      (
        r,
        subst (λ m. row rows m ≡ some r) same found,
        subst (λ m. row rows' m ≡ some (place (i + 0 + 1) r)) same here,
      )
]
renumber_lem (id ∷ rest) i (suc j) k rows rows' e d g = elim (Option-cases (row rows id)) [
  | inl absent ↦ ground (arith, absent, e)
  | inr (r, found) ↦
      let (s, before, after) =
        renumber_lem rest (suc i) j k (update_rows id (place (suc i)) rows) rows'
          (ground (arith, found, e)) d.1 g in
      let other : (id == k) ≡ false = apart id k rest d.0 (contains-get_elem? rest j k g) in
      (
        s,
        ground (arith, row-update id (suc i) k rows, before, other),
        after ∙ ap (λ n. some (place n s)) (omega arith),
      )
]

-- A reorder that succeeds, of ids that are all different, gives the role at place `j` of the order
-- the position `j + 1`, and changes nothing else about it.
pub reorder_roles_placed :
    (db db' : Db) (ids : List ℕ) (j k : ℕ)
    → reorder_roles db ids ≡ done db'
    → IsDistinct ids
    → get_elem? ids j ≡ some k
    → (r : Role) × (row db.roles k ≡ some r) × (row db'.roles k ≡ some (place (j + 1) r))
unfolding reorder_roles commit
reorder_roles_placed db db' ids j k e d g =
    let (r, before, after) =
      renumber_lem ids 0 j k db.roles db'.roles (renumbered db db' (renumber 0 ids db.roles) e) d
        g in
    (r, before, after ∙ ap (λ n. some (place n r)) (omega arith))

-- A reorder that succeeds leaves a role that it does not name as it was.
pub reorder_roles_others :
    (db db' : Db) (ids : List ℕ) (k : ℕ)
    → reorder_roles db ids ≡ done db'
    → contains ids k ≡ false
    → row db'.roles k ≡ row db.roles k
unfolding reorder_roles commit
reorder_roles_others db db' ids k e c =
    renumber_other ids 0 k db.roles db'.roles (renumbered db db' (renumber 0 ids db.roles) e) c
