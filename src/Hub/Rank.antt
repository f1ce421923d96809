-- ===== src/Hub/Rank.antt =====
-- internal/gateway/hub.go: `RankOf` and `HighestRolePosition`.
use aural_server.Base.{
  ℕ, ◌≤◌, ◌<◌, ◌≡◌, inl, inr, true, false, some, List, [], ◌∷◌, arith, ◌==◌, contains, Option-cases,
  All, Bool-cases, ==_iff, ap,
}
use aural_server.Hub.{
  Hub, Role, find_role, role, raise_to, highest_from, highest_role_position, rank_of, is_owner,
  owner_rank,
}

highest_from-ge : (roles : List Role) (ids : List ℕ) (n : ℕ) → n ≤ highest_from roles ids n
unfolding highest_from
highest_from-ge roles [] n = omega arith
highest_from-ge roles (id ∷ rest) n =
    ground (arith, highest_from-ge roles rest (raise_to (find_role roles id) n))

highest_from_bounds :
    (roles : List Role) (ids : List ℕ) (n id : ℕ) (r : Role)
    → contains ids id ≡ true
    → find_role roles id ≡ some r
    → r.position ≤ highest_from roles ids n
unfolding highest_from contains
highest_from_bounds roles [] n id r m f = cc
highest_from_bounds roles (x ∷ rest) n id r m f = elim (Bool-cases (x == id)) [
  | inl same ↦ ground (
    arith,
    f,
    ap (find_role roles) ((==_iff x id).0 same),
    highest_from-ge roles rest (raise_to (find_role roles x) n),
  )
  | inr other ↦
      highest_from_bounds roles rest (raise_to (find_role roles x) n) id r (ground arith) f
]

-- Whoever holds a role that is cached ranks at least as high as the role stands, for a position up
-- to the owner's rank.
pub rank_of-ge-position :
    (h : Hub) (user_id id : ℕ) (ids : List ℕ) (r : Role)
    → contains ids id ≡ true
    → role h id ≡ some r
    → r.position ≤ owner_rank
    → r.position ≤ rank_of h user_id ids
unfolding rank_of role highest_role_position
rank_of-ge-position h user_id id ids r m f b =
    ground (arith, highest_from_bounds h.roles ids 0 id r m f)

find_role-All :
    (roles : List Role) (id : ℕ) (r : Role) (b : ℕ)
    → All (λ s. s.position < b) roles
    → find_role roles id ≡ some r
    → r.position < b
unfolding find_role
find_role-All [] id r b a f = cc
find_role-All (s ∷ rest) id r b a f = ground (arith, find_role-All rest id r b a.1)

highest_from-lt :
    (roles : List Role) (ids : List ℕ) (n b : ℕ)
    → All (λ s. s.position < b) roles
    → n < b
    → highest_from roles ids n < b
unfolding highest_from
highest_from-lt roles [] n b a h = h
highest_from-lt roles (id ∷ rest) n b a h =
    highest_from-lt roles rest (raise_to (find_role roles id) n) b a
      (elim (Option-cases (find_role roles id)) [
        | inl missing ↦ ground (arith, missing)
        | inr (r, found) ↦ ground (arith, found, find_role-All roles id r b a found)
      ])

-- Where every role stands below the owner's rank, so does everybody but the owner.
pub rank_of-lt-owner_rank :
    (h : Hub) (user_id : ℕ) (ids : List ℕ)
    → All (λ r. r.position < owner_rank) h.roles
    → is_owner h user_id ≡ false
    → rank_of h user_id ids < owner_rank
unfolding rank_of highest_role_position
rank_of-lt-owner_rank h user_id ids a o =
    ground (arith, highest_from-lt h.roles ids 0 owner_rank a (omega arith))
