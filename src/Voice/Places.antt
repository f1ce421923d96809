-- ===== src/Voice/Places.antt =====
-- internal/gateway/voice.go: one place of a list of members, found and deleted.
use aural_server.Base.{
  ℕ, zero, suc, ◌≡◌, ◌≢◌, refl, ap, inl, inr, true, false, not, ◌&&◌, none, some, List, [], ◌∷◌,
  ◌==◌, arith, Bool-cases, Option-cases, contains, IsDistinct, ==_iff,
}
use aural_server.Voice.{is_empty, index_of, delete_at}

index_of-nil : (u i : ℕ) → index_of [] u ≢ some i
unfolding index_of
index_of-nil u i h = cc

pub contains-is_empty : (xs : List ℕ) (u : ℕ) → contains xs u ≡ true → is_empty xs ≡ false
unfolding contains is_empty
contains-is_empty [] u h = cc
contains-is_empty (x ∷ xs) u h = refl

index_of-suc :
    (x : ℕ) (xs : List ℕ) (i u : ℕ)
    → index_of (x ∷ xs) u ≡ some (suc i)
    → ((x == u) ≡ false) × (index_of xs u ≡ some i)
unfolding index_of
index_of-suc x xs i u h = elim (Option-cases (index_of xs u)) [
  | inl absent ↦ ground (arith, absent, h)
  | inr (j, found) ↦ ground (arith, found, h)
]

index_of-first : (x : ℕ) (xs : List ℕ) (u : ℕ) → index_of (x ∷ xs) u ≡ some 0 → (x == u) ≡ true
unfolding index_of
index_of-first x xs u h = elim (Option-cases (index_of xs u)) [
  | inl absent ↦ ground (arith, absent, h)
  | inr (j, found) ↦ ground (arith, found, h)
]

pub contains-delete_at :
    (xs : List ℕ) (i u v : ℕ)
    → IsDistinct xs
    → index_of xs u ≡ some i
    → contains (delete_at xs i) v ≡ (contains xs v && not (v == u))
unfolding contains delete_at
contains-delete_at [] i u v d h = ground (arith, index_of-nil u i h)
contains-delete_at (x ∷ xs) zero u v d h =
    let here : x ≡ u = (==_iff x u).0 (index_of-first x xs u h) in
    elim (Bool-cases (x == v)) [
      | inl same ↦ ground (arith, d.0, ap (contains xs) ((==_iff x v).0 same))
      | inr other ↦ ground (arith, other)
    ]
contains-delete_at (x ∷ xs) (suc i) u v d h =
    let (apart, later) = index_of-suc x xs i u h in
    let rest = contains-delete_at xs i u v d.1 later in
    elim (Bool-cases (x == v)) [
      | inl same ↦ ground (arith, rest, apart, same)
      | inr other ↦ ground (arith, rest, other)
    ]

pub index_of-none : (xs : List ℕ) (u : ℕ) → index_of xs u ≡ none → contains xs u ≡ false
unfolding contains index_of
index_of-none [] u h = refl
index_of-none (x ∷ xs) u h = elim (Option-cases (index_of xs u)) [
  | inl absent ↦ ground (arith, absent, index_of-none xs u absent)
  | inr (i, found) ↦ ground (arith, found)
]

delete_at-false :
    (xs : List ℕ) (i v : ℕ) → contains xs v ≡ false → contains (delete_at xs i) v ≡ false
unfolding contains delete_at
delete_at-false [] i v h = refl
delete_at-false (x ∷ xs) zero v h = ground arith
delete_at-false (x ∷ xs) (suc i) v h = ground (arith, delete_at-false xs i v (ground arith))

pub IsDistinct-delete_at : (xs : List ℕ) (i : ℕ) → IsDistinct xs → IsDistinct (delete_at xs i)
unfolding delete_at
IsDistinct-delete_at [] i d = tt
IsDistinct-delete_at (x ∷ xs) zero d = d.1
IsDistinct-delete_at (x ∷ xs) (suc i) d =
    (delete_at-false xs i x d.0, IsDistinct-delete_at xs i d.1)
