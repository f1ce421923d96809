-- ===== src/Registry/Consistent.antt =====
-- internal/gateway/hub.go: the two maps of the session registry, one against the other.
use aural_server.Base.{
  ℕ, ◌≤◌, ◌<◌, ◌≡◌, refl, ap, sym, subst, ◌∙◌, inl, inr, true, false, none, some, List, [], ◌∷◌,
  arith, ◌==◌, if◌then◌else◌, length, contains, IsDistinct, Bool-cases, ==_iff,
}
use aural_server.Registry.{Connection, Registry, drop_id, drop_user, find_user}

unfoldable pub ids_of : List Connection → List ℕ
ids_of [] = []
ids_of (c ∷ rest) = c.id ∷ ids_of rest

unfoldable pub users_of : List Connection → List ℕ
users_of [] = []
users_of (c ∷ rest) = c.user_id ∷ users_of rest

-- Both maps hold the same sessions, with no id and no identity twice.
pub record IsConsistent (r : Registry) : Type 0 where
  pub same : r.sessions ≡ r.by_user
  pub ids : IsDistinct (ids_of r.sessions)
  pub users : IsDistinct (users_of r.sessions)

pub drop_id_absent :
    (id : ℕ) (cs : List Connection) → contains (ids_of cs) id ≡ false → drop_id id cs ≡ cs
unfolding drop_id contains ids_of
drop_id_absent id [] h = refl
drop_id_absent id (c ∷ cs) h = ground (arith, drop_id_absent id cs (ground arith))

pub drop_user_absent :
    (id : ℕ) (cs : List Connection) → contains (users_of cs) id ≡ false → drop_user id cs ≡ cs
unfolding drop_user contains users_of
drop_user_absent id [] h = refl
drop_user_absent id (c ∷ cs) h = ground (arith, drop_user_absent id cs (ground arith))

pub find_user-none :
    (cs : List Connection) (id : ℕ) → find_user cs id ≡ none → contains (users_of cs) id ≡ false
unfolding find_user contains users_of
find_user-none [] id h = refl
find_user-none (c ∷ cs) id h = elim (Bool-cases (c.user_id == id)) [
  | inl here ↦ ground (arith, here, h)
  | inr later ↦ ground (arith, later, find_user-none cs id (ground (arith, later, h)))
]

found :
    (x : Connection) (cs : List Connection) (id : ℕ) (c : Connection)
    → (x.user_id == id) ≡ true
    → find_user (x ∷ cs) id ≡ some c
    → x ≡ c
unfolding find_user
found x cs id c here h = ground (arith, here, h)

pub find_user-some :
    (cs : List Connection) (id : ℕ) (c : Connection)
    → find_user cs id ≡ some c
    → (contains (ids_of cs) c.id ≡ true) × (c.user_id ≡ id)
unfolding find_user contains ids_of
find_user-some [] id c h = cc
find_user-some (x ∷ cs) id c h = elim (Bool-cases (x.user_id == id)) [
  | inl here ↦
      let same : x ≡ c = found x cs id c here h in
      (
        ground (arith, ap (λ (k : Connection). k.id) same),
        ground (arith, here, ap (λ (k : Connection). k.user_id) same),
      )
  | inr later ↦
      let (held, user) = find_user-some cs id c (ground (arith, later, h)) in
      (ground (arith, held), user)
]

apart : (a b : ℕ) (xs : List ℕ) → contains xs a ≡ false → contains xs b ≡ true → (a == b) ≡ false
apart a b xs n y = elim (Bool-cases (a == b)) [
  | inl same ↦ ground (arith, n, y, ap (contains xs) ((==_iff a b).0 same))
  | inr other ↦ other
]

-- The session of a user is the only one that goes with the user.
pub drop_found :
    (cs : List Connection) (id : ℕ) (c : Connection)
    → IsDistinct (ids_of cs)
    → IsDistinct (users_of cs)
    → find_user cs id ≡ some c
    → drop_user id cs ≡ drop_id c.id cs
unfolding find_user ids_of users_of drop_id drop_user
drop_found [] id c d u h = refl
drop_found (x ∷ cs) id c d u h = elim (Bool-cases (x.user_id == id)) [
  | inl here ↦
      let same : x ≡ c = found x cs id c here h in
      let user : x.user_id ≡ id = (==_iff x.user_id id).0 here in
      let first : (x.id == c.id) ≡ true = ground (arith, ap (λ (k : Connection). k.id) same) in
      rw (here, first)
        (drop_user_absent id cs (subst (λ k. contains (users_of cs) k ≡ false) user u.0)
          ∙ sym (
              drop_id_absent c.id cs
                (subst (λ (k : Connection). contains (ids_of cs) k.id ≡ false) same d.0)))
  | inr later ↦
      let h' : find_user cs id ≡ some c = ground (arith, later, h) in
      let other : (x.id == c.id) ≡ false =
        apart x.id c.id (ids_of cs) d.0 (find_user-some cs id c h').0 in
      rw (later, other) (ap (λ l. x ∷ l) (drop_found cs id c d.1 u.1 h'))
]

module _ (id a : ℕ) where
  ids_of-drop_id :
      (cs : List Connection)
      → contains (ids_of cs) a ≡ false
      → contains (ids_of (drop_id id cs)) a ≡ false
  unfolding drop_id ids_of contains
  ids_of-drop_id [] h = refl
  ids_of-drop_id (c ∷ cs) h = elim (Bool-cases (c.id == id)) [
    | inl gone ↦ rw gone (ids_of-drop_id cs (ground arith))
    | inr stays ↦ rw stays (ground (arith, ids_of-drop_id cs (ground arith)))
  ]

  users_of-drop_id :
      (cs : List Connection)
      → contains (users_of cs) a ≡ false
      → contains (users_of (drop_id id cs)) a ≡ false
  unfolding drop_id users_of contains
  users_of-drop_id [] h = refl
  users_of-drop_id (c ∷ cs) h = elim (Bool-cases (c.id == id)) [
    | inl gone ↦ rw gone (users_of-drop_id cs (ground arith))
    | inr stays ↦ rw stays (ground (arith, users_of-drop_id cs (ground arith)))
  ]

-- Nobody is left with the key that is deleted.
pub ids_of-drop_id-same :
    (id : ℕ) (cs : List Connection) → contains (ids_of (drop_id id cs)) id ≡ false
unfolding drop_id ids_of contains
ids_of-drop_id-same id [] = refl
ids_of-drop_id-same id (c ∷ cs) = elim (Bool-cases (c.id == id)) [
  | inl gone ↦ rw gone (ids_of-drop_id-same id cs)
  | inr stays ↦ rw stays (ground (arith, stays, ids_of-drop_id-same id cs))
]

pub users_of-drop_user :
    (id : ℕ) (cs : List Connection) → contains (users_of (drop_user id cs)) id ≡ false
unfolding drop_user users_of contains
users_of-drop_user id [] = refl
users_of-drop_user id (c ∷ cs) = elim (Bool-cases (c.user_id == id)) [
  | inl gone ↦ rw gone (users_of-drop_user id cs)
  | inr stays ↦ rw stays (ground (arith, stays, users_of-drop_user id cs))
]

pub drop_id-IsDistinct :
    (id : ℕ) (cs : List Connection)
    → IsDistinct (ids_of cs)
    → IsDistinct (users_of cs)
    → IsDistinct (ids_of (drop_id id cs)) × IsDistinct (users_of (drop_id id cs))
unfolding drop_id ids_of users_of
drop_id-IsDistinct id [] d u = (tt, tt)
drop_id-IsDistinct id (c ∷ cs) d u =
    let (d', u') = drop_id-IsDistinct id cs d.1 u.1 in
    elim (Bool-cases (c.id == id)) [
      | inl gone ↦ rw gone (d', u')
      | inr stays ↦
          rw stays ((ids_of-drop_id id c.id cs d.0, d'), (users_of-drop_id id c.user_id cs u.0, u'))
    ]

-- Where an id is neither the one that was deleted nor left, it was not there.
pub drop_id-contains :
    (id a : ℕ) (cs : List Connection)
    → (id == a) ≡ false
    → contains (ids_of (drop_id id cs)) a ≡ false
    → contains (ids_of cs) a ≡ false
unfolding drop_id ids_of contains
drop_id-contains id a [] n h = refl
drop_id-contains id a (c ∷ cs) n h = elim (Bool-cases (c.id == id)) [
  | inl gone ↦ ground (arith, gone, n, drop_id-contains id a cs n (left_of_gone c cs gone h))
  | inr stays ↦
      let (other, rest) = left_of_stays c cs stays h in
      ground (arith, other, drop_id-contains id a cs n rest)
]
  where
    left_of_gone :
        (c : Connection) (cs : List Connection)
        → (c.id == id) ≡ true
        → contains (ids_of (drop_id id (c ∷ cs))) a ≡ false
        → contains (ids_of (drop_id id cs)) a ≡ false
    left_of_gone c cs gone h =
        ap (λ b. contains (ids_of (if b then drop_id id cs else c ∷ drop_id id cs)) a) (sym gone)
        ∙ h

    left_of_stays :
        (c : Connection) (cs : List Connection)
        → (c.id == id) ≡ false
        → contains (ids_of (drop_id id (c ∷ cs))) a ≡ false
        → ((c.id == a) ≡ false) × (contains (ids_of (drop_id id cs)) a ≡ false)
    left_of_stays c cs stays h =
        let k : contains (ids_of (c ∷ drop_id id cs)) a ≡ false =
          ap (λ b. contains (ids_of (if b then drop_id id cs else c ∷ drop_id id cs)) a) (sym stays)
          ∙ h in
        (ground (arith, k), ground (arith, k))

pub length-drop_id-le : (id : ℕ) (cs : List Connection) → length (drop_id id cs) ≤ length cs
unfolding drop_id
length-drop_id-le id [] = omega arith
length-drop_id-le id (c ∷ cs) = ground (arith, length-drop_id-le id cs)

pub length-drop_id :
    (id : ℕ) (cs : List Connection)
    → contains (ids_of cs) id ≡ true
    → length (drop_id id cs) < length cs
unfolding drop_id ids_of contains
length-drop_id id [] h = cc
length-drop_id id (c ∷ cs) h = elim (Bool-cases (c.id == id)) [
  | inl gone ↦ rw gone (omega (arith, length-drop_id-le id cs))
  | inr stays ↦ rw stays (omega (arith, length-drop_id id cs (ground arith)))
]
