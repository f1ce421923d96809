-- ===== src/Registry/Capacity.antt =====
-- internal/gateway/hub.go: `Add`.
use aural_server.Base.{
  ℕ, ◌≤◌, ◌≡◌, refl, ap, sym, subst, ◌∙◌, inl, inr, false, Option, none, some, List, ◌∷◌, arith,
  leb, ◌==◌, length, contains, IsDistinct, Bool-cases, ==_iff, ==_refl,
}
use aural_server.Registry.{
  Connection, Registry, drop_id, drop_user, find_user, insert, add_held, add,
}
use aural_server.Registry.Consistent.{
  ids_of, users_of, IsConsistent, drop_id_absent, drop_user_absent, find_user-none, find_user-some,
  drop_found, users_of-drop_user, drop_id-IsDistinct, length-drop_id,
}

-- No session of another identity is registered with the id of `s`.
abbrev pub IsOwn : Connection → Registry → Type 0
IsOwn s r = contains (ids_of (drop_user s.user_id r.by_user)) s.id ≡ false

-- What is left of a list once the sessions of one identity are gone.
record IsRest (s : Connection) (cs : List Connection) : Type 0 where
  ids : IsDistinct (ids_of (drop_user s.user_id cs))
  users : IsDistinct (users_of (drop_user s.user_id cs))

rest_lem :
    (s : Connection) (cs : List Connection) (o : Option Connection)
    → IsDistinct (ids_of cs)
    → IsDistinct (users_of cs)
    → find_user cs s.user_id ≡ o
    → IsRest s cs
rest_lem s cs none d u f =
    let same : drop_user s.user_id cs ≡ cs =
      drop_user_absent s.user_id cs (find_user-none cs s.user_id f) in
    record { ids = rw same d; users = rw same u }
rest_lem s cs (some c) d u f =
    let same : drop_user s.user_id cs ≡ drop_id c.id cs = drop_found cs s.user_id c d u f in
    let (d', u') = drop_id-IsDistinct c.id cs d u in record { ids = rw same d'; users = rw same u' }

-- The registry once `s` stands in both maps, in the place of whatever its identity had.
inserted-IsConsistent :
    (s : Connection) (cs by_user : List Connection)
    → IsRest s by_user
    → contains (ids_of (drop_user s.user_id by_user)) s.id ≡ false
    → drop_id s.id cs ≡ drop_user s.user_id by_user
    → IsConsistent (insert s (record { sessions = cs; by_user = by_user }))
unfolding insert ids_of users_of
inserted-IsConsistent s cs by_user rest own e = record {
  same = ap (λ l. s ∷ l) e;
  ids = rw e (own, rest.ids);
  users = rw e (users_of-drop_user s.user_id by_user, rest.users);
}

module _ (max_users : ℕ) (s : Connection) (cs : List Connection) where
  added_lem :
      (o : Option Connection)
      → IsDistinct (ids_of cs)
      → IsDistinct (users_of cs)
      → contains (ids_of (drop_user s.user_id cs)) s.id ≡ false
      → find_user cs s.user_id ≡ o
      → length cs ≤ max_users
      → IsConsistent (add_held max_users s o (record { sessions = cs; by_user = cs })).1
        × (length (add_held max_users s o (record { sessions = cs; by_user = cs })).1.sessions
            ≤ max_users)
  unfolding add_held insert
  added_lem none d u own f room =
      let gone : drop_user s.user_id cs ≡ cs =
        drop_user_absent s.user_id cs (find_user-none cs s.user_id f) in
      let here : drop_id s.id cs ≡ cs =
        drop_id_absent s.id cs (subst (λ l. contains (ids_of l) s.id ≡ false) gone own) in
      elim (Bool-cases (leb max_users (length cs))) [
        | inl full ↦ rw full (record { same = refl; ids = d; users = u }, room)
        | inr free ↦ rw free (
          inserted-IsConsistent s cs cs (rest_lem s cs none d u f) own (here ∙ sym gone),
          ground (arith, free, ap length here),
        )
      ]
  added_lem (some prev) d u own f room =
      let found : drop_user s.user_id cs ≡ drop_id prev.id cs =
        drop_found cs s.user_id prev d u f in
      let fewer = length-drop_id prev.id cs (find_user-some cs s.user_id prev f).0 in
      elim (Bool-cases (prev.id == s.id)) [
        | inl again ↦
            let e : drop_id s.id cs ≡ drop_user s.user_id cs =
              ap (λ k. drop_id k cs) (sym ((==_iff prev.id s.id).0 again)) ∙ sym found in
            rw again (
              inserted-IsConsistent s cs cs (rest_lem s cs (some prev) d u f) own e,
              omega (arith, fewer, ap length e, ap length found, room),
            )
        | inr other ↦
            let e : drop_id s.id (drop_id prev.id cs) ≡ drop_user s.user_id cs =
              ap (drop_id s.id) (sym found) ∙ drop_id_absent s.id (drop_user s.user_id cs) own in
            rw other (
              inserted-IsConsistent s (drop_id prev.id cs) cs (rest_lem s cs (some prev) d u f) own
                  e,
              omega (arith, fewer, ap length e, ap length found, room),
            )
      ]

-- Where both maps hold the same sessions, none of another identity with the id of the new one, and no
-- more than the capacity, so they do after the new one is added.
pub add-IsConsistent :
    (max_users : ℕ) (s : Connection) (r : Registry)
    → IsConsistent r
    → IsOwn s r
    → length r.sessions ≤ max_users
    → IsConsistent (add max_users s r).1 × (length (add max_users s r).1.sessions ≤ max_users)
unfolding add
add-IsConsistent max_users s r c own room =
    let same : r ≡ record { sessions = r.by_user; by_user = r.by_user } =
      ap (λ l. record { sessions = l; by_user = r.by_user }) c.same in
    subst
      (λ q.
        IsConsistent (add_held max_users s (find_user r.by_user s.user_id) q).1
        × (length (add_held max_users s (find_user r.by_user s.user_id) q).1.sessions ≤ max_users))
      (sym same)
      (added_lem max_users s r.by_user (find_user r.by_user s.user_id)
        (subst (λ l. IsDistinct (ids_of l)) c.same c.ids)
        (subst (λ l. IsDistinct (users_of l)) c.same c.users) own refl
        (subst (λ l. length l ≤ max_users) c.same room))

inserted_found : (s : Connection) (r : Registry) → find_user (insert s r).by_user s.user_id ≡ some s
unfolding insert find_user
inserted_found s r = ground (arith, ==_refl s.user_id)

added_found :
    (max_users : ℕ) (s : Connection) (o : Option Connection) (r : Registry)
    → (add_held max_users s o r).0.full ≡ false
    → find_user (add_held max_users s o r).1.by_user s.user_id ≡ some s
unfolding add_held
added_found max_users s none r h = elim (Bool-cases (leb max_users (length r.sessions))) [
  | inl full ↦ ground (arith, full, h)
  | inr free ↦ rw free (inserted_found s r)
]
added_found max_users s (some prev) r h = elim (Bool-cases (prev.id == s.id)) [
  | inl same ↦ rw same (inserted_found s r)
  | inr other ↦ rw other (inserted_found s (record r { sessions = drop_id prev.id r.sessions }))
]

-- Unless the server is full, an identity is found under the new session once that is added.
pub add_found :
    (max_users : ℕ) (s : Connection) (r : Registry)
    → (add max_users s r).0.full ≡ false
    → find_user (add max_users s r).1.by_user s.user_id ≡ some s
unfolding add
add_found max_users s r h = added_found max_users s (find_user r.by_user s.user_id) r h
