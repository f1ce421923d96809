-- ===== src/Registry/Removal.antt =====
-- internal/gateway/hub.go: `Remove`.
use aural_server.Base.{
  ◌≡◌, refl, ap, sym, subst, ◌∙◌, inl, inr, false, Option, none, some, List, ◌==◌, contains,
  IsDistinct, Bool-cases, ==_iff,
}
use aural_server.Registry.{
  Connection, Registry, drop_id, drop_user, find_user, drop_current, remove,
}
use aural_server.Registry.Consistent.{
  ids_of, users_of, IsConsistent, drop_id_absent, drop_user_absent, find_user-none, drop_found,
  drop_id-IsDistinct, drop_id-contains,
}
use aural_server.Registry.Capacity.{IsOwn}

current_lem :
    (s : Connection) (cs : List Connection) (o : Option Connection)
    → IsDistinct (ids_of cs)
    → IsDistinct (users_of cs)
    → contains (ids_of (drop_user s.user_id cs)) s.id ≡ false
    → find_user cs s.user_id ≡ o
    → drop_id s.id cs ≡ drop_current s o cs
unfolding drop_current
current_lem s cs none d u own f = drop_id_absent s.id cs (
    subst (λ l. contains (ids_of l) s.id ≡ false)
      (drop_user_absent s.user_id cs (find_user-none cs s.user_id f)) own)
current_lem s cs (some c) d u own f =
    let found = drop_found cs s.user_id c d u f in
    elim (Bool-cases (c.id == s.id)) [
      | inl here ↦ rw here (ap (λ k. drop_id k cs) (sym ((==_iff c.id s.id).0 here)) ∙ sym found)
      | inr newer ↦ rw newer (
          drop_id_absent s.id cs (
            drop_id-contains c.id s.id cs newer
              (subst (λ l. contains (ids_of l) s.id ≡ false) found own)))
    ]

-- Where both maps hold the same sessions, and none of another identity has the id of the one that
-- goes, they hold the same sessions after it is removed, whether it was registered or not.
pub remove-IsConsistent :
    (s : Connection) (r : Registry) → IsConsistent r → IsOwn s r → IsConsistent (remove s r)
unfolding remove
remove-IsConsistent s r c own =
    let (d, u) = drop_id-IsDistinct s.id r.sessions c.ids c.users in
    record {
      same =
          ap (drop_id s.id) c.same
          ∙ current_lem s r.by_user (find_user r.by_user s.user_id)
              (subst (λ l. IsDistinct (ids_of l)) c.same c.ids)
              (subst (λ l. IsDistinct (users_of l)) c.same c.users) own refl;
      ids = d;
      users = u;
    }
