-- ===== src/Registry.antt =====
-- internal/gateway/hub.go: the session registry. The maps `sessions`, by the id of a session, and
-- `byUser`, by the identity behind it, are lists without two entries of one key; a session is told
-- apart from another by its id, which the server counts up.
pub mod Consistent
pub mod Capacity
pub mod Removal
mod Tests
use aural_server.Base.{
  ℕ, Bool, true, false, not, Option, none, some, List, [], ◌∷◌, ◌==◌, leb, if◌then◌else◌, length,
}

-- A session as the registry sees it.
pub record Connection : Type 0 where
  pub id : ℕ
  pub user_id : ℕ

pub record Registry : Type 0 where
  pub sessions : List Connection
  pub by_user : List Connection

-- `delete(sessions, id)`.
pub drop_id : ℕ → List Connection → List Connection
drop_id id [] = []
drop_id id (c ∷ rest) = let later = drop_id id rest in if c.id == id then later else c ∷ later

-- `delete(byUser, id)`.
pub drop_user : ℕ → List Connection → List Connection
drop_user id [] = []
drop_user id (c ∷ rest) =
    let later = drop_user id rest in if c.user_id == id then later else c ∷ later

-- `byUser[id]`.
pub find_user : List Connection → ℕ → Option Connection
find_user [] id = none
find_user (c ∷ rest) id = let later = find_user rest id in if c.user_id == id then some c else later

-- What `Add` returns: the session to close, if there is one, or that the server is full.
pub record Added : Type 0 where
  pub displaced : Option Connection
  pub full : Bool

-- `sessions[s.ID] = s` and `byUser[s.UserID()] = s`.
insert : Connection → Registry → Registry
unfolding drop_id drop_user
insert s r = record {
  sessions = s ∷ drop_id s.id r.sessions;
  by_user = s ∷ drop_user s.user_id r.by_user;
}

add_held : ℕ → Connection → Option Connection → Registry → Added × Registry
unfolding insert
add_held max_users s none r =
    if leb max_users (length r.sessions)
    then (record { displaced = none; full = true }, r)
    else (record { displaced = none; full = false }, insert s r)
add_held max_users s (some prev) r =
    if prev.id == s.id then (record { displaced = none; full = false }, insert s r) else (
      record { displaced = some prev; full = false },
      insert s (record r { sessions = drop_id prev.id r.sessions }),
    )

-- `Add`, with the configured capacity.
unfoldable pub add : ℕ → Connection → Registry → Added × Registry
unfolding add_held find_user
add max_users s r = add_held max_users s (find_user r.by_user s.user_id) r

drop_current : Connection → Option Connection → List Connection → List Connection
unfolding drop_user
drop_current s none by_user = by_user
drop_current s (some current) by_user =
    if current.id == s.id then drop_user s.user_id by_user else by_user

-- `Remove`.
unfoldable pub remove : Connection → Registry → Registry
unfolding drop_current drop_id find_user
remove s r = record {
  sessions = drop_id s.id r.sessions;
  by_user = drop_current s (find_user r.by_user s.user_id) r.by_user;
}
