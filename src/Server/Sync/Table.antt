-- ===== src/Server/Sync/Table.antt =====
-- internal/gateway: bringing the sessions up to date, as far as the table of channels goes.
use aural_server.Base.{
  ℕ, refl, Bool, true, false, Option, none, some, List, [], ◌∷◌, Bool-cases, inl, inr,
}
use aural_server.Permissions.{has, connect}
use aural_server.Hub.{channel_permissions}
use aural_server.Store.{Outcome, done, missing, broken}
use aural_server.Server.{Server, Session, query}
use aural_server.Server.Table.{SameTable, SameTable-refl, SameTable-trans, Leaves, query-SameTable}
use aural_server.Server.Sync.{
  refresh_permissions, refreshed, send_ready, resync, resync_each, resync_all, broadcast_user_moved,
  evict, evict_each, evict_unreachable,
}

refresh-SameTable : (session : Session) (s : Server) → SameTable s (refresh_permissions session s).1
unfolding refresh_permissions
refresh-SameTable session s = SameTable-trans (query-SameTable _ s) (go (query _ s))
  where
    go : (p : Outcome (List ℕ) × Server) → SameTable p.1 (refreshed session p).1
    go (done ids, s) = record { same_rows = refl; same_next = refl; agrees = λ t a. a }
    go (missing, s) = SameTable-refl s
    go (broken, s) = SameTable-refl s

send_ready-SameTable :
    (session : Session) (p : Outcome (Unit {0}) × Server) → SameTable p.1 (send_ready session p)
unfolding send_ready
send_ready-SameTable session (done u, s) = record {
  same_rows = refl;
  same_next = refl;
  agrees = λ t a. a;
}
send_ready-SameTable session (missing, s) = SameTable-refl s
send_ready-SameTable session (broken, s) = SameTable-refl s

resync-SameTable : (session : Session) (p : Bool × Server) → SameTable p.1 (resync session p)
unfolding resync
resync-SameTable session (true, s) =
    SameTable-trans (query-SameTable (λ db. done tt) s)
      (send_ready-SameTable session (query (λ db. done tt) s))
resync-SameTable session (false, s) = SameTable-refl s

resync_each-SameTable :
    (sessions : List Session) (s : Server) → SameTable s (resync_each sessions s)
unfolding resync_each
resync_each-SameTable [] s = SameTable-refl s
resync_each-SameTable (session ∷ rest) s =
    SameTable-trans
      (SameTable-trans (refresh-SameTable session s)
        (resync-SameTable session (refresh_permissions session s)))
      (resync_each-SameTable rest _)

pub Leaves-resync_all : Leaves resync_all
unfolding resync_all
Leaves-resync_all = record { at = λ s. resync_each-SameTable s.sessions s }

pub moved-SameTable :
    (user_id : ℕ) (from to : Option ℕ) (s : Server)
    → SameTable s (broadcast_user_moved user_id from to s)
unfolding broadcast_user_moved
moved-SameTable user_id from to s = record { same_rows = refl; same_next = refl; agrees = λ t a. a }

evict-SameTable : (session : Session) (o : Option ℕ) (s : Server) → SameTable s (evict session o s)
unfolding evict broadcast_user_moved
evict-SameTable session none s = SameTable-refl s
evict-SameTable session (some current) s =
    elim (Bool-cases
      (has (channel_permissions s.hub session.base session.role_ids current) connect)) [
        | inl stays ↦ record {
          same_rows = rw stays refl;
          same_next = rw stays refl;
          agrees = rw stays (λ t a. a);
        }
        | inr goes ↦ record {
          same_rows = rw goes refl;
          same_next = rw goes refl;
          agrees = rw goes (λ t a. a);
        }
      ]

evict_each-SameTable : (sessions : List Session) (s : Server) → SameTable s (evict_each sessions s)
unfolding evict_each
evict_each-SameTable [] s = SameTable-refl s
evict_each-SameTable (session ∷ rest) s =
    SameTable-trans (evict-SameTable session session.channel_id s) (evict_each-SameTable rest _)

pub Leaves-evict_unreachable : Leaves evict_unreachable
unfolding evict_unreachable
Leaves-evict_unreachable = record { at = λ s. evict_each-SameTable s.sessions s }
