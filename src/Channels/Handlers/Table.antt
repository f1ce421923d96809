-- ===== src/Channels/Handlers/Table.antt =====
-- internal/gateway/handlers_channel.go: the steps of the handlers that leave the table of channels alone.
use aural_server.Base.{
  ℕ, ◌≡◌, refl, Bool, true, false, Option, none, some, List, [], ◌∷◌, arith, Bool-cases, inl, inr,
  contains,
}
use aural_server.Permissions.{Overwrite}
use aural_server.Hub.{Channel}
use aural_server.Store.{Db, done}
use aural_server.Store.Channels.{set_overwrites}
use aural_server.Store.Channels.Overwrites.{set_overwrites-same}
use aural_server.Server.{Server, Session, Event, no_value}
use aural_server.Server.Table.{
  SameTable, SameTable-refl, SameTable-trans, Leaves, LeavesCall, query-SameTable,
  Leaves-broadcast_to, LeavesTable-bind, LeavesTable-check, LeavesTable-pure, LeavesTable-act,
  LeavesTable-attempt, LeavesCall-query, Leaves-broadcast, Leaves-audit, LeavesCall-write,
  LeavesCall-reload,
}
use aural_server.Server.Sync.{broadcast_user_moved}
use aural_server.Server.Sync.Table.{Leaves-resync_all, Leaves-evict_unreachable}
use aural_server.Channels.Handlers.{
  broadcast_channel_event, save_overwrites, resync_or_announce, close_rooms, evict_from,
  evict_each_from, evict_from_channels,
}

pub Leaves-event : (e : Event) (id : ℕ) → Leaves (broadcast_channel_event e id)
unfolding broadcast_channel_event
Leaves-event e id = record { at = λ s. (Leaves-broadcast_to e _).at s }

pub Leaves-announce : (b : Bool) (c : Channel) → Leaves (resync_or_announce b c)
unfolding resync_or_announce
Leaves-announce true c = Leaves-resync_all
Leaves-announce false c = record { at = λ s. (Leaves-event _ c.id).at s }

pub Leaves-close_rooms : (removed : List ℕ) → Leaves (close_rooms removed)
unfolding close_rooms
Leaves-close_rooms removed = record {
  at = λ s. record { same_rows = refl; same_next = refl; agrees = λ t a. a };
}

evict_from-SameTable :
    (removed : List ℕ) (session : Session) (o : Option ℕ) (s : Server)
    → SameTable s (evict_from removed session o s)
unfolding evict_from broadcast_user_moved
evict_from-SameTable removed session none s = SameTable-refl s
evict_from-SameTable removed session (some current) s =
    elim (Bool-cases (contains removed current)) [
      | inl goes ↦ record {
        same_rows = rw goes refl;
        same_next = rw goes refl;
        agrees = rw goes (λ t a. a);
      }
      | inr stays ↦ record {
        same_rows = rw stays refl;
        same_next = rw stays refl;
        agrees = rw stays (λ t a. a);
      }
    ]

evict_each_from-SameTable :
    (removed : List ℕ) (sessions : List Session) (s : Server)
    → SameTable s (evict_each_from removed sessions s)
unfolding evict_each_from
evict_each_from-SameTable removed [] s = SameTable-refl s
evict_each_from-SameTable removed (session ∷ rest) s =
    SameTable-trans (evict_from-SameTable removed session session.channel_id s)
      (evict_each_from-SameTable removed rest _)

pub Leaves-evict_from_channels : (removed : List ℕ) → Leaves (evict_from_channels removed)
unfolding evict_from_channels
Leaves-evict_from_channels removed = record {
  at = λ s. evict_each_from-SameTable removed s.sessions s;
}

saved-same :
    (db db' : Db) (id : ℕ) (list : List Overwrite) (u : Unit {0})
    → no_value (set_overwrites db id list) ≡ done (db', u)
    → set_overwrites db id list ≡ done db'
saved-same db db' id list u e = ground (arith, e)

pub LeavesCall-save : (id : ℕ) (o : Option (List Overwrite)) → LeavesCall (save_overwrites id o)
unfolding save_overwrites
LeavesCall-save id none = record { at = λ s. SameTable-refl s }
LeavesCall-save id (some list) =
    LeavesCall-write (λ db. no_value (set_overwrites db id list))
      (λ db db' u e. set_overwrites-same db db' id list (saved-same db db' id list u e))

pub ruleset table_rules = (
  LeavesTable-bind, LeavesTable-check, LeavesTable-pure, LeavesTable-act, LeavesTable-attempt,
  LeavesCall-query, LeavesCall-reload, LeavesCall-save, Leaves-broadcast, Leaves-audit,
  Leaves-event, Leaves-announce, Leaves-close_rooms, Leaves-evict_from_channels,
  Leaves-evict_unreachable,
)
