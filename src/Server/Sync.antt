-- ===== src/Server/Sync.antt =====
-- Bringing the sessions up to date after a change: `refreshPermissions` of
-- internal/gateway/session.go, `resyncAll` and `evictFromUnreachableChannels` of
-- internal/gateway/handlers_channel.go, and `broadcastUserMoved` of
-- internal/gateway/handlers_user.go.
pub mod Table
use text.Mathlib.Text.{◌==◌ as str_eq}
use aural_server.Base.{
  ℕ, String, Bool, true, false, not, ◌&&◌, ◌||◌, Option, none, some, List, [], ◌∷◌, ◌++◌, ◌==◌,
  if◌then◌else◌,
}
use aural_server.Permissions.{has, connect, view_channel}
use aural_server.Hub.{Hub, effective_role_ids, permissions_for, channel_permissions}
use aural_server.Store.{Outcome, done, missing, broken, role_ids_for_user}
use aural_server.Server.{Server, Session, Sent, ready, user_moved, query}

pub put_session : Session → List Session → List Session
put_session new [] = []
put_session new (s ∷ rest) = if s.id == new.id then new ∷ rest else s ∷ put_session new rest

refreshed : Session → Outcome (List ℕ) × Server → Bool × Server
unfolding put_session
refreshed session (done explicit, s) =
    let ids = effective_role_ids s.hub session.user explicit in
    let session' = record session {
      role_ids = ids;
      base = permissions_for s.hub session.user.id ids;
    } in
    (true, record s { sessions = put_session session' s.sessions })
refreshed session (missing, s) = (false, s)
refreshed session (broken, s) = (false, s)

-- `refreshPermissions`: whether it succeeded, and the state with the session brought up to date.
unfoldable pub refresh_permissions : Session → Server → Bool × Server
unfolding refreshed query
refresh_permissions session s =
    refreshed session (query (λ db. done (role_ids_for_user db session.user.id)) s)

send_ready : Session → Outcome (Unit {0}) × Server → Server
send_ready session (done _, s) = record s {
  outbox = s.outbox ++ record { to = session.id; event = ready } ∷ [];
}
send_ready session (missing, s) = s
send_ready session (broken, s) = s

-- The snapshot of `buildReady` reads the database, and is not sent if that fails.
resync : Session → Bool × Server → Server
unfolding send_ready query
resync session (true, s) = send_ready session (query (λ db. done tt) s)
resync session (false, s) = s

resync_each : List Session → Server → Server
unfolding resync refresh_permissions
resync_each [] s = s
resync_each (session ∷ rest) s = resync_each rest (resync session (refresh_permissions session s))

-- `resyncAll`.
unfoldable pub resync_all : Server → Server
unfolding resync_each
resync_all s = resync_each s.sessions s

-- `HidesPresence`.
unfoldable pub hides_presence : String → Bool
hides_presence status = str_eq status "invisible" || str_eq status "offline"

-- `SessionCanView`.
unfoldable pub session_can_view : Hub → Session → ℕ → Bool
session_can_view h s channel_id =
    has (channel_permissions h s.base s.role_ids channel_id) view_channel

-- `maskChannel`.
unfoldable pub mask_channel : Hub → Session → Option ℕ → Option ℕ
mask_channel h s none = none
mask_channel h s (some id) = if session_can_view h s id then some id else none

find_session : List Session → ℕ → Option Session
find_session [] user_id = none
find_session (s ∷ rest) user_id = if s.user.id == user_id then some s else find_session rest user_id

-- `SessionForUser`.
unfoldable pub session_for_user : Server → ℕ → Option Session
unfolding find_session
session_for_user s user_id = find_session s.sessions user_id

status_hidden : Option Session → Bool
status_hidden none = false
status_hidden (some s) = hides_presence s.user.status

is_none : Option ℕ → Bool
is_none none = true
is_none (some n) = false

moved_frames : Hub → Bool → ℕ → Option ℕ → Option ℕ → List Session → List Sent
unfolding is_none mask_channel
moved_frames h hidden user_id from to [] = []
moved_frames h hidden user_id from to (s ∷ rest) =
    let later = moved_frames h hidden user_id from to rest in
    let visible_from = mask_channel h s from in
    let visible_to = mask_channel h s to in
    let other = not (s.user.id == user_id) in
    if hidden && other
    then later
    else if is_none visible_from && is_none visible_to && other
    then later
    else record { to = s.id; event = user_moved user_id visible_from visible_to } ∷ later

-- `broadcastUserMoved`.
unfoldable pub broadcast_user_moved : ℕ → Option ℕ → Option ℕ → Server → Server
unfolding moved_frames status_hidden session_for_user
broadcast_user_moved user_id from to s =
    let hidden = status_hidden (session_for_user s user_id) in
    record s { outbox = s.outbox ++ moved_frames s.hub hidden user_id from to s.sessions }

-- One session whose channel it may no longer be in. The call of `leaveVoice` is noted for the voice
-- rooms.
evict : Session → Option ℕ → Server → Server
unfolding put_session broadcast_user_moved
evict session none s = s
evict session (some current) s =
    if has (channel_permissions s.hub session.base session.role_ids current) connect
    then s
    else broadcast_user_moved session.user.id (some current) none (record s {
      left_voice = s.left_voice ++ (session.user.id, current) ∷ [];
      sessions = put_session (record session { channel_id = none }) s.sessions;
    })

evict_each : List Session → Server → Server
unfolding evict
evict_each [] s = s
evict_each (session ∷ rest) s = evict_each rest (evict session session.channel_id s)

-- `evictFromUnreachableChannels`.
unfoldable pub evict_unreachable : Server → Server
unfolding evict_each
evict_unreachable s = evict_each s.sessions s
