-- ===== src/Channels/Handlers.antt =====
-- The handlers of internal/gateway/handlers_channel.go as they run: the checks, the store, the cache,
-- the frames and the audit log, in the order of the source. The files of deleted messages, which are
-- read and removed beside, are not modelled; reading them may fail.
pub mod Table
pub mod Tree
use aural_server.Base.{
  ℕ, String, Bool, true, false, Option, none, some, List, [], ◌∷◌, ◌++◌, ◌==◌, if◌then◌else◌,
  contains, length,
}
use aural_server.Text.{Text, format_uint}
use aural_server.Permissions.{Overwrite}
use aural_server.Hub.{
  Hub, Channel, ChannelType, category_channel, text_channel, voice_channel, announcement_channel,
  forum_channel, media_channel, calendar_channel, reload_channels,
}
use aural_server.Protocol.{Result, ok}
use aural_server.Store.{Db, ChannelRow, AuditEntry, AuditChange, Outcome, done, missing, broken}
use aural_server.Store.Channels.{
  all_channels, create_channel, update_channel, set_overwrites, delete_channel, descendant_ids,
}
use aural_server.Server.{
  Server, Session, Handler, Event, channel_created, channel_updated, channel_deleted, query, write,
  no_value, broadcast, broadcast_to, audit, reload_tree,
}
use aural_server.Server.Exec.{◌>>=◌, ◌>>◌, pure, check, act, attempt}
use aural_server.Server.Sync.{
  resync_all, evict_unreachable, put_session, broadcast_user_moved, session_can_view,
}
use aural_server.Roles.Handlers.{audit_target, changed}
use aural_server.Channels.{
  ChannelCreateRequest, ChannelUpdateRequest, ChannelPatch, check_channel_create,
  check_channel_update, check_channel_delete,
}

-- `BroadcastChannelEvent`.
unfoldable pub broadcast_channel_event : Event → ℕ → Server → Server
broadcast_channel_event e channel_id s =
    broadcast_to e (λ viewer. session_can_view s.hub viewer channel_id) s

type_name : ChannelType → Text
type_name category_channel = b'c' ∷ b'a' ∷ b't' ∷ b'e' ∷ b'g' ∷ b'o' ∷ b'r' ∷ b'y' ∷ []
type_name text_channel = b't' ∷ b'e' ∷ b'x' ∷ b't' ∷ []
type_name voice_channel = b'v' ∷ b'o' ∷ b'i' ∷ b'c' ∷ b'e' ∷ []
type_name announcement_channel =
    b'a' ∷ b'n' ∷ b'n' ∷ b'o' ∷ b'u' ∷ b'n' ∷ b'c' ∷ b'e' ∷ b'm' ∷ b'e' ∷ b'n' ∷ b't' ∷ []
type_name forum_channel = b'f' ∷ b'o' ∷ b'r' ∷ b'u' ∷ b'm' ∷ []
type_name media_channel = b'm' ∷ b'e' ∷ b'd' ∷ b'i' ∷ b'a' ∷ []
type_name calendar_channel = b'c' ∷ b'a' ∷ b'l' ∷ b'e' ∷ b'n' ∷ b'd' ∷ b'a' ∷ b'r' ∷ []

-- `channelView` of a row that was just inserted.
new_channel : ChannelRow → Channel
new_channel c = record {
  id = c.id;
  parent_id = c.parent_id;
  name = c.name;
  type = c.type;
  topic = c.topic;
  position = c.position;
  user_limit = c.user_limit;
  overwrites = [];
}

-- `handleChannelCreate`.
unfoldable pub handle_channel_create : Session → Option ChannelCreateRequest → Handler Channel
unfolding type_name new_channel
handle_channel_create actor raw = do
  c ← check (λ s. check_channel_create s.hub actor raw)
  created ← attempt "" "the server failed to create the channel" (write (λ db. create_channel db c))
  attempt "" "the server failed to reload the channel tree" reload_tree
  act (broadcast_channel_event (channel_created (new_channel created)) created.id)
  act (
      audit actor (record (audit_target "channel.create" "channel" created.id created.name) {
        changes = record { key = "type"; before = []; after = type_name created.type } ∷ [];
      }))
  pure (new_channel created)

-- The columns that `UpdateChannel` takes from a channel.
row_of : Channel → ChannelRow
row_of c = record {
  id = c.id;
  parent_id = c.parent_id;
  name = c.name;
  type = c.type;
  topic = c.topic;
  position = c.position;
  user_limit = c.user_limit;
}

pub save_overwrites : ℕ → Option (List Overwrite) → Server → Outcome (Unit {0}) × Server
save_overwrites id none s = (done tt, s)
save_overwrites id (some list) s = write (λ db. no_value (set_overwrites db id list)) s

pub resync_or_announce : Bool → Channel → Server → Server
resync_or_announce true c s = resync_all s
resync_or_announce false c s = broadcast_channel_event (channel_updated c) c.id s

update_changes : Channel → ChannelPatch → List AuditChange
update_changes before p =
    let named = changed [] "name" before.name p.after.name in
    let told = changed named "topic" before.topic p.after.topic in
    if p.needs_resync
    then told
      ++ record {
        key = "permissions";
        before = [];
        after = b'c' ∷ b'h' ∷ b'a' ∷ b'n' ∷ b'g' ∷ b'e' ∷ b'd' ∷ [];
      }
        ∷ []
    else told

-- `handleChannelUpdate`.
unfoldable pub handle_channel_update : Session → Option ChannelUpdateRequest → Handler Channel
unfolding row_of save_overwrites resync_or_announce update_changes
handle_channel_update actor raw = do
  checked ← check (λ s. check_channel_update s.hub actor raw)
  let before = checked.0
  let patch = checked.1
  let after = patch.after
  attempt "" "the server failed to save the channel permissions"
      (save_overwrites after.id patch.overwrites)
  attempt "no such channel" "the server failed to update the channel"
      (write (λ db. no_value (update_channel db (row_of after))))
  attempt "" "the server failed to reload the channel tree" reload_tree
  act (resync_or_announce patch.needs_resync after)
  act evict_unreachable
  act (
      audit actor (record (audit_target "channel.update" "channel" after.id after.name) {
        changes = update_changes before patch;
      }))
  pure after

-- The rooms of deleted channels.
pub close_rooms : List ℕ → Server → Server
close_rooms removed s = record s { closed_voice = s.closed_voice ++ removed }

-- One session that sits in a channel which may be gone.
evict_from : List ℕ → Session → Option ℕ → Server → Server
evict_from removed session none s = s
evict_from removed session (some current) s =
    if contains removed current
    then broadcast_user_moved session.user.id (some current) none (record s {
      left_voice = s.left_voice ++ (session.user.id, current) ∷ [];
      sessions = put_session (record session { channel_id = none }) s.sessions;
    })
    else s

evict_each_from : List ℕ → List Session → Server → Server
unfolding evict_from contains
evict_each_from removed [] s = s
evict_each_from removed (session ∷ rest) s =
    evict_each_from removed rest (evict_from removed session session.channel_id s)

-- `evictFromChannels`.
unfoldable pub evict_from_channels : List ℕ → Server → Server
unfolding evict_each_from
evict_from_channels removed s = evict_each_from removed s.sessions s

-- How many channels went with the one that was deleted.
also_deleted : List ℕ → List AuditChange
also_deleted [] = []
also_deleted (id ∷ rest) =
    record {
      key = "alsoDeleted";
      before = [];
      after =
          format_uint (length (id ∷ rest))
          ++ (32 ∷ b'i' ∷ b'n' ∷ b's' ∷ b'i' ∷ b'd' ∷ b'e' ∷ 32 ∷ b'i' ∷ b't' ∷ []);
    }
    ∷ []

-- `handleChannelDelete`.
unfoldable pub handle_channel_delete : Session → Option ℕ → Handler (ℕ × List ℕ)
unfolding close_rooms also_deleted
handle_channel_delete actor raw = do
  existing ← check (λ s. check_channel_delete s.hub actor raw)
  doomed ←
      attempt "" "the server failed to delete the channel"
        (query (λ db. done (descendant_ids db existing.id)))
  attempt "" "the server failed to delete the channel" (query (λ db. done tt))
  cascaded ←
      attempt "no such channel" "the server failed to delete the channel"
        (write (λ db. delete_channel db existing.id))
  attempt "" "the server failed to reload the channel tree" reload_tree
  act (close_rooms (existing.id ∷ cascaded))
  act (evict_from_channels (existing.id ∷ cascaded))
  act (broadcast (channel_deleted existing.id cascaded))
  act (
      audit actor (record (audit_target "channel.delete" "channel" existing.id existing.name) {
        changes = also_deleted cascaded;
      }))
  pure (existing.id, cascaded)

-- The requests that change the tree, as `dispatch` tells them apart.
pub data ChannelRequest : Type 0 where
  channel_create : Option ChannelCreateRequest → ChannelRequest
  channel_update : Option ChannelUpdateRequest → ChannelRequest
  channel_delete : Option ℕ → ChannelRequest

-- The reply to each, without its payload.
unfoldable pub handle_channel_request : Session → ChannelRequest → Handler (Unit {0})
handle_channel_request actor (channel_create raw) = handle_channel_create actor raw >>= λ _. pure tt
handle_channel_request actor (channel_update raw) = handle_channel_update actor raw >>= λ _. pure tt
handle_channel_request actor (channel_delete raw) = handle_channel_delete actor raw >>= λ _. pure tt
