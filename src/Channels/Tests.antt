-- ===== src/Channels/Tests.antt =====
-- Tests of internal/gateway/handlers_channel.go and internal/store/channels.go as they are modelled in
-- `Channels` and `Store.Channels`.
use aural_server.Base.{
  ℕ, ◌≡◌, refl, true, none, some, List, [], ◌∷◌, contains, All, ◌||◌, ◌==◌, if◌then◌else◌,
}
use aural_server.Text.{trim_space, parse_uint}
use aural_server.Permissions.{
  Overwrite, has, view_channel, manage_roles, resolve_in_channel, parse, all,
}
use aural_server.Hub.{
  Hub, Channel, text_channel, channel, channel_permissions, is_category, reload_channels, role,
}
use aural_server.Protocol.{ok}
use aural_server.Store.{Db, done}
use aural_server.Store.MessageRows.{cascade_channels}
use aural_server.Store.Channels.{
  channel_row, delete_channel, descendant_ids, children_of, all_channels, attach_overwrites,
  overwrites_for,
}
use aural_server.Store.Channels.Tree.{IsTree, snoc-IsTree, fits, is_root_category, row_ids}
use aural_server.Store.Channels.Sound.{IsSound, all_below}
use aural_server.Store.Channels.Subtree.{descendant_ids_lem}
use aural_server.Store.Channels.Delete.{delete_channel_lem}
use aural_server.Store.Channels.Cached.{Agrees, reload_channels-Agrees, reload_channels_lem, loaded}
use aural_server.Server.{Server, Session}
use aural_server.Server.Settled.{Settled}
use aural_server.Channels.{
  ChannelUpdateRequest, ChannelPatch, check_channel_update, validate_parent, reject_parent_cycle,
  require_channel_permission, overwrites_from_view,
}
use aural_server.Channels.Depth.{channel_permissions-tree, reject_parent_cycle-ok}
use aural_server.Channels.Granted.{IsGranted, check_channel_update-IsGranted}
use aural_server.Channels.Handlers.{handle_channel_request, channel_delete}
use aural_server.Channels.Handlers.Tree.{
  handle_channel_request-IsSound, handle_channel_request-Settled,
}
use aural_server.Fixtures.{
  small_hub, small_db, moderator, staff_category_row, staff_text_row, staff_text,
}

no_channels : IsTree []
unfolding row_ids channel_row
no_channels = record { distinct = tt; fitting = λ id c f. cc }

small-IsTree : IsTree small_db.channels
unfolding contains row_ids fits is_root_category channel_row
small-IsTree =
    snoc-IsTree staff_text_row (staff_category_row ∷ [])
      (snoc-IsTree staff_category_row [] no_channels refl refl) refl refl

small_IsSound : IsSound small_db
unfolding all_below
small_IsSound = record { tree = small-IsTree; given = refl }

-- The moderator may also manage channels here.
abbrev keeper : Session
keeper = record moderator { base = 2147483648 }

abbrev loaded_hub : Hub
loaded_hub = reload_channels small_hub (all_channels small_db)

small_Agrees : Agrees loaded_hub small_db.channels
small_Agrees = reload_channels-Agrees small_hub small_db small-IsTree

abbrev small_server : Server
small_server = record {
  db = small_db;
  hub = loaded_hub;
  sessions = moderator ∷ [];
  outbox = [];
  left_voice = [];
  closed_voice = [];
  relayed = [];
  removed_files = [];
  faults = [];
}

handle_channel_request-IsSound_example :
    IsSound (handle_channel_request keeper (channel_delete (some 10)) small_server).1.db
handle_channel_request-IsSound_example =
    handle_channel_request-IsSound keeper (channel_delete (some 10)) small_server small_IsSound
      small_Agrees

handle_channel_request-Settled_example :
    Settled (handle_channel_request keeper (channel_delete (some 10)) small_server)
handle_channel_request-Settled_example =
    handle_channel_request-Settled keeper (channel_delete (some 10)) small_server small_IsSound
      small_Agrees

-- What is left when the category goes: nothing, since the other channel stood in it.
abbrev emptied : Db
emptied = record small_db { channels = []; channel_overwrites = [] }

category_gone : delete_channel small_db 10 ≡ done (emptied, 11 ∷ [])
unfolding delete_channel descendant_ids cascade_channels
category_gone = refl

delete_channel_lem_example :
    IsTree emptied.channels
    × ((k : ℕ)
        → channel_row emptied.channels k ≡ (
            if 10 == k || contains (children_of (10 ∷ []) small_db.channels) k
            then none
            else channel_row small_db.channels k))
delete_channel_lem_example =
    delete_channel_lem small_db emptied 10 (11 ∷ []) small-IsTree category_gone

descendant_ids_lem_example : descendant_ids small_db 10 ≡ 11 ∷ []
unfolding children_of contains
descendant_ids_lem_example = descendant_ids_lem small_db 10 small-IsTree

reload_channels_lem_example : channel loaded_hub 11 ≡ some staff_text
unfolding loaded channel_row attach_overwrites overwrites_for
reload_channels_lem_example = reload_channels_lem small_hub small_db 11 small-IsTree.distinct

channel_permissions-tree_example :
    (category : Channel) × (channel loaded_hub 10 ≡ some category)
    × (channel_permissions loaded_hub 15 (1 ∷ 2 ∷ []) 11 ≡ (
        let above = resolve_in_channel 15 1 (1 ∷ 2 ∷ []) category.overwrites in
        if above == 0 then 0 else resolve_in_channel above 1 (1 ∷ 2 ∷ []) []))
unfolding reload_channels
channel_permissions-tree_example =
    channel_permissions-tree loaded_hub small_db.channels small-IsTree small_Agrees 15 (1 ∷ 2 ∷ [])
      11 10 staff_text reload_channels_lem_example refl

may_stand : validate_parent loaded_hub text_channel (some 10) ≡ ok tt
unfolding validate_parent channel reload_channels all_channels is_category attach_overwrites
may_stand = refl

reject_parent_cycle-ok_example : reject_parent_cycle loaded_hub 11 (some 10) ≡ ok tt
reject_parent_cycle-ok_example =
    reject_parent_cycle-ok loaded_hub small_db.channels small-IsTree small_Agrees staff_text
      (some 10) reload_channels_lem_example may_stand

-- Hides the channel from the everyone role.
abbrev hiding : ChannelUpdateRequest
hiding = record {
  channel_id = 11;
  name = none;
  topic = none;
  parent_id = none;
  position = none;
  user_limit = none;
  overwrites = some (record { role_id = 1; allow = []; deny = b'1' ∷ [] } ∷ []);
}

abbrev hidden : List Overwrite
hidden = record { role_id = 1; allow = 0; deny = view_channel } ∷ []

abbrev hidden_patch : ChannelPatch
hidden_patch = record {
  after = record staff_text { overwrites = hidden };
  overwrites = some hidden;
  needs_resync = true;
}

hide : check_channel_update small_hub keeper (some hiding) ≡ ok (staff_text, hidden_patch)
unfolding check_channel_update channel require_channel_permission has channel_permissions
    resolve_in_channel all overwrites_from_view role parse trim_space parse_uint
hide = refl

check_channel_update-IsGranted_example :
    (has keeper.base manage_roles ≡ true) × All (IsGranted keeper.base) hidden
check_channel_update-IsGranted_example =
    check_channel_update-IsGranted small_hub keeper (some hiding) staff_text hidden_patch hidden
      hide refl
