-- ===== src/Channels.antt =====
-- internal/gateway/handlers_channel.go: creating, editing and deleting channels. Here are the checks
-- of each handler, up to what it hands to the store; `Channels.Handlers` runs them.
pub mod Handlers
pub mod Checked
pub mod Depth
pub mod Granted
mod Tests
use text.Mathlib.Text.{◌==◌ as str_eq}
use aural_server.Base.{
  ℕ, zero, suc, String, Bool, true, false, not, ◌&&◌, ◌||◌, Option, none, some, List, [], ◌∷◌, leb,
  ◌==◌, if◌then◌else◌,
}
use aural_server.Base.Bits.{bit_clear}
use aural_server.Base.Int.{ℤ, pos, negsuc}
use aural_server.Text.{Text}
use aural_server.Permissions.{
  Permission, Overwrite, has, parse, manage_channels, manage_roles, view_channel,
}
use aural_server.Hub.{
  Hub, Channel, ChannelType, category_channel, text_channel, voice_channel, announcement_channel,
  forum_channel, media_channel, calendar_channel, is_category, channel, role, channel_permissions,
  max_channel_depth,
}
use aural_server.Protocol.{
  Result, ok, err, refuse, bad_request, forbidden, not_found, ◌>>=◌, ◌>>◌, require, require_some,
}
use aural_server.Validate.{validate_channel_name, validate_topic}
use aural_server.Store.{ChannelRow}
use aural_server.Server.{Session}

-- `ChannelCreateRequest`.
pub record ChannelCreateRequest : Type 0 where
  pub name : Text
  pub type : String
  pub parent_id : Option ℕ
  pub topic : Text
  pub position : Option ℤ
  pub user_limit : ℤ

-- `Overwrite` as a client sends it.
pub record WireOverwrite : Type 0 where
  pub role_id : ℕ
  pub allow : Text
  pub deny : Text

-- `ChannelUpdateRequest`; an absent field is `none`, and `some none` for the parent is the root.
pub record ChannelUpdateRequest : Type 0 where
  pub channel_id : ℕ
  pub name : Option Text
  pub topic : Option Text
  pub parent_id : Option (Option ℕ)
  pub position : Option ℤ
  pub user_limit : Option ℤ
  pub overwrites : Option (List WireOverwrite)

-- A request whose payload does not decode is refused before anything is read.
abbrev decoded {ℓ} : {A : Type ℓ} → Option A → Result A
decoded raw = require_some raw bad_request "payload does not match the shape this op expects"

post_channel_type : String → Option ChannelType
post_channel_type kind =
    if str_eq kind "announcement"
    then some announcement_channel
    else if str_eq kind "forum"
    then some forum_channel
    else if str_eq kind "media"
    then some media_channel
    else if str_eq kind "calendar"
    then some calendar_channel
    else none

channel_type : String → Option ChannelType
unfolding post_channel_type
channel_type kind =
    if str_eq kind "category"
    then some category_channel
    else if str_eq kind "text"
    then some text_channel
    else if str_eq kind "voice"
    then some voice_channel
    else post_channel_type kind

-- `validateChannelType`, with the type that the name stands for.
unfoldable pub validate_channel_type : String → Result ChannelType
unfolding channel_type
validate_channel_type kind =
    require_some (channel_type kind) bad_request
      "channel type must be category, text, voice, announcement, forum, media or calendar"

-- The permissions at a point in the tree; the root is governed by the server-wide mask.
mask_at : Hub → Session → Option ℕ → Result Permission
mask_at h s none = ok s.base
mask_at h s (some id) = do
  let perms = channel_permissions h s.base s.role_ids id
  require (has perms view_channel) not_found "no such channel"
  ok perms

-- `requireChannelPermission`.
unfoldable pub require_channel_permission :
    Hub → Session → Option ℕ → Permission → Result (Unit {0})
unfolding mask_at
require_channel_permission h s id want = do
  perms ← mask_at h s id
  require (has perms want) forbidden "you are not allowed to do that here"

-- A parent for what is no category.
under_category : Hub → Option ℕ → Result (Unit {0})
under_category h none = ok tt
under_category h (some id) = do
  parent ← require_some (channel h id) not_found "no such parent channel"
  require (is_category parent.type) bad_request "a channel can only be placed inside a category"

at_root : Option ℕ → Bool
at_root none = true
at_root (some id) = false

-- `validateParent`.
unfoldable pub validate_parent : Hub → ChannelType → Option ℕ → Result (Unit {0})
unfolding under_category at_root
validate_parent h type parent_id =
    if is_category type
    then require (at_root parent_id) bad_request "categories cannot be nested"
    else under_category h parent_id

parent_of : Option Channel → Option ℕ
parent_of none = none
parent_of (some c) = c.parent_id

-- The loop of `rejectParentCycle`, for so many rounds.
climb : ℕ → Hub → ℕ → ℕ → Result (Unit {0})
unfolding parent_of
climb zero h channel_id id = refuse bad_request "the channel tree is nested too deeply"
climb (suc rounds) h channel_id id =
    if id == channel_id
    then refuse bad_request "that move would put the channel inside itself"
    else elim (parent_of (channel h id)) [
      | none ↦ ok tt
      | some parent ↦ climb rounds h channel_id parent
    ]

-- `rejectParentCycle`.
unfoldable pub reject_parent_cycle : Hub → ℕ → Option ℕ → Result (Unit {0})
unfolding climb
reject_parent_cycle h channel_id none = ok tt
reject_parent_cycle h channel_id (some id) = climb max_channel_depth h channel_id id

-- A limit of people in a channel.
user_limit : ℤ → Result ℕ
user_limit (negsuc n) = refuse bad_request "user limit must be between 0 and 1000"
user_limit (pos n) = do
  require (leb n 1000) bad_request "user limit must be between 0 and 1000"
  ok n

or_zero : Option ℤ → ℤ
or_zero none = pos 0
or_zero (some position) = position

-- `handleChannelCreate` up to `CreateChannel`: the row to insert.
unfoldable pub check_channel_create :
    Hub → Session → Option ChannelCreateRequest → Result ChannelRow
unfolding user_limit or_zero
check_channel_create h actor raw = do
  req ← decoded raw
  type ← validate_channel_type req.type
  name ← validate_channel_name req.name
  topic ← validate_topic req.topic
  limit ← user_limit req.user_limit
  require_channel_permission h actor req.parent_id manage_channels
  validate_parent h type req.parent_id
  ok (record {
    id = 0;
    parent_id = req.parent_id;
    name = name;
    type = type;
    topic = topic;
    position = or_zero req.position;
    user_limit = limit;
  })

role_exists : Hub → ℕ → Bool
role_exists h id = elim (role h id) [ none ↦ false | some r ↦ true ]

-- `overwritesFromView`: an allow wins over a deny of the same bit.
unfoldable pub overwrites_from_view : Hub → List WireOverwrite → Result (List Overwrite)
unfolding role_exists
overwrites_from_view h [] = ok []
overwrites_from_view h (ow ∷ rest) = do
  require (role_exists h ow.role_id) not_found "overwrite refers to unknown role"
  allow ←
      require_some (parse ow.allow) bad_request
        "overwrite allow mask is not a decimal permission string"
  deny ←
      require_some (parse ow.deny) bad_request
        "overwrite deny mask is not a decimal permission string"
  later ← overwrites_from_view h rest
  ok (record { role_id = ow.role_id; allow = allow; deny = bit_clear deny allow } ∷ later)

-- Nothing but what the caller holds.
pub all_held : Permission → List Overwrite → Bool
all_held base [] = true
all_held base (ow ∷ rest) =
    let later = all_held base rest in has base ow.allow && has base ow.deny && later

-- The channel as it is patched, what takes the place of its overwrites, and whether the change can
-- alter who sees it.
pub record ChannelPatch : Type 0 where
  pub after : Channel
  pub overwrites : Option (List Overwrite)
  pub needs_resync : Bool

patch_channel_name : Option Text → Channel → Result Channel
patch_channel_name none c = ok c
patch_channel_name (some raw) c = do name ← validate_channel_name raw; ok (record c { name = name })

patch_topic : Option Text → Channel → Result Channel
patch_topic none c = ok c
patch_topic (some raw) c = do topic ← validate_topic raw; ok (record c { topic = topic })

patch_place : Option ℤ → Channel → Channel
patch_place none c = c
patch_place (some position) c = record c { position = position }

patch_limit : Option ℤ → Channel → Result Channel
unfolding user_limit
patch_limit none c = ok c
patch_limit (some raw) c = do limit ← user_limit raw; ok (record c { user_limit = limit })

patch_parent : Hub → Session → Option (Option ℕ) → Channel → Result ChannelPatch
patch_parent h actor none c = ok (record { after = c; overwrites = none; needs_resync = false })
patch_parent h actor (some parent) c = do
  validate_parent h c.type parent
  reject_parent_cycle h c.id parent
  require_channel_permission h actor parent manage_channels
  ok (record { after = record c { parent_id = parent }; overwrites = none; needs_resync = true })

patch_overwrites : Hub → Session → Option (List WireOverwrite) → ChannelPatch → Result ChannelPatch
unfolding all_held
patch_overwrites h actor none p = ok p
patch_overwrites h actor (some raw) p = do
  require (has actor.base manage_roles) forbidden "editing channel permissions needs ManageRoles"
  list ← overwrites_from_view h raw
  require (all_held actor.base list) forbidden "an overwrite touches a permission you do not hold"
  ok (record {
    after = record p.after { overwrites = list };
    overwrites = some list;
    needs_resync = true;
  })

-- `handleChannelUpdate` up to its writes: the channel as it stood, and the patch.
unfoldable pub check_channel_update :
    Hub → Session → Option ChannelUpdateRequest → Result (Channel × ChannelPatch)
unfolding patch_channel_name patch_topic patch_place patch_limit patch_parent patch_overwrites
check_channel_update h actor raw = do
  req ← decoded raw
  current ← require_some (channel h req.channel_id) not_found "no such channel"
  require_channel_permission h actor (some req.channel_id) manage_channels
  named ← patch_channel_name req.name current
  told ← patch_topic req.topic named
  limited ← patch_limit req.user_limit (patch_place req.position told)
  moved ← patch_parent h actor req.parent_id limited
  patch ← patch_overwrites h actor req.overwrites moved
  ok (current, patch)

-- `handleChannelDelete` up to its first read: the channel to remove.
unfoldable pub check_channel_delete : Hub → Session → Option ℕ → Result Channel
check_channel_delete h actor raw = do
  channel_id ← decoded raw
  existing ← require_some (channel h channel_id) not_found "no such channel"
  require_channel_permission h actor (some channel_id) manage_channels
  ok existing
