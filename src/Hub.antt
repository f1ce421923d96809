-- ===== src/Hub.antt =====
-- internal/gateway/hub.go with the rows of internal/store that it caches: roles, channels and the
-- owner, and what they let an identity do. A Go map by id is the list of its values, looked up by
-- id; `none` is a nil pointer, and the id 0 is "nobody", as in the source.
pub mod Effective
pub mod Rank
pub mod Inherit
pub mod TwoLevels
pub mod Stack
mod Tests
use aural_server.Base.{
  ℕ, zero, suc, ◌-◌, ◌^◌, String, Bool, true, false, not, ◌&&◌, ◌||◌, Option, none, some, List, [],
  ◌∷◌, ◌++◌, map, ltb, leb, ◌==◌, if◌then◌else◌, contains,
}
use aural_server.Base.Int.{ℤ}
use aural_server.Text.{Text}
use aural_server.Permissions.{Permission, Overwrite, resolve, resolve_in_channel, all, has}
use aural_server.Permissions

-- The kinds of managed role; `unmanaged` is the empty string.
pub data Managed : Type 0 where
  unmanaged everyone registered admin : Managed

-- `Managed == ManagedNone`.
unfoldable pub is_unmanaged : Managed → Bool
is_unmanaged m = elim m [ unmanaged ↦ true | _ ↦ false ]

-- `store.Role`.
pub record Role : Type 0 where
  pub id : ℕ
  pub name : Text
  pub color : Text
  pub permissions : Permission
  pub position : ℕ
  pub hoist : Bool
  pub managed : Managed
  pub created_at : ℕ

-- `Role.AutoAssigned`.
unfoldable pub auto_assigned : Role → Bool
auto_assigned r = elim r.managed [ everyone ↦ true | registered ↦ true | _ ↦ false ]

-- `Channel.Type`.
pub data ChannelType : Type 0 where
  category_channel text_channel voice_channel : ChannelType
  announcement_channel forum_channel media_channel calendar_channel : ChannelType

-- `== protocol.ChannelCategory`.
unfoldable pub is_category : ChannelType → Bool
is_category t = elim t [ category_channel ↦ true | _ ↦ false ]

-- `store.Channel`, without the time that the table gives it.
pub record Channel : Type 0 where
  pub id : ℕ
  pub parent_id : Option ℕ
  pub name : Text
  pub type : ChannelType
  pub topic : Text
  pub position : ℤ
  pub user_limit : ℕ
  pub overwrites : List Overwrite

-- `store.User`, as far as permissions and presence read it: the username of a guest is `none`.
pub record User : Type 0 where
  pub id : ℕ
  pub nickname : Text
  pub username : Option Text
  pub status : String

-- `User.Registered`.
unfoldable pub is_registered : User → Bool
is_registered u = elim u.username [ none ↦ false | some name ↦ true ]

-- The cached part of `Hub`.
pub record Hub : Type 0 where
  pub roles : List Role
  pub everyone_id : ℕ
  pub registered_id : ℕ
  pub admin_id : ℕ
  pub owner_id : ℕ
  pub channels : List Channel

find_role : List Role → ℕ → Option Role
find_role [] id = none
find_role (r ∷ rest) id = if r.id == id then some r else find_role rest id

-- `Hub.Role`.
unfoldable pub role : Hub → ℕ → Option Role
unfolding find_role
role h id = find_role h.roles id

unfoldable pub find_channel : List Channel → ℕ → Option Channel
find_channel [] id = none
find_channel (c ∷ rest) id = if c.id == id then some c else find_channel rest id

-- `Hub.Channel`.
unfoldable pub channel : Hub → ℕ → Option Channel
unfolding find_channel
channel h id = find_channel h.channels id

-- `ReloadChannels`, given the rows that `AllChannels` returned.
unfoldable pub reload_channels : Hub → List Channel → Hub
reload_channels h rows = record h { channels = rows }

-- The ids that `ReloadRoles` picks out: of the everyone, the registered and the admin role.
pub record ManagedIds : Type 0 where
  pub everyone_id : ℕ
  pub registered_id : ℕ
  pub admin_id : ℕ

note_managed : Managed → ℕ → ManagedIds → ManagedIds
note_managed unmanaged id m = m
note_managed everyone id m = record m { everyone_id = id }
note_managed registered id m = record m { registered_id = id }
note_managed admin id m = record m { admin_id = id }

scan_managed : List Role → ManagedIds → ManagedIds
scan_managed [] m = m
scan_managed (r ∷ rest) m = scan_managed rest (note_managed r.managed r.id m)

-- `ReloadRoles`, given the rows that `AllRoles` returned.
unfoldable pub reload_roles : Hub → List Role → Hub
unfolding scan_managed note_managed
reload_roles h rows =
    let ids = scan_managed rows (record { everyone_id = 0; registered_id = 0; admin_id = 0 }) in
    record h {
      roles = rows;
      everyone_id = ids.everyone_id;
      registered_id = ids.registered_id;
      admin_id = ids.admin_id;
    }

-- `Hub.IsOwner`.
unfoldable pub is_owner : Hub → ℕ → Bool
is_owner h user_id = if user_id == 0 then false else h.owner_id == user_id

-- The closure `add` of `EffectiveRoleIDs`: ids in order of arrival, 0 and repeats left out.
pub add_id : List ℕ → ℕ → List ℕ
add_id out id = if id == 0 then out else if contains out id then out else out ++ id ∷ []

pub add_ids : List ℕ → List ℕ → List ℕ
unfolding add_id
add_ids out [] = out
add_ids out (id ∷ rest) = add_ids (add_id out id) rest

-- `Hub.EffectiveRoleIDs`.
unfoldable pub effective_role_ids : Hub → User → List ℕ → List ℕ
unfolding add_ids is_registered
effective_role_ids h u explicit =
    let base = add_id [] h.everyone_id in
    let implicit = if is_registered u then add_id base h.registered_id else base in
    add_ids implicit explicit

masks_of : List Role → List ℕ → List Permission
masks_of roles [] = []
masks_of roles (id ∷ rest) = elim (find_role roles id) [
  | some r ↦ r.permissions ∷ masks_of roles rest
  | none ↦ masks_of roles rest
]

-- `Hub.BasePermissions`.
unfoldable pub base_permissions : Hub → List ℕ → Permission
unfolding masks_of find_role
base_permissions h ids = resolve (masks_of h.roles ids)

-- `Hub.PermissionsFor`.
unfoldable pub permissions_for : Hub → ℕ → List ℕ → Permission
unfolding base_permissions is_owner
permissions_for h user_id ids = if is_owner h user_id then all else base_permissions h ids

-- `maxChannelDepth`.
abbrev pub max_channel_depth : ℕ
max_channel_depth = 32

-- The loop of `ancestorChain`, innermost first.
pub chain_up : ℕ → List Channel → ℕ → List Channel
chain_up zero channels id = []
chain_up (suc depth) channels id = elim (find_channel channels id) [
  | none ↦ []
  | some ch ↦ elim ch.parent_id [
    | none ↦ ch ∷ []
    | some parent ↦ ch ∷ chain_up depth channels parent
  ]
]

-- The loop that turns the slice round, element by element.
turn_round : List Channel → List Channel → List Channel
turn_round [] out = out
turn_round (c ∷ rest) out = turn_round rest (c ∷ out)

-- `ancestorChain`: the channel and its ancestors, outermost first.
unfoldable pub ancestor_chain : Hub → ℕ → List Channel
unfolding chain_up turn_round find_channel
ancestor_chain h id = turn_round (chain_up max_channel_depth h.channels id) []

apply_chain : ℕ → List ℕ → List Channel → Permission → Permission
apply_chain everyone_id ids [] perms = perms
apply_chain everyone_id ids (ch ∷ rest) perms =
    let perms' = resolve_in_channel perms everyone_id ids ch.overwrites in
    let below = apply_chain everyone_id ids rest perms' in if perms' == 0 then 0 else below

-- `Hub.ChannelPermissions`.
unfoldable pub channel_permissions : Hub → Permission → List ℕ → ℕ → Permission
unfolding apply_chain ancestor_chain
channel_permissions h base ids channel_id =
    apply_chain h.everyone_id ids (ancestor_chain h channel_id) base

-- `ownerRank`, `math.MaxInt` on a 64-bit machine.
abbrev pub owner_rank : ℕ
owner_rank = 2 ^ 63 - 1

-- One turn of the loop of `HighestRolePosition`.
raise_to : Option Role → ℕ → ℕ
raise_to none highest = highest
raise_to (some r) highest = if ltb highest r.position then r.position else highest

highest_from : List Role → List ℕ → ℕ → ℕ
unfolding raise_to find_role
highest_from roles [] highest = highest
highest_from roles (id ∷ rest) highest =
    highest_from roles rest (raise_to (find_role roles id) highest)

-- `Hub.HighestRolePosition`.
unfoldable pub highest_role_position : Hub → List ℕ → ℕ
unfolding highest_from
highest_role_position h ids = highest_from h.roles ids 0

-- `Hub.RankOf`.
unfoldable pub rank_of : Hub → ℕ → List ℕ → ℕ
unfolding highest_role_position is_owner
rank_of h user_id ids = if is_owner h user_id then owner_rank else highest_role_position h ids

-- The order of `SortedRoles`: by position, and by id among equals.
unfoldable pub stands_below : Role → Role → Bool
stands_below a b =
    if not (a.position == b.position) then ltb a.position b.position else ltb a.id b.id

-- `sort.Slice`, as an insertion sort.
pub insert_role : Role → List Role → List Role
insert_role r [] = r ∷ []
insert_role r (s ∷ rest) =
    let later = insert_role r rest in if stands_below s r then s ∷ later else r ∷ s ∷ rest

unfoldable pub sort_roles : List Role → List Role
unfolding insert_role stands_below
sort_roles [] = []
sort_roles (r ∷ rest) = insert_role r (sort_roles rest)

-- `Hub.SortedRoles`.
unfoldable pub sorted_roles : Hub → List Role
unfolding sort_roles
sorted_roles h = sort_roles h.roles
