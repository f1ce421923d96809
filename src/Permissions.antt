-- ===== src/Permissions.antt =====
-- internal/permissions/permissions.go: the permission mask, what it contains, and how roles and
-- channel overwrites resolve to the effective permissions of one user.
pub mod Has
pub mod Wire
pub mod Resolved
mod Tests
use aural_server.Base.{
  ℕ, zero, suc, ◌^◌, bit_and, bit_or, String, Bool, true, false, not, Option, none, some, List, [],
  ◌∷◌, ◌==◌, if◌then◌else◌,
}
use aural_server.Base.Bits.{bit_clear}
use aural_server.Text.{Text, trim_space, format_uint, parse_uint}

-- A mask is a number below 2 ^ 64.
abbrev pub Permission : Type 0
Permission = ℕ

abbrev pub view_channel : Permission
view_channel = 2 ^ 0

abbrev pub connect : Permission
connect = 2 ^ 1

abbrev pub speak : Permission
speak = 2 ^ 2

abbrev pub send_messages : Permission
send_messages = 2 ^ 3

abbrev pub change_nickname : Permission
change_nickname = 2 ^ 4

abbrev pub register : Permission
register = 2 ^ 5

abbrev pub attach_files : Permission
attach_files = 2 ^ 6

abbrev pub send_direct_messages : Permission
send_direct_messages = 2 ^ 7

abbrev pub manage_channels : Permission
manage_channels = 2 ^ 8

abbrev pub manage_roles : Permission
manage_roles = 2 ^ 9

abbrev pub manage_server : Permission
manage_server = 2 ^ 10

abbrev pub manage_nicknames : Permission
manage_nicknames = 2 ^ 11

abbrev pub manage_messages : Permission
manage_messages = 2 ^ 12

abbrev pub manage_webhooks : Permission
manage_webhooks = 2 ^ 13

abbrev pub create_posts : Permission
create_posts = 2 ^ 14

abbrev pub use_soundboard : Permission
use_soundboard = 2 ^ 15

abbrev pub kick_users : Permission
kick_users = 2 ^ 16

abbrev pub move_users : Permission
move_users = 2 ^ 17

abbrev pub mute_users : Permission
mute_users = 2 ^ 18

abbrev pub deafen_users : Permission
deafen_users = 2 ^ 19

abbrev pub ban_users : Permission
ban_users = 2 ^ 20

abbrev pub view_audit_log : Permission
view_audit_log = 2 ^ 21

abbrev pub manage_expressions : Permission
manage_expressions = 2 ^ 22

abbrev pub stream : Permission
stream = 2 ^ 23

abbrev pub administrator : Permission
administrator = 2 ^ 31

-- The table of `order` with the entries of `names`.
abbrev pub order : List (Permission × String)
order =
    (view_channel, "ViewChannel")
    ∷ (connect, "Connect")
    ∷ (speak, "Speak")
    ∷ (send_messages, "SendMessages")
    ∷ (change_nickname, "ChangeNickname")
    ∷ (register, "Register")
    ∷ (attach_files, "AttachFiles")
    ∷ (send_direct_messages, "SendDirectMessages")
    ∷ (create_posts, "CreatePosts")
    ∷ (use_soundboard, "UseSoundboard")
    ∷ (stream, "Stream")
    ∷ (manage_channels, "ManageChannels")
    ∷ (manage_roles, "ManageRoles")
    ∷ (manage_server, "ManageServer")
    ∷ (manage_nicknames, "ManageNicknames")
    ∷ (manage_messages, "ManageMessages")
    ∷ (manage_webhooks, "ManageWebhooks")
    ∷ (manage_expressions, "ManageExpressions")
    ∷ (kick_users, "KickUsers")
    ∷ (ban_users, "BanUsers")
    ∷ (move_users, "MoveUsers")
    ∷ (mute_users, "MuteUsers")
    ∷ (deafen_users, "DeafenUsers")
    ∷ (view_audit_log, "ViewAuditLog")
    ∷ (administrator, "Administrator")
    ∷ []

or_bits : List (Permission × String) → Permission → Permission
or_bits [] p = p
or_bits ((bit, name) ∷ rest) p = or_bits rest (bit_or p bit)

-- `All`.
unfoldable pub all : Permission
unfolding or_bits
all = or_bits order 0

-- `Permission.Has`.
unfoldable pub has : Permission → Permission → Bool
has p want = if not (bit_and p administrator == 0) then true else bit_and p want == want

names_in : List (Permission × String) → Permission → List String
names_in [] p = []
names_in ((bit, name) ∷ rest) p =
    let names = names_in rest p in if not (bit_and p bit == 0) then name ∷ names else names

-- `Permission.Names`.
unfoldable pub names : Permission → List String
unfolding names_in
names p = names_in order p

-- `Permission.String`.
unfoldable pub to_text : Permission → Text
to_text p = format_uint p

masked : Option ℕ → Option Permission
masked none = none
masked (some v) = some (bit_and v all)

parse_trimmed : Text → Option Permission
unfolding masked
parse_trimmed [] = some 0
parse_trimmed (c ∷ rest) = masked (parse_uint (c ∷ rest))

-- `Parse`; `none` is its error.
unfoldable pub parse : Text → Option Permission
unfolding parse_trimmed
parse s = parse_trimmed (trim_space s)

-- `Overwrite`.
pub record Overwrite : Type 0 where
  pub role_id : ℕ
  pub allow : Permission
  pub deny : Permission

or_masks : Permission → List Permission → Permission
or_masks base [] = base
or_masks base (m ∷ rest) = or_masks (bit_or base m) rest

-- `Resolve`.
unfoldable pub resolve : List Permission → Permission
unfolding or_masks
resolve masks =
    let base = or_masks 0 masks in if not (bit_and base administrator == 0) then all else base

-- `byRole`: a later overwrite of a role replaces an earlier one.
pub by_role : List Overwrite → ℕ → Option Overwrite
by_role [] id = none
by_role (ow ∷ rest) id = elim (by_role rest id) [
  | some later ↦ some later
  | none ↦ if ow.role_id == id then some ow else none
]

-- One step of the resolution: the denies go before the allows.
apply_masks : Permission → Permission → Permission → Permission
apply_masks base allow deny = bit_or (bit_clear base deny) allow

apply_everyone : Permission → Option Overwrite → Permission
apply_everyone base none = base
apply_everyone base (some ow) = apply_masks base ow.allow ow.deny

add_overwrite : Option Overwrite → Permission × Permission → Permission × Permission
add_overwrite none acc = acc
add_overwrite (some ow) (allow, deny) = (bit_or allow ow.allow, bit_or deny ow.deny)

-- The union of the overwrites of the roles a user holds, the everyone role left out.
role_overwrites : List Overwrite → ℕ → List ℕ → Permission × Permission → Permission × Permission
role_overwrites ows everyone [] acc = acc
role_overwrites ows everyone (id ∷ rest) acc =
    role_overwrites ows everyone rest
      (if id == everyone then acc else add_overwrite (by_role ows id) acc)

-- `ResolveInChannel` up to its last test.
overwritten : Permission → ℕ → List ℕ → List Overwrite → Permission
overwritten base everyone role_ids ows =
    let (allow, deny) = role_overwrites ows everyone role_ids (0, 0) in
    apply_masks (apply_everyone base (by_role ows everyone)) allow deny

-- `ResolveInChannel`.
unfoldable pub resolve_in_channel : Permission → ℕ → List ℕ → List Overwrite → Permission
unfolding overwritten role_overwrites add_overwrite apply_everyone apply_masks by_role bit_clear
resolve_in_channel base everyone role_ids ows =
    if not (bit_and base administrator == 0)
    then all
    else let base' = overwritten base everyone role_ids ows in
      if bit_and base' view_channel == 0 then 0 else base'
