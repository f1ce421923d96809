-- ===== src/Store/Channels.antt =====
-- internal/store/channels.go: the channel tree and its overwrites.
pub mod Rows
pub mod Tree
pub mod Subtree
pub mod Delete
pub mod Sound
pub mod Cached
pub mod Overwrites
use aural_server.Base.{
  ℕ, zero, suc, ◌+◌, bit_and, Bool, true, false, not, ◌&&◌, ◌||◌, Option, none, some, List, [], ◌∷◌,
  ◌++◌, ltb, ◌==◌, if◌then◌else◌, keep, any, contains, length,
}
use aural_server.Base.Int.{ℤ, pos, negsuc, ltb_ℤ, eqb_ℤ, succ_ℤ}
use aural_server.Permissions.{Overwrite, all}
use aural_server.Hub.{Channel}
use aural_server.Store.{Db, ChannelRow, OverwriteRow, Outcome, done, missing, broken}
use aural_server.Store.MessageRows.{cascade_channels}

unfoldable pub channel_row : List ChannelRow → ℕ → Option ChannelRow
channel_row [] id = none
channel_row (c ∷ rest) id = if c.id == id then some c else channel_row rest id

-- A mask that an older build wrote keeps only the bits that are defined.
scan_overwrite : OverwriteRow → Overwrite
scan_overwrite o = record {
  role_id = o.role_id;
  allow = bit_and o.allow all;
  deny = bit_and o.deny all;
}

-- `ORDER BY role_id`.
insert_overwrite : Overwrite → List Overwrite → List Overwrite
insert_overwrite o [] = o ∷ []
insert_overwrite o (p ∷ rest) =
    let later = insert_overwrite o rest in
    if ltb p.role_id o.role_id then p ∷ later else o ∷ p ∷ rest

overwrites_of : List OverwriteRow → ℕ → List Overwrite
unfolding scan_overwrite insert_overwrite
overwrites_of [] channel_id = []
overwrites_of (o ∷ rest) channel_id =
    let later = overwrites_of rest channel_id in
    if o.channel_id == channel_id then insert_overwrite (scan_overwrite o) later else later

-- `OverwritesFor`.
unfoldable pub overwrites_for : Db → ℕ → List Overwrite
unfolding overwrites_of
overwrites_for db channel_id = overwrites_of db.channel_overwrites channel_id

-- A row of `channels` with its overwrites.
unfoldable pub attach_overwrites : Db → ChannelRow → Channel
attach_overwrites db c = record {
  id = c.id;
  parent_id = c.parent_id;
  name = c.name;
  type = c.type;
  topic = c.topic;
  position = c.position;
  user_limit = c.user_limit;
  overwrites = overwrites_for db c.id;
}

-- `ORDER BY position ASC, id ASC`.
stands_before : Channel → Channel → Bool
stands_before a b = ltb_ℤ a.position b.position || eqb_ℤ a.position b.position && ltb a.id b.id

pub insert_channel : Channel → List Channel → List Channel
unfolding stands_before
insert_channel c [] = c ∷ []
insert_channel c (d ∷ rest) =
    let later = insert_channel c rest in if stands_before d c then d ∷ later else c ∷ d ∷ rest

pub sort_rows : Db → List ChannelRow → List Channel
unfolding insert_channel
sort_rows db [] = []
sort_rows db (c ∷ rest) = insert_channel (attach_overwrites db c) (sort_rows db rest)

-- `AllChannels`.
unfoldable pub all_channels : Db → List Channel
unfolding sort_rows
all_channels db = sort_rows db db.channels

same_parent : Option ℕ → Option ℕ → Bool
same_parent none none = true
same_parent (some a) (some b) = a == b
same_parent _ _ = false

higher : ℤ → Option ℤ → Option ℤ
higher p none = some p
higher p (some q) = if ltb_ℤ q p then some p else some q

-- `MAX(position)` among the children of a parent, or of the root.
highest_sibling : List ChannelRow → Option ℕ → Option ℤ
unfolding same_parent higher
highest_sibling [] parent = none
highest_sibling (c ∷ rest) parent =
    let later = highest_sibling rest parent in
    if same_parent c.parent_id parent then higher c.position later else later

after_highest : Option ℤ → ℤ
after_highest none = pos 0
after_highest (some p) = succ_ℤ p

-- Where a channel goes: a position of 0 puts it last among its siblings.
unfoldable pub pick_position : Db → Option ℕ → ℤ → ℤ
unfolding highest_sibling after_highest
pick_position db parent position =
    if eqb_ℤ position (pos 0) then after_highest (highest_sibling db.channels parent) else position

-- The foreign key of `parent_id`.
pub parent_exists : List ChannelRow → Option ℕ → Bool
parent_exists rows none = true
parent_exists rows (some parent) = elim (channel_row rows parent) [ none ↦ false | some c ↦ true ]

-- `CreateChannel`: the row that is inserted, with a new id.
unfoldable pub create_channel : Db → ChannelRow → Outcome (Db × ChannelRow)
unfolding parent_exists channel_row
create_channel db c =
    let row = record c {
      id = db.next_channel_id;
      position = pick_position db c.parent_id c.position;
    } in
    if parent_exists db.channels c.parent_id
    then done (
      record db { channels = db.channels ++ row ∷ []; next_channel_id = suc db.next_channel_id },
      row,
    )
    else broken

-- `SET parent_id, name, topic, position, user_limit`.
pub set_row : ChannelRow → ChannelRow → ChannelRow
set_row new c = record c {
  parent_id = new.parent_id;
  name = new.name;
  topic = new.topic;
  position = new.position;
  user_limit = new.user_limit;
}

pub set_rows : ChannelRow → List ChannelRow → List ChannelRow
unfolding set_row
set_rows new [] = []
set_rows new (c ∷ rest) =
    let later = set_rows new rest in if c.id == new.id then set_row new c ∷ later else c ∷ later

one_channel : Option ChannelRow → Db → Outcome Db
one_channel none db = missing
one_channel (some c) db = done db

-- `UpdateChannel`.
unfoldable pub update_channel : Db → ChannelRow → Outcome Db
unfolding set_rows channel_row parent_exists one_channel
update_channel db new =
    if parent_exists db.channels new.parent_id
    then one_channel (channel_row db.channels new.id)
        (record db { channels = set_rows new db.channels })
    else broken

is_noise : Overwrite → Bool
is_noise o = o.allow == 0 && o.deny == 0

overwrite_rows : ℕ → List Overwrite → List OverwriteRow
unfolding is_noise
overwrite_rows channel_id [] = []
overwrite_rows channel_id (o ∷ rest) =
    let later = overwrite_rows channel_id rest in
    if is_noise o
    then later
    else record { channel_id = channel_id; role_id = o.role_id; allow = o.allow; deny = o.deny }
      ∷ later

-- Whether an `INSERT` of each row keeps the primary key: no role twice for one channel.
pub repeats_role : List OverwriteRow → Bool
repeats_role [] = false
repeats_role (o ∷ rest) =
    let later = repeats_role rest in any (λ p. p.role_id == o.role_id) rest || later

-- `SetOverwrites`, as one transaction: what is not noise takes the place of what was there, and a
-- row that breaks a key rolls all of it back.
unfoldable pub set_overwrites : Db → ℕ → List Overwrite → Outcome Db
unfolding overwrite_rows repeats_role channel_row keep any
set_overwrites db channel_id list =
    let rows = overwrite_rows channel_id list in
    let others = keep (λ o. not (o.channel_id == channel_id)) db.channel_overwrites in
    if repeats_role rows
      || any (λ (o : OverwriteRow). not (any (λ r. r.id == o.role_id) db.roles)) rows
    then broken
    else elim (channel_row db.channels channel_id) [
      | none ↦ elim rows [ [] ↦ done (record db { channel_overwrites = others }) | _ ↦ broken ]
      | some c ↦ done (record db { channel_overwrites = others ++ rows })
    ]

-- The children of some channels, in the order of the rows.
unfoldable pub children_of : List ℕ → List ChannelRow → List ℕ
children_of parents [] = []
children_of parents (c ∷ rest) =
    let later = children_of parents rest in
    elim c.parent_id [ none ↦ later | some p ↦ if contains parents p then c.id ∷ later else later ]

-- The recursive query of `DescendantIDs`, one generation at a time.
pub generations : ℕ → List ChannelRow → List ℕ → List ℕ
unfolding children_of
generations zero rows parents = []
generations (suc fuel) rows parents =
    let next = children_of parents rows in next ++ generations fuel rows next

-- `DescendantIDs`. A channel has no more generations below it than there are channels.
unfoldable pub descendant_ids : Db → ℕ → List ℕ
unfolding generations
descendant_ids db id = generations (length db.channels) db.channels (id ∷ [])

-- `DeleteChannel`, with the channels below, the overwrites and the messages that go by cascade; the
-- ids that went with it.
unfoldable pub delete_channel : Db → ℕ → Outcome (Db × List ℕ)
unfolding channel_row keep contains
delete_channel db id =
    let below = descendant_ids db id in
    elim (channel_row db.channels id) [
      | none ↦ missing
      | some c ↦ done (
        record db {
          channels = keep (λ d. not (contains (id ∷ below) d.id)) db.channels;
          channel_overwrites =
              keep (λ o. not (contains (id ∷ below) o.channel_id)) db.channel_overwrites;
          messages = cascade_channels (id ∷ below) db.messages;
        },
        below,
      )
    ]
