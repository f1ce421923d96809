-- ===== src/Store/Channels/Cached.antt =====
-- internal/store/channels.go and internal/gateway/hub.go: what `AllChannels` loads into the cache.
use aural_server.Base.{
  ℕ, ◌≡◌, refl, ap, ◌∙◌, inl, inr, false, Option, none, some, List, [], ◌∷◌, arith, ◌==◌,
  if◌then◌else◌, Bool-cases, contains, IsDistinct,
}
use aural_server.Hub.{Hub, Channel, ChannelType, channel, find_channel, reload_channels}
use aural_server.Store.{Db, ChannelRow}
use aural_server.Store.Channels.{
  channel_row, attach_overwrites, insert_channel, sort_rows, all_channels, stands_before,
}
use aural_server.Store.Channels.Tree.{IsTree, row_ids}

-- Where a channel stands, and what it is.
pub record Place : Type 0 where
  pub parent_id : Option ℕ
  pub type : ChannelType

unfoldable pub place : Option Channel → Option Place
place none = none
place (some c) = some (record { parent_id = c.parent_id; type = c.type })

unfoldable pub row_place : Option ChannelRow → Option Place
row_place none = none
row_place (some c) = some (record { parent_id = c.parent_id; type = c.type })

-- The cache shows of every channel where the table has it.
pub record Agrees (h : Hub) (rows : List ChannelRow) : Type 0 where
  pub at : (id : ℕ) → place (channel h id) ≡ row_place (channel_row rows id)

-- A row as the cache holds it.
unfoldable pub loaded : Db → Option ChannelRow → Option Channel
loaded db none = none
loaded db (some c) = some (attach_overwrites db c)

find-insert :
    (c : Channel) (l : List Channel) (id : ℕ)
    → find_channel l c.id ≡ none
    → find_channel (insert_channel c l) id ≡ (if c.id == id then some c else find_channel l id)
unfolding find_channel insert_channel
find-insert c [] id h = refl
find-insert c (d ∷ l) id h = elim (Bool-cases (stands_before d c)) [
  | inl before ↦ elim (Bool-cases (d.id == c.id)) [
    | inl same ↦ ground (arith, same, h)
    | inr other ↦ elim (Bool-cases (d.id == id)) [
      | inl here ↦ ground (arith, before, other, here)
      | inr later ↦ ground (arith, before, later, find-insert c l id (ground (arith, other, h)))
    ]
  ]
  | inr after ↦ rw after refl
]

no_row :
    (rows : List ChannelRow) (id : ℕ)
    → contains (row_ids rows) id ≡ false
    → channel_row rows id ≡ none
unfolding channel_row row_ids contains
no_row [] id h = refl
no_row (c ∷ rows) id h = elim (Bool-cases (c.id == id)) [
  | inl here ↦ ground (arith, here, h)
  | inr later ↦ ground (arith, later, no_row rows id (ground (arith, later, h)))
]

find-sort_rows :
    (db : Db) (rows : List ChannelRow) (id : ℕ)
    → IsDistinct (row_ids rows)
    → find_channel (sort_rows db rows) id ≡ loaded db (channel_row rows id)
unfolding sort_rows channel_row loaded row_ids find_channel attach_overwrites
find-sort_rows db [] id d = refl
find-sort_rows db (c ∷ rows) id d =
    find-insert (attach_overwrites db c) (sort_rows db rows) id
      (find-sort_rows db rows c.id d.1 ∙ ap (loaded db) (no_row rows c.id d.0))
    ∙ (elim (Bool-cases (c.id == id)) [
      | inl here ↦ rw here refl
      | inr later ↦ rw later (find-sort_rows db rows id d.1)
    ])

pub reload_channels_lem :
    (h : Hub) (db : Db) (id : ℕ)
    → IsDistinct (row_ids db.channels)
    → channel (reload_channels h (all_channels db)) id ≡ loaded db (channel_row db.channels id)
unfolding channel reload_channels all_channels
reload_channels_lem h db id d = find-sort_rows db db.channels id d

loaded_place : (db : Db) (o : Option ChannelRow) → place (loaded db o) ≡ row_place o
unfolding place row_place loaded attach_overwrites
loaded_place db none = refl
loaded_place db (some c) = refl

pub reload_channels-Agrees :
    (h : Hub) (db : Db)
    → IsTree db.channels
    → Agrees (reload_channels h (all_channels db)) db.channels
reload_channels-Agrees h db t = record {
  at = λ id.
      ap place (reload_channels_lem h db id t.distinct)
      ∙ loaded_place db (channel_row db.channels id);
}
