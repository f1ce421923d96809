-- ===== src/Store/Channels/Delete.antt =====
-- internal/store/channels.go: what `DeleteChannel` leaves.
use aural_server.Base.{
  ℕ, ◌≡◌, refl, ap, sym, subst, ◌∙◌, inl, inr, true, false, not, ◌||◌, Option, none, some, List, [],
  ◌∷◌, arith, ◌==◌, if◌then◌else◌, Bool-cases, Option-cases, contains, IsDistinct, keep,
}
use aural_server.Store.{Db, ChannelRow, done}
use aural_server.Store.Channels.{channel_row, children_of, descendant_ids, delete_channel}
use aural_server.Store.Channels.Rows.{row_keep}
use aural_server.Store.Channels.Tree.{IsTree, fits, row_ids}
use aural_server.Store.Channels.Subtree.{
  IsChild-row, row_child, above_root, below_root, descendant_ids_lem,
}

-- The rows that stay when some ids go.
abbrev staying : List ℕ → List ChannelRow → List ChannelRow
staying gone rows = keep (λ d. not (contains gone d.id)) rows

ids_of_staying :
    (gone : List ℕ) (rows : List ChannelRow) (a : ℕ)
    → contains (row_ids rows) a ≡ false
    → contains (row_ids (staying gone rows)) a ≡ false
unfolding keep row_ids contains
ids_of_staying gone [] a h = refl
ids_of_staying gone (c ∷ rows) a h = elim (Bool-cases (contains gone c.id)) [
  | inl goes ↦ ground (arith, goes, ids_of_staying gone rows a (ground arith))
  | inr stays ↦ ground (arith, stays, ids_of_staying gone rows a (ground arith))
]

IsDistinct-staying :
    (gone : List ℕ) (rows : List ChannelRow)
    → IsDistinct (row_ids rows)
    → IsDistinct (row_ids (staying gone rows))
unfolding keep row_ids
IsDistinct-staying gone [] d = tt
IsDistinct-staying gone (c ∷ rows) d = elim (Bool-cases (contains gone c.id)) [
  | inl goes ↦ rw goes (IsDistinct-staying gone rows d.1)
  | inr stays ↦ rw stays (ids_of_staying gone rows c.id d.0, IsDistinct-staying gone rows d.1)
]

module _ (id : ℕ) (rows : List ChannelRow) (t : IsTree rows) where
  abbrev gone : List ℕ
  gone = id ∷ children_of (id ∷ []) rows

  -- The parent of a row that stays stays.
  parent_stays :
      (k p : ℕ) (c : ChannelRow)
      → channel_row rows k ≡ some c
      → c.parent_id ≡ some p
      → contains gone k ≡ false
      → contains gone p ≡ false
  unfolding contains
  parent_stays k p c f u h = elim (Bool-cases (id == p)) [
    | inl here ↦ ground (arith, here, h, row_child (id ∷ []) rows k p c f u (ground (arith, here)))
    | inr other ↦ elim (Bool-cases (contains (children_of (id ∷ []) rows) p)) [
      | inl child ↦
          let j = IsChild-row (id ∷ []) rows p t.distinct child in
          ground
            (arith, above_root rows k p c t f u, below_root rows p j.parent j.row j.found j.under)
      | inr apart ↦ ground (arith, other, apart)
    ]
  ]

  staying-fits :
      (k : ℕ) (c : ChannelRow) (o : Option ℕ)
      → channel_row rows k ≡ some c
      → c.parent_id ≡ o
      → contains gone k ≡ false
      → fits rows c.type o ≡ true
      → fits (staying gone rows) c.type o ≡ true
  unfolding fits
  staying-fits k c none f u h fit = refl
  staying-fits k c (some p) f u h fit =
      let same : channel_row (staying gone rows) p ≡ channel_row rows p =
        row_keep gone rows p
        ∙ ap (λ b. if b then none else channel_row rows p) (parent_stays k p c f u h) in
      rw same fit

  staying-IsTree : IsTree (staying gone rows)
  staying-IsTree = record {
    distinct = IsDistinct-staying gone rows t.distinct;
    fitting = λ k c g. elim (Bool-cases (contains gone k)) [
      | inl goes ↦ ground (arith, goes, g, row_keep gone rows k)
      | inr stays ↦
          let f : channel_row rows k ≡ some c = ground (arith, stays, g, row_keep gone rows k) in
          staying-fits k c c.parent_id f refl stays (t.fitting k c f)
    ];
  }

-- Deleting a channel of a tree takes the channel and what is below it, and nothing else; what is left
-- is a tree.
pub delete_channel_lem :
    (db db' : Db) (id : ℕ) (below : List ℕ)
    → IsTree db.channels
    → delete_channel db id ≡ done (db', below)
    → IsTree db'.channels
      × ((k : ℕ)
          → channel_row db'.channels k ≡ (
              if id == k || contains (children_of (id ∷ []) db.channels) k
              then none
              else channel_row db.channels k))
unfolding delete_channel contains
delete_channel_lem db db' id below t e = elim (Option-cases (channel_row db.channels id)) [
  | inl absent ↦ ground (arith, absent, e)
  | inr (c, found) ↦
      let below_e : descendant_ids db id ≡ children_of (id ∷ []) db.channels =
        descendant_ids_lem db id t in
      let rows_e : db'.channels ≡ staying (id ∷ descendant_ids db id) db.channels =
        ground (arith, found, e) in
      let rows_e' : db'.channels ≡ staying (gone id db.channels t) db.channels =
        rows_e ∙ ap (λ b. staying (id ∷ b) db.channels) below_e in
      (
        subst IsTree (sym rows_e') (staying-IsTree id db.channels t),
        λ k.
            ap (λ rows. channel_row rows k) rows_e'
            ∙ row_keep (gone id db.channels t) db.channels k,
      )
]
