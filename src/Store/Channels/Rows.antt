-- ===== src/Store/Channels/Rows.antt =====
-- internal/store/channels.go: the row with an id, after each change of the table.
use aural_server.Base.{
  ℕ, ◌≡◌, refl, ap, inl, inr, not, Option, none, some, List, [], ◌∷◌, ◌++◌, arith, ◌==◌,
  if◌then◌else◌, Bool-cases, contains, keep, ==_iff,
}
use aural_server.Store.{ChannelRow}
use aural_server.Store.Channels.{channel_row, set_row, set_rows}

pub found_id :
    (rows : List ChannelRow) (id : ℕ) (c : ChannelRow) → channel_row rows id ≡ some c → c.id ≡ id
unfolding channel_row
found_id [] id c f = cc
found_id (x ∷ rows) id c f = elim (Bool-cases (x.id == id)) [
  | inl here ↦
      let same : x ≡ c = ground (arith, here, f) in
      ground (arith, here, ap (λ (k : ChannelRow). k.id) same)
  | inr later ↦ found_id rows id c (ground (arith, later, f))
]

unfoldable pub after_set : ChannelRow → Option ChannelRow → Option ChannelRow
unfolding set_row
after_set new none = none
after_set new (some c) = if c.id == new.id then some (set_row new c) else some c

pub row_set :
    (new : ChannelRow) (rows : List ChannelRow) (id : ℕ)
    → channel_row (set_rows new rows) id ≡ after_set new (channel_row rows id)
unfolding channel_row set_rows set_row after_set
row_set new [] id = refl
row_set new (x ∷ rows) id = elim (Bool-cases (x.id == id)) [
  | inl here ↦ elim (Bool-cases (x.id == new.id)) [
    | inl target ↦ ground (arith, here, target)
    | inr other ↦ ground (arith, here, other)
  ]
  | inr later ↦ elim (Bool-cases (x.id == new.id)) [
    | inl target ↦ ground (arith, later, target, row_set new rows id)
    | inr other ↦ ground (arith, later, other, row_set new rows id)
  ]
]

pub row_snoc :
    (rows : List ChannelRow) (c : ChannelRow) (id : ℕ)
    → channel_row (rows ++ c ∷ []) id
      ≡ elim (channel_row rows id) [ none ↦ if c.id == id then some c else none | some d ↦ some d ]
unfolding channel_row
row_snoc [] c id = ground arith
row_snoc (x ∷ rows) c id = elim (Bool-cases (x.id == id)) [
  | inl here ↦ rw here refl
  | inr later ↦ rw later (row_snoc rows c id)
]

pub row_keep :
    (gone : List ℕ) (rows : List ChannelRow) (id : ℕ)
    → channel_row (keep (λ d. not (contains gone d.id)) rows) id
      ≡ (if contains gone id then none else channel_row rows id)
unfolding channel_row keep
row_keep gone [] id = ground arith
row_keep gone (x ∷ rows) id = elim (Bool-cases (contains gone x.id)) [
  | inl goes ↦ elim (Bool-cases (x.id == id)) [
    | inl here ↦
        ground
          (arith, goes, here, row_keep gone rows id, ap (contains gone) ((==_iff x.id id).0 here))
    | inr later ↦ ground (arith, goes, later, row_keep gone rows id)
  ]
  | inr stays ↦ elim (Bool-cases (x.id == id)) [
    | inl here ↦
        ground
          (arith, stays, here, row_keep gone rows id, ap (contains gone) ((==_iff x.id id).0 here))
    | inr later ↦ ground (arith, stays, later, row_keep gone rows id)
  ]
]
