-- ===== src/Store/Channels/Sound.antt =====
-- internal/store/channels.go: the table of channels with the sequence that gives out its ids, under
-- `CreateChannel`, `UpdateChannel` and `DeleteChannel`.
use aural_server.Base.{
  ℕ, suc, ◌≡◌, refl, ap, sym, subst, ◌∙◌, inl, inr, Bool, true, false, not, ◌&&◌, some, List, [],
  ◌∷◌, ◌++◌, arith, ltb, Option-cases, contains, keep,
}
use aural_server.Store.{Db, ChannelRow, done}
use aural_server.Store.Channels.{
  channel_row, create_channel, update_channel, delete_channel, descendant_ids, set_rows,
}
use aural_server.Store.Channels.Tree.{IsTree, fits, row_ids, set_rows-IsTree, snoc-IsTree}
use aural_server.Store.Channels.Delete.{delete_channel_lem}

-- Every id was given out already.
unfoldable pub all_below : List ChannelRow → ℕ → Bool
all_below [] next = true
all_below (c ∷ rest) next = let later = all_below rest next in ltb c.id next && later

-- A tree whose next id is new.
pub record IsSound (db : Db) : Type 0 where
  pub tree : IsTree db.channels
  pub given : all_below db.channels db.next_channel_id ≡ true

below-fresh :
    (rows : List ChannelRow) (next : ℕ)
    → all_below rows next ≡ true
    → contains (row_ids rows) next ≡ false
unfolding all_below contains row_ids
below-fresh [] next h = refl
below-fresh (c ∷ rows) next h = ground (arith, h, below-fresh rows next (ground (arith, h)))

below-snoc :
    (rows : List ChannelRow) (c : ChannelRow) (next : ℕ)
    → all_below rows next ≡ true
    → c.id ≡ next
    → all_below (rows ++ c ∷ []) (suc next) ≡ true
unfolding all_below
below-snoc [] c next h e = ground (arith, e)
below-snoc (x ∷ rows) c next h e = ground (arith, h, below-snoc rows c next (ground (arith, h)) e)

below-set :
    (new : ChannelRow) (rows : List ChannelRow) (next : ℕ)
    → all_below rows next ≡ true
    → all_below (set_rows new rows) next ≡ true
unfolding all_below set_rows
below-set new [] next h = refl
below-set new (x ∷ rows) next h = ground (arith, h, below-set new rows next (ground (arith, h)))

below-keep :
    (p : ChannelRow → Bool) (rows : List ChannelRow) (next : ℕ)
    → all_below rows next ≡ true
    → all_below (keep p rows) next ≡ true
unfolding all_below keep
below-keep p [] next h = refl
below-keep p (x ∷ rows) next h = ground (arith, h, below-keep p rows next (ground (arith, h)))

IsSound-of_parts :
    {db : Db}
    → (rows : List ChannelRow) (next : ℕ) → db.channels ≡ rows
    → db.next_channel_id ≡ next
    → IsTree rows
    → all_below rows next ≡ true
    → IsSound db
IsSound-of_parts {db = db} rows next e f t g = record {
  tree = subst IsTree (sym e) t;
  given = ap (λ l. all_below l db.next_channel_id) e ∙ ap (all_below rows) f ∙ g;
}

-- What leaves the table and its sequence alone keeps this.
pub IsSound-same :
    {db db' : Db}
    → db'.channels ≡ db.channels
    → db'.next_channel_id ≡ db.next_channel_id
    → IsSound db
    → IsSound db'
IsSound-same {db = db} e f s = IsSound-of_parts db.channels db.next_channel_id e f s.tree s.given

-- A channel that fits is inserted with a new id, and leaves a tree.
pub create_channel-IsSound :
    (db db' : Db) (c d : ChannelRow)
    → IsSound db
    → fits db.channels c.type c.parent_id ≡ true
    → create_channel db c ≡ done (db', d)
    → IsSound db'
unfolding create_channel
create_channel-IsSound db db' c d s fit e =
    IsSound-of_parts (db.channels ++ d ∷ []) (suc db.next_channel_id) (ground (arith, e))
      (ground (arith, e))
      (snoc-IsTree d db.channels s.tree
        (ap (contains (row_ids db.channels)) (ground (arith, e))
          ∙ below-fresh db.channels _ s.given)
        (ground (arith, e, fit)))
      (below-snoc db.channels d db.next_channel_id s.given (ground (arith, e)))

-- An update of a row that leaves it where it fits keeps a tree.
pub update_channel-IsSound :
    (db db' : Db) (new q : ChannelRow)
    → IsSound db
    → channel_row db.channels new.id ≡ some q
    → fits db.channels q.type new.parent_id ≡ true
    → update_channel db new ≡ done db'
    → IsSound db'
unfolding update_channel
update_channel-IsSound db db' new q s f fit e =
    IsSound-of_parts (set_rows new db.channels) db.next_channel_id (ground (arith, e, f))
      (ground (arith, e, f)) (set_rows-IsTree new q db.channels f s.tree fit)
      (below-set new db.channels db.next_channel_id s.given)

-- A deletion keeps a tree.
pub delete_channel-IsSound :
    (db db' : Db) (id : ℕ) (below : List ℕ)
    → IsSound db
    → delete_channel db id ≡ done (db', below)
    → IsSound db'
unfolding delete_channel
delete_channel-IsSound db db' id below s e = record {
  tree = (delete_channel_lem db db' id below s.tree e).0;
  given = elim (Option-cases (channel_row db.channels id)) [
    | inl absent ↦ ground (arith, absent, e)
    | inr (c, found) ↦ ground (
      arith,
      found,
      e,
      below-keep (λ d. not (contains (id ∷ descendant_ids db id) d.id)) db.channels
          db.next_channel_id s.given,
    )
  ];
}
