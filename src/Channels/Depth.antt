-- ===== src/Channels/Depth.antt =====
-- internal/gateway/handlers_channel.go and internal/gateway/hub.go: the depth of a tree of channels.
use aural_server.Base.{
  ℕ, ◌≡◌, refl, ap, sym, ◌∙◌, inl, inr, true, false, Option, none, some, List, arith, ◌==◌,
  if◌then◌else◌, Bool-cases, ==_iff,
}
use aural_server.Permissions.{Permission, resolve_in_channel}
use aural_server.Hub.{
  Hub, Channel, ChannelType, is_category, channel, channel_permissions, max_channel_depth,
}
use aural_server.Hub.TwoLevels.{two_levels}
use aural_server.Protocol.{ok}
use aural_server.Store.{ChannelRow}
use aural_server.Store.Channels.{channel_row}
use aural_server.Store.Channels.Tree.{IsTree, fits, is_root, is_root_category}
use aural_server.Store.Channels.Cached.{place, row_place, Agrees}
use aural_server.Channels.{validate_parent, reject_parent_cycle, climb, parent_of}
use aural_server.Channels.Checked.{cached_row, validate_parent-fits}

-- A root category of the table is one in the cache.
record IsTop (h : Hub) (p : ℕ) : Type 0 where
  category : Channel
  found : channel h p ≡ some category
  root : category.parent_id ≡ none
  kind : is_category category.type ≡ true

top_cached :
    (o : Option Channel) (q : Option ChannelRow)
    → place o ≡ row_place q
    → is_root_category q ≡ true
    → (c : Channel) × (o ≡ some c) × (c.parent_id ≡ none) × (is_category c.type ≡ true)
unfolding place row_place is_root_category is_root
top_cached none none e h = ground (arith, h)
top_cached none (some d) e h = ground (arith, e)
top_cached (some c) none e h = ground (arith, e)
top_cached (some c) (some d) e h = (c, refl, ground (arith, e, h), ground (arith, e, h))

fits-top :
    (rows : List ChannelRow) (t : ChannelType) (p : ℕ)
    → fits rows t (some p) ≡ true
    → is_root_category (channel_row rows p) ≡ true
unfolding fits
fits-top rows t p e = ground arith

fits-plain :
    (rows : List ChannelRow) (t : ChannelType) (p : ℕ)
    → fits rows t (some p) ≡ true
    → is_category t ≡ false
unfolding fits
fits-plain rows t p e = ground arith

module _ (h : Hub) (rows : List ChannelRow) (tree : IsTree rows) (a : Agrees h rows) where
  above_cached : (id p : ℕ) (c : Channel) → channel h id ≡ some c → c.parent_id ≡ some p → IsTop h p
  above_cached id p c f u =
      let (d, row, type, parent) = cached_row (channel h id) (channel_row rows id) c (a.at id) f in
      let fit : fits rows d.type (some p) ≡ true =
        ap (fits rows d.type) (sym (parent ∙ u)) ∙ tree.fitting id d row in
      let (cat, found, root, kind) =
        top_cached (channel h p) (channel_row rows p) (a.at p) (fits-top rows d.type p fit) in
      record { category = cat; found = found; root = root; kind = kind }

  -- A channel under a parent, in a cache that agrees with a tree: the parent is cached, and the
  -- permissions in the channel are those that the overwrites of the parent leave of the base, changed
  -- by the overwrites of the channel, or nothing where the parent leaves nothing.
  pub channel_permissions-tree :
      (base : Permission) (ids : List ℕ) (id p : ℕ) (c : Channel)
      → channel h id ≡ some c
      → c.parent_id ≡ some p
      → (category : Channel) × (channel h p ≡ some category)
        × (channel_permissions h base ids id ≡ (
            let above = resolve_in_channel base h.everyone_id ids category.overwrites in
            if above == 0 then 0 else resolve_in_channel above h.everyone_id ids c.overwrites))
  channel_permissions-tree base ids id p c f u =
      let t = above_cached id p c f u in
      (t.category, t.found, two_levels h base ids id p c t.category f u t.found t.root)

  climb-top : (id p : ℕ) → IsTop h p → (p == id) ≡ false → climb max_channel_depth h id p ≡ ok tt
  unfolding climb parent_of
  climb-top id p t other = ground (arith, t.found, t.root, other)

  -- In a cache that agrees with a tree, the search for a cycle finds none within its 32 rounds when a
  -- cached channel moves to a parent that `validateParent` accepts for its kind.
  pub reject_parent_cycle-ok :
      (c : Channel) (parent : Option ℕ)
      → channel h c.id ≡ some c
      → validate_parent h c.type parent ≡ ok tt
      → reject_parent_cycle h c.id parent ≡ ok tt
  unfolding reject_parent_cycle
  reject_parent_cycle-ok c none f e = refl
  reject_parent_cycle-ok c (some p) f e =
      let fit = validate_parent-fits h rows c.type (some p) tree a e in
      let (cat, found, root, kind) =
        top_cached (channel h p) (channel_row rows p) (a.at p) (fits-top rows c.type p fit) in
      climb-top c.id p (record { category = cat; found = found; root = root; kind = kind })
        (elim (Bool-cases (p == c.id)) [
          | inl same ↦
              let at : some cat ≡ some c =
                sym found ∙ ap (channel h) ((==_iff p c.id).0 same) ∙ f in
              ground (arith, at, kind, fits-plain rows c.type p fit)
          | inr other ↦ other
        ])
