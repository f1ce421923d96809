-- ===== src/Channels/Checked.antt =====
-- internal/gateway/handlers_channel.go: what the checks on a channel leave to the store.
use aural_server.Base.{
  ℕ, ◌≡◌, refl, ap, sym, subst, ◌∙◌, ◌⊎◌, inl, inr, true, Option, none, some, List, arith,
  Bool-cases, Option-cases,
}
use aural_server.Text.{Text}
use aural_server.Base.Int.{ℤ}
use aural_server.Permissions.{manage_channels}
use aural_server.Hub.{Hub, Channel, ChannelType, is_category, channel}
use aural_server.Hub.Inherit.{channel_id_lem}
use aural_server.Protocol.{require_some, not_found, Result, ok, Result-cases, >>=-eq-ok, ◌>>=◌}
use aural_server.Store.{ChannelRow}
use aural_server.Store.Channels.{channel_row}
use aural_server.Store.Channels.Tree.{IsTree, fits, is_root_category, category_root}
use aural_server.Store.Channels.Cached.{place, row_place, Agrees}
use aural_server.Server.{Session}
use aural_server.Channels.{
  ChannelCreateRequest, ChannelUpdateRequest, ChannelPatch, WireOverwrite, check_channel_create,
  check_channel_update, validate_parent, under_category, at_root, patch_channel_name, patch_topic,
  patch_place, patch_limit, patch_parent, patch_overwrites, require_channel_permission,
}

pub cached_row :
    (o : Option Channel) (p : Option ChannelRow) (c : Channel)
    → place o ≡ row_place p
    → o ≡ some c
    → (d : ChannelRow) × (p ≡ some d) × (d.type ≡ c.type) × (d.parent_id ≡ c.parent_id)
unfolding place row_place
cached_row o none c a f = ground (arith, f, a)
cached_row o (some d) c a f =
    let e : row_place (some d) ≡ place (some c) = sym a ∙ ap place f in
    (d, refl, ground (arith, e), ground (arith, e))

-- A parent that is accepted is one under which the channel fits.
pub validate_parent-fits :
    (h : Hub) (rows : List ChannelRow) (t : ChannelType) (o : Option ℕ)
    → IsTree rows
    → Agrees h rows
    → validate_parent h t o ≡ ok tt
    → fits rows t o ≡ true
unfolding validate_parent under_category at_root fits is_root_category
validate_parent-fits h rows t none tree a e = refl
validate_parent-fits h rows t (some p) tree a e = elim (Bool-cases (is_category t)) [
  | inl category ↦ ground (arith, category, e)
  | inr other ↦ elim (Option-cases (channel h p)) [
    | inl absent ↦ ground (arith, other, absent, e)
    | inr (c, found) ↦
        let (d, row, type, parent) =
          cached_row (channel h p) (channel_row rows p) c (a.at p) found in
        let category : is_category c.type ≡ true = ground (arith, other, found, e) in
        let root = category_root rows p d tree row (ap is_category type ∙ category) in
        ground (arith, other, row, ap is_category type, category, root)
  ]
]

-- The patches in front of the parent keep what the channel is and where it stands.
record KeepsPlace (c d : Channel) : Type 0 where
  same_id : d.id ≡ c.id
  same_type : d.type ≡ c.type
  same_parent : d.parent_id ≡ c.parent_id

patch_channel_name-KeepsPlace :
    (o : Option Text) (c d : Channel) → patch_channel_name o c ≡ ok d → KeepsPlace c d
unfolding patch_channel_name
patch_channel_name-KeepsPlace none c d e = ground arith
patch_channel_name-KeepsPlace (some raw) c d e = ground arith

patch_topic-KeepsPlace : (o : Option Text) (c d : Channel) → patch_topic o c ≡ ok d → KeepsPlace c d
unfolding patch_topic
patch_topic-KeepsPlace none c d e = ground arith
patch_topic-KeepsPlace (some raw) c d e = ground arith

patch_place-KeepsPlace : (o : Option ℤ) (c : Channel) → KeepsPlace c (patch_place o c)
unfolding patch_place
patch_place-KeepsPlace none c = ground arith
patch_place-KeepsPlace (some position) c = ground arith

patch_limit-KeepsPlace : (o : Option ℤ) (c d : Channel) → patch_limit o c ≡ ok d → KeepsPlace c d
unfolding patch_limit
patch_limit-KeepsPlace none c d e = ground arith
patch_limit-KeepsPlace (some raw) c d e = ground arith

pub record IsMoved (h : Hub) (actor : Session) (c : Channel) (p : ChannelPatch) : Type 0 where
  pub same_id : p.after.id ≡ c.id
  pub same_type : p.after.type ≡ c.type
  pub moved :
      (p.after.parent_id ≡ c.parent_id) ⊎ (validate_parent h c.type p.after.parent_id ≡ ok tt)

patch_parent-IsMoved :
    (h : Hub) (actor : Session) (o : Option (Option ℕ)) (c : Channel) (p : ChannelPatch)
    → patch_parent h actor o c ≡ ok p
    → IsMoved h actor c p
unfolding patch_parent
patch_parent-IsMoved h actor none c p e = ground arith
patch_parent-IsMoved h actor (some parent) c p e =
    elim (Result-cases (validate_parent h c.type parent)) [
      | inl (u, fine) ↦ ground (arith, fine, e)
      | inr (f, bad) ↦ ground (arith, bad, e)
    ]

-- What an overwrite may say: only what the caller holds, and no bit both ways.
patch_overwrites-KeepsPlace :
    (h : Hub) (actor : Session) (o : Option (List WireOverwrite)) (p q : ChannelPatch)
    → patch_overwrites h actor o p ≡ ok q
    → KeepsPlace p.after q.after
unfolding patch_overwrites
patch_overwrites-KeepsPlace h actor none p q e = ground arith
patch_overwrites-KeepsPlace h actor (some raw) p q e = ground arith

KeepsPlace-trans : {a b c : Channel} → KeepsPlace a b → KeepsPlace b c → KeepsPlace a c
KeepsPlace-trans h k = ground arith

IsMoved-of_parts :
    (h : Hub) (actor : Session) (c d : Channel) (p q : ChannelPatch)
    → KeepsPlace c d
    → IsMoved h actor d p
    → KeepsPlace p.after q.after
    → IsMoved h actor c q
IsMoved-of_parts h actor c d p q k m l = record {
  same_id = ground arith;
  same_type = ground arith;
  moved = elim m.moved [
    | inl stays ↦ inl (l.same_parent ∙ stays ∙ k.same_parent)
    | inr fine ↦ inr (
        ap (validate_parent h c.type) l.same_parent
        ∙ ap (λ t. validate_parent h t p.after.parent_id) (sym k.same_type)
        ∙ fine)
  ];
}

module _ (h : Hub) (actor : Session) (req : ChannelUpdateRequest) (current : Channel) where
  abbrev settled : ChannelPatch → Result (Channel × ChannelPatch)
  settled patch = ok (current, patch)

  patches-IsMoved :
      (before : Channel) (q : ChannelPatch)
      → (patch_channel_name req.name current >>= λ named. patch_topic req.topic named >>= λ told.
          patch_limit req.user_limit (patch_place req.position told) >>= λ limited.
          patch_parent h actor req.parent_id limited >>= λ moved.
          patch_overwrites h actor req.overwrites moved >>= λ patch. settled patch)
        ≡ ok (before, q)
      → (current ≡ before) × IsMoved h actor current q
  patches-IsMoved before q e =
      let (named, n, e1) = >>=-eq-ok (patch_channel_name req.name current) _ e in
      let (told, t, e2) = >>=-eq-ok (patch_topic req.topic named) _ e1 in
      let (limited, l, e3) =
        >>=-eq-ok (patch_limit req.user_limit (patch_place req.position told)) _ e2 in
      let (moved, m, e4) = >>=-eq-ok (patch_parent h actor req.parent_id limited) _ e3 in
      let (patch, o, e5) = >>=-eq-ok (patch_overwrites h actor req.overwrites moved) _ e4 in
      let same : patch ≡ q = ground (arith, e5) in
      (
        ground (arith, e5),
        subst (IsMoved h actor current) same (
            IsMoved-of_parts h actor current limited moved patch
              (KeepsPlace-trans (patch_channel_name-KeepsPlace req.name current named n) (
                KeepsPlace-trans (patch_topic-KeepsPlace req.topic named told t) (
                  KeepsPlace-trans (patch_place-KeepsPlace req.position told)
                    (patch_limit-KeepsPlace req.user_limit _ limited l))))
              (patch_parent-IsMoved h actor req.parent_id limited moved m)
              (patch_overwrites-KeepsPlace h actor req.overwrites moved patch o)),
      )

required :
    (o : Option Channel) (c : Channel)
    → require_some o not_found "no such channel" ≡ ok c
    → o ≡ some c
required none c e = cc
required (some d) c e = ground (arith, e)

-- A channel that a create request gets past the checks fits where it is put.
pub check_channel_create-fits :
    (h : Hub) (rows : List ChannelRow) (actor : Session) (raw : Option ChannelCreateRequest)
    (c : ChannelRow)
    → IsTree rows
    → Agrees h rows
    → check_channel_create h actor raw ≡ ok c
    → fits rows c.type c.parent_id ≡ true
unfolding check_channel_create
check_channel_create-fits h rows actor raw c tree a e =
    validate_parent-fits h rows c.type c.parent_id tree a (ground (arith, e))

-- An update that gets past the checks is of a channel that the cache has, and moves it where it may
-- stand if it moves it.
pub check_channel_update-IsMoved :
    (h : Hub) (actor : Session) (raw : Option ChannelUpdateRequest) (before : Channel)
    (p : ChannelPatch)
    → check_channel_update h actor raw ≡ ok (before, p)
    → (channel h before.id ≡ some before) × IsMoved h actor before p
unfolding check_channel_update
check_channel_update-IsMoved h actor none before p e = ground arith
check_channel_update-IsMoved h actor (some req) before p e =
    let (current, found, e1) =
      >>=-eq-ok (require_some (channel h req.channel_id) not_found "no such channel") _ e in
    let (u, allowed, e2) =
      >>=-eq-ok (require_channel_permission h actor (some req.channel_id) manage_channels) _ e1 in
    let (same, moved) = patches-IsMoved h actor req current before p e2 in
    let found' : channel h req.channel_id ≡ some current =
      required (channel h req.channel_id) current found in
    (
      subst (λ (c : Channel). channel h c.id ≡ some c) same
          (ap (channel h) (channel_id_lem h req.channel_id current found') ∙ found'),
      subst (λ c. IsMoved h actor c p) same moved,
    )

-- In a cache that agrees with the table, the row of such an update is there, and the update leaves
-- it where it fits.
pub check_channel_update-fits :
    (h : Hub) (rows : List ChannelRow) (actor : Session) (raw : Option ChannelUpdateRequest)
    (before : Channel) (p : ChannelPatch)
    → IsTree rows
    → Agrees h rows
    → check_channel_update h actor raw ≡ ok (before, p)
    → (q : ChannelRow) × (channel_row rows p.after.id ≡ some q)
      × (fits rows q.type p.after.parent_id ≡ true)
check_channel_update-fits h rows actor raw before p tree a e =
    let (found, m) = check_channel_update-IsMoved h actor raw before p e in
    let (q, row, type, parent) =
      cached_row (channel h before.id) (channel_row rows before.id) before (a.at before.id) found in
    (
      q,
      ap (channel_row rows) m.same_id ∙ row,
      elim m.moved [
        | inl stays ↦ ap (fits rows q.type) (stays ∙ sym parent) ∙ tree.fitting before.id q row
        | inr fine ↦
            ap (λ t. fits rows t p.after.parent_id) type
            ∙ validate_parent-fits h rows before.type p.after.parent_id tree a fine
      ],
    )
