-- ===== src/Hub/Inherit.antt =====
-- internal/gateway/hub.go: `ancestorChain` and `ChannelPermissions`.
use aural_server.Base.{
  ℕ, zero, suc, ◌≤◌, ◌<◌, ◌≡◌, refl, ◌∙◌, sym, ap, inl, inr, some, List, [], ◌∷◌, ◌++◌, arith, ◌==◌,
  if◌then◌else◌, length, Option-cases, Bool-cases,
}
use aural_server.Permissions.{Permission, resolve_in_channel}
use aural_server.Hub.{
  Hub, Channel, channel, find_channel, chain_up, turn_round, ancestor_chain, apply_chain,
  channel_permissions, max_channel_depth,
}

find_channel_id :
    (channels : List Channel) (id : ℕ) (c : Channel) → find_channel channels id ≡ some c → c.id ≡ id
unfolding find_channel
find_channel_id [] id c f = cc
find_channel_id (x ∷ channels) id c f = elim (Bool-cases (x.id == id)) [
  | inl here ↦
      let same : x ≡ c = ground (arith, here, f) in
      ground (arith, here, ap (λ (k : Channel). k.id) same)
  | inr later ↦ find_channel_id channels id c (ground (arith, later, f))
]

pub channel_id_lem : (h : Hub) (id : ℕ) (c : Channel) → channel h id ≡ some c → c.id ≡ id
unfolding channel
channel_id_lem h = find_channel_id h.channels

turn_round-append :
    (xs out : List Channel) (c : Channel)
    → turn_round xs (out ++ c ∷ []) ≡ turn_round xs out ++ c ∷ []
unfolding turn_round
turn_round-append [] out c = refl
turn_round-append (x ∷ xs) out c = turn_round-append xs (x ∷ out) c

-- A walk that ends before its bound is the same with one step less.
chain_up_short :
    (n : ℕ) (channels : List Channel) (id : ℕ)
    → length (chain_up (suc n) channels id) ≤ n
    → chain_up (suc n) channels id ≡ chain_up n channels id
unfolding chain_up
chain_up_short zero channels id h = elim (Option-cases (find_channel channels id)) [
  | inl missing ↦ ground (arith, missing)
  | inr (ch, found) ↦ elim (Option-cases ch.parent_id) [
    | inl root ↦ ground (arith, found, root, h)
    | inr (parent, under) ↦ ground (arith, found, under, h)
  ]
]
chain_up_short (suc n) channels id h = elim (Option-cases (find_channel channels id)) [
  | inl missing ↦ ground (arith, missing)
  | inr (ch, found) ↦ elim (Option-cases ch.parent_id) [
    | inl root ↦ ground (arith, found, root)
    | inr (parent, under) ↦
        ground
          (arith, found, under, chain_up_short n channels parent (ground (arith, found, under, h)))
  ]
]

apply_chain-snoc :
    (everyone_id : ℕ) (ids : List ℕ) (c d : Channel) (xs : List Channel) (p : Permission)
    → apply_chain everyone_id ids (c ∷ xs ++ d ∷ []) p ≡ (
        let q = apply_chain everyone_id ids (c ∷ xs) p in
        if q == 0 then 0 else resolve_in_channel q everyone_id ids d.overwrites)
unfolding apply_chain
apply_chain-snoc everyone_id ids c d [] p = ground arith
apply_chain-snoc everyone_id ids c d (x ∷ xs) p =
    let q = resolve_in_channel p everyone_id ids c.overwrites in
    ground (arith, apply_chain-snoc everyone_id ids x d xs q)

turn_round-cons-ne :
    (c : Channel) (rest : List Channel) (out : List Channel)
    → (d : Channel) × (xs : List Channel) × (turn_round (c ∷ rest) out ≡ d ∷ xs)
unfolding turn_round
turn_round-cons-ne c [] out = (c, out, refl)
turn_round-cons-ne c (x ∷ rest) out = turn_round-cons-ne x rest (c ∷ out)

chain_up-cons :
    (n : ℕ) (channels : List Channel) (id : ℕ) (c : Channel)
    → find_channel channels id ≡ some c
    → (xs : List Channel) × (chain_up (suc n) channels id ≡ c ∷ xs)
unfolding chain_up
chain_up-cons n channels id c f = elim (Option-cases c.parent_id) [
  | inl root ↦ ([], ground (arith, f, root))
  | inr (parent, under) ↦ (chain_up n channels parent, ground (arith, f, under))
]

chain_up-child :
    (n : ℕ) (channels : List Channel) (id parent : ℕ) (c : Channel)
    → find_channel channels id ≡ some c
    → c.parent_id ≡ some parent
    → chain_up (suc n) channels id ≡ c ∷ chain_up n channels parent
unfolding chain_up
chain_up-child n channels id parent c f under = ground (arith, f, under)

-- The chain of a channel is the chain of its parent with the channel at the end, as long as the
-- parent is not at the bottom of a chain of the greatest depth.
pub ancestor_chain-child :
    (h : Hub) (id parent : ℕ) (c : Channel)
    → channel h id ≡ some c
    → c.parent_id ≡ some parent
    → length (chain_up max_channel_depth h.channels parent) < max_channel_depth
    → ancestor_chain h id ≡ ancestor_chain h parent ++ c ∷ []
unfolding ancestor_chain channel
ancestor_chain-child h id parent c f under short =
    ap (λ l. turn_round l []) (chain_up-child 31 h.channels id parent c f under)
    ∙ ap (λ l. turn_round l (c ∷ [])) (sym (chain_up_short 31 h.channels parent (omega arith)))
    ∙ turn_round-append (chain_up 32 h.channels parent) [] c

-- A channel under a cached parent, whose own chain of parents has fewer than 32 channels, is
-- resolved on top of it: where the parent leaves nothing, neither does the channel, and elsewhere the overwrites of the channel apply to what the parent leaves.
pub channel_permissions-child :
    (h : Hub) (base : Permission) (ids : List ℕ) (id parent : ℕ) (c p : Channel)
    → channel h id ≡ some c
    → c.parent_id ≡ some parent
    → channel h parent ≡ some p
    → length (chain_up max_channel_depth h.channels parent) < max_channel_depth
    → channel_permissions h base ids id ≡ (
        let above = channel_permissions h base ids parent in
        if above == 0 then 0 else resolve_in_channel above h.everyone_id ids c.overwrites)
unfolding channel_permissions ancestor_chain channel
channel_permissions-child h base ids id parent c p f under g short =
    let (up, climbs) = chain_up-cons 31 h.channels parent p g in
    let (d, xs, e) = turn_round-cons-ne p up [] in
    let outer : turn_round (chain_up 32 h.channels parent) [] ≡ d ∷ xs =
      ap (λ l. turn_round l []) climbs ∙ e in
    ap (λ l. apply_chain h.everyone_id ids l base)
      (ancestor_chain-child h id parent c f under short ∙ ap (λ l. l ++ c ∷ []) outer)
    ∙ apply_chain-snoc h.everyone_id ids d c xs base
    ∙ ap
        (λ l.
          let q = apply_chain h.everyone_id ids l base in
          if q == 0 then 0 else resolve_in_channel q h.everyone_id ids c.overwrites)
        (sym outer)
