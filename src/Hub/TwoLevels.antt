-- ===== src/Hub/TwoLevels.antt =====
-- internal/gateway/hub.go: `ChannelPermissions` of what stands in a category.
use aural_server.Base.{
  ℕ, suc, ◌≡◌, ap, ◌∙◌, none, some, List, [], ◌∷◌, arith, ◌==◌, if◌then◌else◌, length,
}
use aural_server.Permissions.{Permission, resolve_in_channel}
use aural_server.Hub.{
  Hub, Channel, channel, find_channel, chain_up, turn_round, ancestor_chain, apply_chain,
  channel_permissions,
}
use aural_server.Hub.Inherit.{channel_permissions-child}

chain_up-root :
    (n : ℕ) (channels : List Channel) (id : ℕ) (c : Channel)
    → find_channel channels id ≡ some c
    → c.parent_id ≡ none
    → chain_up (suc n) channels id ≡ c ∷ []
unfolding chain_up
chain_up-root n channels id c f r = ground (arith, f, r)

root_permissions :
    (h : Hub) (base : Permission) (ids : List ℕ) (id : ℕ) (c : Channel)
    → channel h id ≡ some c
    → c.parent_id ≡ none
    → channel_permissions h base ids id ≡ resolve_in_channel base h.everyone_id ids c.overwrites
unfolding channel_permissions ancestor_chain apply_chain turn_round channel
root_permissions h base ids id c f r =
    ap (λ l. apply_chain h.everyone_id ids (turn_round l []) base)
      (chain_up-root 31 h.channels id c f r)
    ∙ ground arith

-- What stands under a root is resolved in two steps.
pub two_levels :
    (h : Hub) (base : Permission) (ids : List ℕ) (id parent : ℕ) (c p : Channel)
    → channel h id ≡ some c
    → c.parent_id ≡ some parent
    → channel h parent ≡ some p
    → p.parent_id ≡ none
    → channel_permissions h base ids id ≡ (
        let above = resolve_in_channel base h.everyone_id ids p.overwrites in
        if above == 0 then 0 else resolve_in_channel above h.everyone_id ids c.overwrites)
unfolding channel
two_levels h base ids id parent c p f under g root =
    channel_permissions-child h base ids id parent c p f under g
      (ground (arith, ap length (chain_up-root 31 h.channels parent p g root)))
    ∙ ap
        (λ above. if above == 0 then 0 else resolve_in_channel above h.everyone_id ids c.overwrites)
        (root_permissions h base ids parent p g root)
