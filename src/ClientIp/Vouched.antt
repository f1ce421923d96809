-- ===== src/ClientIp/Vouched.antt =====
-- internal/gateway/clientip.go: what the walk over the hops depends on.
use aural_server.Base.{
  ◌≡◌, ap, sym, ◌∙◌, Bool, false, not, Option, none, some, List, [], ◌∷◌, ◌++◌, if◌then◌else◌,
  arith, Option-cases, inl, inr,
}
use mathlib.Core.List.{reverse, reverse-append, reverse-cons, append_assoc}
use aural_server.Text.{Text, trim_space}
use aural_server.ClientIp.{
  Net, Request, forwarded_for, trusted_by, unmapped, host_text, remote_peer, walk, from_peer,
  client_ip,
}

reverse_middle :
    (ls rs : List Text) (h : Text) → reverse (ls ++ h ∷ rs) ≡ reverse rs ++ h ∷ reverse ls
reverse_middle ls rs h =
    reverse-append ls (h ∷ rs)
    ∙ ap (λ l. l ++ reverse ls) (reverse-cons h rs)
    ∙ append_assoc (reverse rs) (h ∷ []) (reverse ls)

module _ (net : Net) (trusted : List net.Prefix) where
  -- Whether a hop is an address of one of the proxies that the operator named.
  unfoldable pub vouches : Text → Bool
  unfolding unmapped
  vouches hop = elim (unmapped net (net.parse_addr (trim_space hop))) [
    | none ↦ false
    | some addr ↦ trusted_by net addr trusted
  ]

  walk_stops :
      (peer : net.Addr) (hop : Text) (ls ls' : List Text)
      → vouches hop ≡ false
      → walk net trusted peer (hop ∷ ls) ≡ walk net trusted peer (hop ∷ ls')
  unfolding walk vouches
  walk_stops peer hop ls ls' v =
      elim (Option-cases (unmapped net (net.parse_addr (trim_space hop)))) [
        | inl broken ↦ ground (arith, broken)
        | inr (addr, read) ↦ ground (arith, read, v)
      ]

  walk_same :
      (peer : net.Addr) (rs : List Text) (hop : Text) (ls ls' : List Text)
      → vouches hop ≡ false
      → walk net trusted peer (rs ++ hop ∷ ls) ≡ walk net trusted peer (rs ++ hop ∷ ls')
  unfolding walk
  walk_same peer [] hop ls ls' v = walk_stops peer hop ls ls' v
  walk_same peer (r ∷ rs) hop ls ls' v =
      elim (Option-cases (unmapped net (net.parse_addr (trim_space r)))) [
        | inl broken ↦ ground (arith, broken)
        | inr (addr, read) ↦ ground (arith, read, walk_same addr rs hop ls ls' v)
      ]

  module _ (r r' : Request) (ls ls' rs : List Text) (hop : Text) (v : vouches hop ≡ false) where
    hops_same :
        (peer : net.Addr)
        → forwarded_for r ≡ ls ++ hop ∷ rs
        → forwarded_for r' ≡ ls' ++ hop ∷ rs
        → walk net trusted peer (reverse (forwarded_for r))
          ≡ walk net trusted peer (reverse (forwarded_for r'))
    hops_same peer f f' =
        ap (λ l. walk net trusted peer (reverse l)) f
        ∙ ap (walk net trusted peer) (reverse_middle ls rs hop)
        ∙ walk_same peer (reverse rs) hop (reverse ls) (reverse ls') v
        ∙ sym (ap (walk net trusted peer) (reverse_middle ls' rs hop))
        ∙ sym (ap (λ l. walk net trusted peer (reverse l)) f')

    from_same :
        (o : Option net.Addr)
        → r.remote_addr ≡ r'.remote_addr
        → forwarded_for r ≡ ls ++ hop ∷ rs
        → forwarded_for r' ≡ ls' ++ hop ∷ rs
        → from_peer net trusted r o ≡ from_peer net trusted r' o
    unfolding from_peer
    from_same none same f f' = same
    from_same (some peer) same f f' =
        ap (λ a. if not (trusted_by net peer trusted) then net.addr_text peer else net.addr_text a)
          (hops_same peer f f')

  -- Two requests from the same peer, whose forwarded hops agree from one on that is no address of a
  -- named proxy, come from the same client: what stands in front of that hop changes nothing.
  pub client_ip_lem :
      (r r' : Request) (ls ls' rs : List Text) (hop : Text)
      → r.remote_addr ≡ r'.remote_addr
      → forwarded_for r ≡ ls ++ hop ∷ rs
      → forwarded_for r' ≡ ls' ++ hop ∷ rs
      → vouches hop ≡ false
      → client_ip net trusted r ≡ client_ip net trusted r'
  unfolding client_ip remote_peer
  client_ip_lem r r' ls ls' rs hop same f f' v =
      ap
        (λ a.
          from_peer net trusted r
            (unmapped net (net.parse_addr (host_text net a (net.split_host a)))))
        same
      ∙ from_same r r' ls ls' rs hop v (remote_peer net r') same f f'
