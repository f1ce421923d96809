-- ===== src/ClientIp.antt =====
-- internal/gateway/clientip.go: whose address a request came from. `Net` is what the code uses of Go's
-- `netip` and `net`: how an address is read and written, and which proxies the operator named.
pub mod Vouched
mod Tests
use aural_server.Base.{
  ℕ, ◌≡◌, refl, ap, sym, ◌∙◌, Bool, true, false, not, Option, none, some, List, [], ◌∷◌, ◌++◌, ◌==◌,
  if◌then◌else◌, any, arith, Bool-cases, Option-cases, inl, inr,
}
use mathlib.Core.List.{reverse}
use aural_server.Text.{Text, trim_space}

pub record Net : Type 1 where
  pub Addr : Type 0
  pub Prefix : Type 0
  pub parse_addr : Text → Option Addr
  pub unmap : Addr → Addr
  pub addr_text : Addr → Text
  pub covers : Prefix → Addr → Bool
  pub split_host : Text → Option Text

-- A request, as far as this code reads it: the values of `X-Forwarded-For`, in order, and of
-- `X-Real-IP`.
pub record Request : Type 0 where
  pub remote_addr : Text
  pub forwarded : List Text
  pub real_ip : Text

cons_first : ℕ → List Text → List Text
cons_first c [] = (c ∷ []) ∷ []
cons_first c (part ∷ rest) = (c ∷ part) ∷ rest

-- `strings.Split` at commas.
split : Text → List Text
unfolding cons_first
split [] = [] ∷ []
split (c ∷ rest) = let parts = split rest in if c == 44 then [] ∷ parts else cons_first c parts

-- The parts that are not blank.
trimmed : List Text → List Text
trimmed [] = []
trimmed (part ∷ rest) = elim (trim_space part) [
  | [] ↦ trimmed rest
  | c ∷ more ↦ (c ∷ more) ∷ trimmed rest
]

hops_of : List Text → List Text
unfolding split trimmed
hops_of [] = []
hops_of (header ∷ rest) = trimmed (split header) ++ hops_of rest

real_hop : Text → List Text
real_hop [] = []
real_hop (c ∷ rest) = (c ∷ rest) ∷ []

-- `forwardedFor`.
unfoldable pub forwarded_for : Request → List Text
unfolding hops_of real_hop
forwarded_for r = elim (hops_of r.forwarded) [
  | [] ↦ real_hop (trim_space r.real_ip)
  | hop ∷ rest ↦ hop ∷ rest
]

module _ (net : Net) where
  -- `trustedBy`.
  pub trusted_by : net.Addr → List net.Prefix → Bool
  unfolding any
  trusted_by addr trusted = any (λ prefix. net.covers prefix addr) trusted

  host_text : Text → Option Text → Text
  host_text raw none = raw
  host_text raw (some host) = host

  unmapped : Option net.Addr → Option net.Addr
  unmapped none = none
  unmapped (some addr) = some (net.unmap addr)

  -- `remoteAddr`; `none` is the invalid address.
  pub remote_peer : Request → Option net.Addr
  unfolding host_text unmapped
  remote_peer r = unmapped (net.parse_addr (host_text r.remote_addr (net.split_host r.remote_addr)))

  -- The walk of `clientIP` over the hops, the last one first: the address that it ends at.
  pub walk : List net.Prefix → net.Addr → List Text → net.Addr
  unfolding trusted_by unmapped
  walk trusted peer [] = peer
  walk trusted peer (hop ∷ rest) = elim (unmapped (net.parse_addr (trim_space hop))) [
    | none ↦ peer
    | some addr ↦
        let further = walk trusted addr rest in
        if not (trusted_by addr trusted) then addr else further
  ]

  from_peer : List net.Prefix → Request → Option net.Addr → Text
  unfolding walk trusted_by forwarded_for
  from_peer trusted r none = r.remote_addr
  from_peer trusted r (some peer) =
      if not (trusted_by peer trusted)
      then net.addr_text peer
      else net.addr_text (walk trusted peer (reverse (forwarded_for r)))

  -- `clientIP`. Without prefixes nobody is trusted.
  unfoldable pub client_ip : List net.Prefix → Request → Text
  unfolding from_peer remote_peer
  client_ip trusted r = from_peer trusted r (remote_peer r)
