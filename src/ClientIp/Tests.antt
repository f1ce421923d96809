-- ===== src/ClientIp/Tests.antt =====
-- Tests of internal/gateway/clientip.go, where an address is a text of its own.
use aural_server.Base.{◌≡◌, refl, some, [], ◌∷◌}
use aural_server.Text.{Text, text_eq, trim_space}
use aural_server.ClientIp.{Net, Request, forwarded_for, client_ip, trusted_by}
use aural_server.ClientIp.Vouched.{client_ip_lem, vouches}

abbrev named : Net
named = record {
  Addr = Text;
  Prefix = Text;
  parse_addr = λ s. some s;
  unmap = λ a. a;
  addr_text = λ a. a;
  covers = λ prefix addr. text_eq prefix addr;
  split_host = λ s. some s;
}

-- Through the proxy p, from c, who claims to speak for somebody else.
abbrev honest : Request
honest = record { remote_addr = b'p' ∷ []; forwarded = (b'c' ∷ []) ∷ []; real_ip = [] }

abbrev forged : Request
forged = record { remote_addr = b'p' ∷ []; forwarded = (b'x' ∷ 44 ∷ b'c' ∷ []) ∷ []; real_ip = [] }

seen_through : client_ip named ((b'p' ∷ []) ∷ []) forged ≡ b'c' ∷ []
unfolding client_ip forwarded_for trim_space text_eq
seen_through = refl

client_ip_lem_example :
    client_ip named ((b'p' ∷ []) ∷ []) honest ≡ client_ip named ((b'p' ∷ []) ∷ []) forged
unfolding forwarded_for trim_space vouches text_eq trusted_by
client_ip_lem_example =
    client_ip_lem named ((b'p' ∷ []) ∷ []) honest forged [] ((b'x' ∷ []) ∷ []) [] (b'c' ∷ []) refl
      refl refl refl
