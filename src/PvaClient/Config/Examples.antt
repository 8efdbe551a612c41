-- ===== src/PvaClient/Config/Examples.antt =====
-- src/pva/client.rs, `configure`: settings on concrete input.
use repics.Prelude.{
  ℕ, ◌≡◌, refl, arith, String, string_eq, none, some, List, [], ◌∷◌, ok, Result, err, eqb,
  if◌then◌else◌,
}
use repics.Prelude.Map.{Map, get}
use repics.Text.{Text, codes, trim, split_whitespace}
use repics.Text.Number.{parse_u16, decimal}
use repics.PvaClient.Config.{ResolverLib, Builder, configure}
use repics.Text.Port.{Ported, IsPort}
use repics.PvaClient.Config.Servers.{NamesFor, configure-sets}

found : Text → Result ℕ (List Text)
found [] = err 1
found (c ∷ t) = if eqb c b'?' then ok [] else ok ((c ∷ t) ∷ t ∷ [])

abbrev resolver : ResolverLib
resolver = record {
  Error = ℕ;
  Addr = Text;
  Endpoints = ℕ;
  parse_endpoints_with_port = λ v p. p;
  to_socket_addrs = found;
}

abbrev nothing_set : Builder resolver
nothing_set = record {
  broadcast_port = none;
  server_port = none;
  auto_addr_list = none;
  addr_list = none;
  name_servers = none;
}

abbrev conf : Map String Text
conf = ("EPICS_PVA_NAME_SERVERS", codes " a  ? b:1") ∷ ("EPICS_PVA_SERVER_PORT", codes " 80 ") ∷ []

abbrev all_set : Builder resolver
all_set = record nothing_set {
  server_port = some 80;
  name_servers = some (codes "a:80" ∷ codes "b:1" ∷ []);
}

configure-conf : configure resolver nothing_set conf ≡ ok all_set
unfolding configure get trim parse_u16 split_whitespace found decimal
configure-conf = refl

none-IsPort : IsPort none
unfolding IsPort
none-IsPort = omega arith

-- The second entry resolves to nothing, and the third has its own port.
configure-sets_example :
    Ported (get "EPICS_PVA_BROADCAST_PORT" conf) none none
    × Ported (get "EPICS_PVA_SERVER_PORT" conf) none (some 80)
    × IsPort none
    × IsPort (some 80)
    × ((n : ℕ) × Ported (get "EPICS_PVA_SERVER_PORT" conf) (some 5075) (some n)
        × NamesFor resolver n (get "EPICS_PVA_NAME_SERVERS" conf) none all_set.name_servers)
configure-sets_example =
    configure-sets resolver nothing_set conf {b' = all_set} configure-conf none-IsPort none-IsPort
