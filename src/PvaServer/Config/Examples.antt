-- ===== src/PvaServer/Config/Examples.antt =====
-- A PVA server's configuration, with two ports set.
use repics.Prelude.{ℕ, ◌≤◌, ◌≡◌, refl, arith, true, String, string_eq, none, [], ◌∷◌, ok}
use repics.Prelude.Map.{Map, get}
use repics.Text.{Text, codes, trim}
use repics.Text.Number.{parse_u16}
use repics.PvaServer.Config.{
  AddressLib, Config, configure, settled, port_of, parsed_port, first, find_first, unless_empty,
  with_interfaces, with_beacons, or_keep,
}
use repics.PvaServer.Config.Ports.{SetTo, configure-ports}

abbrev addresses : AddressLib
addresses = record {
  Error = ℕ;
  Interfaces = ℕ;
  Endpoints = ℕ;
  no_interfaces = 0;
  resolve_server_intf_addr_list = λ v p. ok none;
  parse_endpoints_with_port = λ v p. p;
}

abbrev config : Config addresses
config = record {
  tcp_port = 5075;
  udp_port = 5076;
  interfaces = 0;
  auto_beacon = true;
  beacon_destinations = 0;
}

fits : 5075 ≤ 65535
fits = omega arith

fits_too : 5076 ≤ 65535
fits_too = omega arith

-- The server's key is blank, so the common one is not looked at; the other port comes from the common
-- key.
abbrev conf : Map String Text
conf =
    ("EPICS_PVAS_SERVER_PORT", codes " ")
    ∷ ("EPICS_PVA_SERVER_PORT", codes "80")
    ∷ ("EPICS_PVA_BROADCAST_PORT", codes " 81 ")
    ∷ []

abbrev after : Config addresses
after = record config { udp_port = 81 }

configure-conf : configure config conf ≡ ok after
unfolding configure settled port_of parsed_port first find_first unless_empty with_interfaces
    with_beacons or_keep get trim parse_u16
configure-conf = refl

configure-ports_example :
    SetTo conf ("EPICS_PVAS_SERVER_PORT" ∷ "EPICS_PVA_SERVER_PORT" ∷ []) 5075 5075
    × SetTo conf ("EPICS_PVAS_BROADCAST_PORT" ∷ "EPICS_PVA_BROADCAST_PORT" ∷ []) 5076 81
    × (5075 ≤ 65535)
    × (81 ≤ 65535)
configure-ports_example = configure-ports config conf {c' = after} configure-conf fits fits_too
