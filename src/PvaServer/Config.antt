-- ===== src/PvaServer/Config.antt =====
-- src/pva/server.rs, `yes`, `first`, `port_of` and `configure`: the settings of a PVA server.
pub mod Ports
pub mod Examples
use Prim.Native.Char.{code}
use repics.Prelude.{
  ℕ, ◌+◌, ◌≤◌, ◌≡◌, refl, ap, sym, ◌∙◌, ◌⊎◌, inl, inr, Bool, true, false, not, ◌||◌, ◌&&◌, String,
  string_eq, Option, none, some, List, [], ◌∷◌, Result, ok, err, ◌>>=◌, arith, eqb, leb,
  if◌then◌else◌, Option-cases, Bool-cases, Result-cases,
}
use repics.Prelude.Map.{Map, get}
use repics.Text.{Text, codes, trim}
use repics.Text.Number.{parse_u16, parse_u16-le}

-- `char::to_ascii_lowercase`
abbrev lower : ℕ → ℕ
lower c = if leb b'A' c && leb c b'Z' then c + 32 else c

lowercase : Text → Text
lowercase [] = []
lowercase (c ∷ cs) = lower c ∷ lowercase cs

same : Text → Text → Bool
same [] [] = true
same [] (d ∷ ds) = false
same (c ∷ cs) [] = false
same (c ∷ cs) (d ∷ ds) = eqb c d && same cs ds

is_empty : Text → Bool
is_empty [] = true
is_empty (c ∷ cs) = false

-- `matches!(.., "yes" | "y" | "1" | "true" | "on")`
pub yes : Text → Bool
unfolding lowercase same
yes s =
    let t = lowercase (trim s) in
    same t (codes "yes")
    || same t (codes "y")
    || same t (codes "1")
    || same t (codes "true")
    || same t (codes "on")

-- The first key that is set decides, even if what it is set to is empty.
find_first : Map String Text → List String → Option Text
find_first conf [] = none
find_first conf (k ∷ ks) = elim (get k conf) [ some v ↦ some (trim v) | none ↦ find_first conf ks ]

unless_empty : Option Text → Option Text
unfolding is_empty
unless_empty none = none
unless_empty (some v) = if is_empty v then none else some v

pub first : Map String Text → List String → Option Text
unfolding find_first unless_empty
first conf ks = unless_empty (find_first conf ks)

pub data ConfigError (E : Type 0) : Type 0 where
  bad_port : List String → Text → ConfigError E
  bad_interfaces : E → ConfigError E

-- What the library makes of address lists.
pub record AddressLib : Type 1 where
  pub Error : Type 0
  pub Interfaces : Type 0
  pub Endpoints : Type 0
  pub no_interfaces : Interfaces
  pub resolve_server_intf_addr_list : Text → ℕ → Result Error (Option Interfaces)
  pub parse_endpoints_with_port : Text → ℕ → Endpoints

pub record Config (A : AddressLib) : Type 0 where
  pub tcp_port : ℕ
  pub udp_port : ℕ
  pub interfaces : A.Interfaces
  pub auto_beacon : Bool
  pub beacon_destinations : A.Endpoints

parsed_port : {E : Type 0} → List String → Option Text → Result (ConfigError E) (Option ℕ)
parsed_port ks none = ok none
parsed_port ks (some v) = elim (parse_u16 v) [ some p ↦ ok (some p) | none ↦ err (bad_port ks v) ]

pub port_of : {E : Type 0} → Map String Text → List String → Result (ConfigError E) (Option ℕ)
unfolding parsed_port
port_of conf ks = parsed_port ks (first conf ks)

or_keep {ℓ} : {A : Type ℓ} → Option A → A → A
or_keep none a = a
or_keep (some b) a = b

abbrev pub tcp_keys : List String
tcp_keys = "EPICS_PVAS_SERVER_PORT" ∷ "EPICS_PVA_SERVER_PORT" ∷ []

abbrev pub udp_keys : List String
udp_keys = "EPICS_PVAS_BROADCAST_PORT" ∷ "EPICS_PVA_BROADCAST_PORT" ∷ []

module _ {A : AddressLib} where
  or_default : Option A.Interfaces → Config A → Config A
  or_default found c = record c { interfaces = or_keep found A.no_interfaces }

  with_interfaces : Option Text → Config A → Result (ConfigError A.Error) (Config A)
  unfolding or_default or_keep
  with_interfaces none c = ok c
  with_interfaces (some v) c = elim (A.resolve_server_intf_addr_list v c.tcp_port) [
    | ok found ↦ ok (or_default found c)
    | err e ↦ err (bad_interfaces e)
  ]

  with_beacons : Option Text → Option Text → Config A → Config A
  unfolding yes
  with_beacons auto destinations c =
      let c' = record c { auto_beacon = elim auto [ some v ↦ yes v | none ↦ c.auto_beacon ] } in
      let default_port = if eqb c'.udp_port 0 then 5076 else c'.udp_port in
      record c' {
        beacon_destinations = elim destinations [
          | some v ↦ A.parse_endpoints_with_port v default_port
          | none ↦ c'.beacon_destinations
        ];
      }

  -- `configure` once both ports are read.
  settled :
      Config A → Map String Text → Option ℕ → Option ℕ → Result (ConfigError A.Error) (Config A)
  unfolding or_keep with_interfaces with_beacons first
  settled c conf tcp udp = do
    c' ←
        with_interfaces (first conf ("EPICS_PVAS_INTF_ADDR_LIST" ∷ []))
          (record c { tcp_port = or_keep tcp c.tcp_port; udp_port = or_keep udp c.udp_port })
    ok (
        with_beacons
          (first conf ("EPICS_PVAS_AUTO_BEACON_ADDR_LIST" ∷ "EPICS_PVA_AUTO_ADDR_LIST" ∷ []))
          (first conf ("EPICS_PVAS_BEACON_ADDR_LIST" ∷ "EPICS_PVA_ADDR_LIST" ∷ [])) c')

  pub configure : Config A → Map String Text → Result (ConfigError A.Error) (Config A)
  unfolding port_of settled
  configure c conf = do
    tcp ← port_of conf tcp_keys
    udp ← port_of conf udp_keys
    settled c conf tcp udp
