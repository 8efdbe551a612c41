-- ===== src/CaServer/Port.antt =====
-- src/ca_server.rs, `resolve_port`: the port a CA server is to listen on.
use repics.Prelude.{
  ℕ, ◌≤◌, ◌≡◌, refl, Bool, true, false, String, string_eq, Option, none, some, List, [], ◌∷◌, ◌++◌,
  arith, if◌then◌else◌,
}
use repics.Prelude.Map.{Map, get}
use repics.Text.{Text, trim}
use repics.Text.Number.{parse_u16, parse_u16-le}

abbrev pub default_ca_port : ℕ
default_ca_port = 5064

abbrev keys : List String
keys = "EPICS_CAS_SERVER_PORT" ∷ "EPICS_CA_SERVER_PORT" ∷ []

or_else {ℓ} : {A : Type ℓ} → Option A → Option A → Option A
or_else none b = b
or_else (some a) b = some a

parsed : Option Text → Option ℕ
parsed none = none
parsed (some v) = parse_u16 (trim v)

-- One loop over the keys: the first whose value parses.
port_in : Map String Text → List String → Option ℕ
unfolding or_else parsed
port_in c [] = none
port_in c (k ∷ ks) = or_else (parsed (get k c)) (port_in c ks)

in_conf : Option (Map String Text) → Option ℕ
unfolding port_in
in_conf none = none
in_conf (some c) = port_in c keys

-- `conf` is the argument, `env` the process environment.
pub resolve_port : Option (Map String Text) → Map String Text → Bool → Bool → ℕ
unfolding in_conf
resolve_port conf env useenv isolate =
    if isolate
    then 0
    else elim (or_else (in_conf conf) (if useenv then port_in env keys else none)) [
      | some p ↦ p
      | none ↦ default_ca_port
    ]

-- The settings in the order in which they count.
settings_of : Map String Text → List String → List (Option Text)
settings_of c [] = []
settings_of c (k ∷ ks) = get k c ∷ settings_of c ks

pub settings : Option (Map String Text) → Map String Text → Bool → List (Option Text)
unfolding settings_of
settings conf env useenv =
    elim conf [ none ↦ [] | some c ↦ settings_of c keys ]
    ++ (if useenv then settings_of env keys else [])

-- The first setting that is a port number, surrounding white space aside.
pub first_port : List (Option Text) → Option ℕ
unfolding parsed
first_port [] = none
first_port (v ∷ vs) = elim (parsed v) [ some p ↦ some p | none ↦ first_port vs ]

first_port-append :
    (vs ws : List (Option Text)) → first_port (vs ++ ws) ≡ or_else (first_port vs) (first_port ws)
unfolding first_port or_else
first_port-append [] ws = refl
first_port-append (v ∷ vs) ws = ground (arith, first_port-append vs ws)

port_in-first :
    (c : Map String Text) (ks : List String) → port_in c ks ≡ first_port (settings_of c ks)
unfolding port_in first_port settings_of or_else
port_in-first c [] = refl
port_in-first c (k ∷ ks) = ground (arith, port_in-first c ks)

first_port-le : (vs : List (Option Text)) (p : ℕ) → first_port vs ≡ some p → p ≤ 65535
unfolding first_port
first_port-le [] p e = cc
first_port-le (none ∷ vs) p e = unfold parsed in ground (arith, first_port-le vs p)
first_port-le (some v ∷ vs) p e =
    unfold parsed in ground (arith, first_port-le vs p, parse_u16-le (trim v) p)

-- An isolated server takes port 0. Any other takes the first setting that is a 16-bit number: the
-- server's key and then the common key of `conf`, and, if the environment is to be used, the same two
-- of the environment; a setting that is no such number is passed over, and without one it is 5064.
-- The result fits 16 bits.
pub resolve_port-first :
    (conf : Option (Map String Text)) (env : Map String Text) (useenv : Bool)
    → (resolve_port conf env useenv true ≡ 0)
      × (resolve_port conf env useenv false
          ≡ elim (first_port (settings conf env useenv)) [ some p ↦ p | none ↦ default_ca_port ])
      × (resolve_port conf env useenv false ≤ 65535)
unfolding resolve_port in_conf settings first_port
resolve_port-first conf env useenv =
    let e = same conf useenv in
    (
      refl,
      ground (arith, e),
      ground (
        arith,
        e,
        bounded (first_port (settings conf env useenv)) (first_port-le (settings conf env useenv)),
      ),
    )
  where
    same :
        (conf : Option (Map String Text)) (useenv : Bool)
        → or_else (in_conf conf) (if useenv then port_in env keys else none)
          ≡ first_port (settings conf env useenv)
    same none true = unfold or_else in ground (arith, port_in-first env keys)
    same none false = unfold or_else in refl
    same (some c) true = ground (
      arith,
      port_in-first env keys,
      port_in-first c keys,
      first_port-append (settings_of c keys) (settings_of env keys),
    )
    same (some c) false =
        ground (arith, port_in-first c keys, first_port-append (settings_of c keys) [])

    bounded :
        (o : Option ℕ)
        → ((p : ℕ) → o ≡ some p → p ≤ 65535)
        → elim o [ some p ↦ p | none ↦ default_ca_port ] ≤ 65535
    bounded none h = ground arith
    bounded (some p) h = h p refl
