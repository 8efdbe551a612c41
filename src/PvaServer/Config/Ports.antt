-- ===== src/PvaServer/Config/Ports.antt =====
-- src/pva/server.rs, `configure`: which settings reach the configuration.
use repics.Prelude.{
  true, false, Option-cases, ok-injective, bind-ok, Bool, if◌then◌else◌, sym, ◌∙◌, ap, ℕ, ◌≤◌, ◌≡◌,
  refl, inl, inr, String, string_eq, Option, none, some, List, [], ◌∷◌, Result, ok, err, ◌>>=◌,
  arith, Result-cases,
}
use repics.Prelude.Map.{Map, get}
use repics.Text.{Text, trim}
use repics.Text.Number.{parse_u16}
use repics.Text.Port.{Ported, unset, blank, number, IsPort, Ported-IsPort}
use mathlib.Core.Path.{subst}
use repics.PvaServer.Config.{
  find_first, unless_empty, is_empty, first, ConfigError, bad_port, AddressLib, Config, port_of,
  parsed_port, or_keep, tcp_keys, udp_keys, or_default, with_interfaces, with_beacons, settled,
  configure,
}

-- The setting that decides: that of the first key that is there, blank or not.
pub data Setting (conf : Map String Text) : List String → Option Text → Type 0 where
  nothing_set : Setting conf [] none
  this_key :
      {k : String} {ks : List String} {v : Text}
      → get k conf ≡ some v
      → Setting conf (k ∷ ks) (some v)
  next_key :
      {k : String} {ks : List String} {s : Option Text}
      → get k conf ≡ none
      → Setting conf ks s
      → Setting conf (k ∷ ks) s

trimmed : Option Text → Option Text
trimmed none = none
trimmed (some v) = some (trim v)

find_first-Setting :
    (conf : Map String Text) (ks : List String)
    → (s : Option Text) × Setting conf ks s × (find_first conf ks ≡ trimmed s)
unfolding find_first trimmed
find_first-Setting conf [] = (none, nothing_set, refl)
find_first-Setting conf (k ∷ ks) = elim (Option-cases (get k conf)) [
  | inl e ↦
      let (s, x, h) = find_first-Setting conf ks in
      (
        s,
        next_key e x,
        ap
              (λ (o : Option Text). elim o as (λ _. Option Text) [
                | some v ↦ some (trim v)
                | none ↦ find_first conf ks
              ])
              e
            ∙ h,
      )
  | inr (v, e) ↦ (
    some v,
    this_key e,
    ap
        (λ (o : Option Text). elim o as (λ _. Option Text) [
          | some w ↦ some (trim w)
          | none ↦ find_first conf ks
        ])
        e,
  )
]

is_empty-nil : (t : Text) → is_empty t ≡ true → t ≡ []
unfolding is_empty
is_empty-nil [] h = refl
is_empty-nil (c ∷ cs) h = cc

-- What a port that is read makes of the one before.
read-Ported :
    {E : Type 0} (ks : List String) (s : Option Text) (o : Option ℕ) (before : ℕ)
    → parsed_port {E = E} ks (unless_empty (trimmed s)) ≡ ok o
    → Ported s (some before) (some (or_keep o before))
unfolding parsed_port unless_empty trimmed or_keep
read-Ported {E} ks none o before h =
    subst (λ q. Ported none (some before) (some (or_keep q before)))
      (ok-injective {E = ConfigError E} h) unset
read-Ported {E} ks (some v) o before h = split (is_empty (trim v)) refl h
  where
    kept :
        {p : Option ℕ}
        → p ≡ o
        → Ported (some v) (some before) (some (or_keep p before))
        → Ported (some v) (some before) (some (or_keep o before))
    kept e x = subst (λ q. Ported (some v) (some before) (some (or_keep q before))) e x

    parsed :
        (n : Option ℕ)
        → parse_u16 (trim v) ≡ n
        → (elim n as (λ _. Result (ConfigError E) (Option ℕ)) [
          | some p ↦ ok (some p)
          | none ↦ err (bad_port ks (trim v))
        ])
          ≡ ok o
        → Ported (some v) (some before) (some (or_keep o before))
    parsed none q k = cc
    parsed (some p) q k = kept {p = some p} (ok-injective {E = ConfigError E} k) (number q)

    split :
        (b : Bool)
        → is_empty (trim v) ≡ b
        → parsed_port {E = E} ks (if b then none else some (trim v)) ≡ ok o
        → Ported (some v) (some before) (some (or_keep o before))
    split true e k =
        kept {p = none} (ok-injective {E = ConfigError E} k) (blank (is_empty-nil (trim v) e))
    split false e k = parsed (parse_u16 (trim v)) refl k

-- What the settings under these keys make of a port.
pub SetTo : Map String Text → List String → ℕ → ℕ → Type 0
SetTo conf ks before after =
    (s : Option Text) × Setting conf ks s × Ported s (some before) (some after)

port_of-SetTo :
    {E : Type 0} (conf : Map String Text) (ks : List String) (o : Option ℕ) (before after : ℕ)
    → port_of {E = E} conf ks ≡ ok o
    → after ≡ or_keep o before
    → SetTo conf ks before after
unfolding port_of first SetTo
port_of-SetTo {E} conf ks o before after h e =
    let (s, x, q) = find_first-Setting conf ks in
    (
      s,
      x,
      subst (λ n. Ported s (some before) (some n)) (sym e)
          (read-Ported ks s o before
            (ap (λ t. parsed_port {E = E} ks (unless_empty t)) (sym q) ∙ h)),
    )

SetTo-le :
    (conf : Map String Text) (ks : List String) {before after : ℕ}
    → SetTo conf ks before after
    → before ≤ 65535
    → after ≤ 65535
unfolding SetTo IsPort
SetTo-le conf ks (s, x, p) h = Ported-IsPort p h

module _ {A : AddressLib} where
  ports-with_interfaces :
      (o : Option Text) (c c' : Config A)
      → with_interfaces o c ≡ ok c'
      → (c'.tcp_port ≡ c.tcp_port) × (c'.udp_port ≡ c.udp_port)
  unfolding with_interfaces or_default
  ports-with_interfaces none c c' h = ground (arith, h)
  ports-with_interfaces (some v) c c' h =
      elim (Result-cases (A.resolve_server_intf_addr_list v c.tcp_port)) [
        | inl (found, q) ↦ ground (arith, q, h)
        | inr (e, q) ↦ ground (arith, q, h)
      ]

  ports-settled :
      (c : Config A) (conf : Map String Text) (tcp udp : Option ℕ) {c' : Config A}
      → settled c conf tcp udp ≡ ok c'
      → (c'.tcp_port ≡ or_keep tcp c.tcp_port) × (c'.udp_port ≡ or_keep udp c.udp_port)
  unfolding settled
  ports-settled c conf tcp udp {c'} h =
      go (with_interfaces (first conf ("EPICS_PVAS_INTF_ADDR_LIST" ∷ [])) start) refl h
    where
      start : Config A
      start = record c { tcp_port = or_keep tcp c.tcp_port; udp_port = or_keep udp c.udp_port }

      go :
          (r : Result (ConfigError A.Error) (Config A))
          → with_interfaces (first conf ("EPICS_PVAS_INTF_ADDR_LIST" ∷ [])) start ≡ r
          → (r >>= λ d. ok (
              with_beacons
                (first conf ("EPICS_PVAS_AUTO_BEACON_ADDR_LIST" ∷ "EPICS_PVA_AUTO_ADDR_LIST" ∷ []))
                (first conf ("EPICS_PVAS_BEACON_ADDR_LIST" ∷ "EPICS_PVA_ADDR_LIST" ∷ []))
                d))
            ≡ ok c'
          → (c'.tcp_port ≡ or_keep tcp c.tcp_port) × (c'.udp_port ≡ or_keep udp c.udp_port)
      go (err e) q k = cc
      go (ok d) q k =
          let p = ports-with_interfaces (first conf ("EPICS_PVAS_INTF_ADDR_LIST" ∷ [])) start d q in
          unfold with_beacons in ground (arith, k, p.0, p.1)

  -- A configuration that is accepted listens on the ports that are set: the server's key decides, or the
  -- common one where the server's is not there at all; a 16-bit number in it is the port, and where
  -- it is blank, or no key is there, the port stays. If the ports that it had fit 16 bits, all do.
  pub configure-ports :
      (c : Config A) (conf : Map String Text) {c' : Config A}
      → configure c conf ≡ ok c'
      → c.tcp_port ≤ 65535
      → c.udp_port ≤ 65535
      → SetTo conf ("EPICS_PVAS_SERVER_PORT" ∷ "EPICS_PVA_SERVER_PORT" ∷ []) c.tcp_port c'.tcp_port
        × SetTo conf
            ("EPICS_PVAS_BROADCAST_PORT" ∷ "EPICS_PVA_BROADCAST_PORT" ∷ [])
            c.udp_port
            c'.udp_port
        × (c'.tcp_port ≤ 65535)
        × (c'.udp_port ≤ 65535)
  unfolding configure
  configure-ports c conf {c'} h t u =
      let (tcp, q, k) = bind-ok (port_of {E = A.Error} conf tcp_keys) _ c' h in
      let (udp, r, z) = bind-ok (port_of {E = A.Error} conf udp_keys) _ c' k in
      let (e, f) = ports-settled c conf tcp udp z in
      let x = port_of-SetTo conf tcp_keys tcp c.tcp_port c'.tcp_port q e in
      let y = port_of-SetTo conf udp_keys udp c.udp_port c'.udp_port r f in
      (x, y, SetTo-le conf tcp_keys x t, SetTo-le conf udp_keys y u)
