-- ===== src/PvaClient/Config/Servers.antt =====
-- src/pva/client.rs, `configure`: the ports and the name servers that settings give.
use mathlib.Core.Path.{subst}
use repics.Prelude.{
  ℕ, ◌≡◌, refl, sym, ap, ◌∙◌, arith, inl, inr, true, false, eqb, String, string_eq, Option, none,
  some, List, [], ◌∷◌, ◌++◌, Result, ok, err, bind-ok, ok-injective, if-split, Bool-cases,
}
use repics.Prelude.Map.{Map, get}
use repics.Text.{Text, trim, split_whitespace}
use repics.Text.Number.{parse_u16, decimal}
use repics.Text.Port.{Ported, unset, blank, number, IsPort, Ported-IsPort}
use repics.PvaClient.Config.{
  is_blank, ClientError, ResolverLib, Builder, parsed, port_in, port, or_default, has_colon,
  with_port, first_of, with_entry, resolve_all, keep_or, set_addresses, set_name_servers, configure,
}

is_blank-nil : (t : Text) → is_blank t ≡ true → t ≡ []
unfolding is_blank
is_blank-nil [] h = refl
is_blank-nil (c ∷ cs) h = cc

-- What the builder and the name servers make of a port that is read.
keep-Ported :
    {E : Type 0} (R : ResolverLib) (conf : Map String Text) (key : String) (o before : Option ℕ)
    → port {E = E} conf key ≡ ok o
    → Ported (get key conf) before (keep_or R o before)
unfolding port port_in parsed keep_or
keep-Ported {E} R conf key o before h = go (get key conf) h
  where
    kept :
        {s : Option Text} {p q : Option ℕ}
        → p ≡ q
        → Ported s before (keep_or R p before)
        → Ported s before (keep_or R q before)
    kept {s} e x = subst (λ q. Ported s before (keep_or R q before)) e x

    parsed_as :
        (v : Text) (n : Option ℕ)
        → parse_u16 (trim v) ≡ n
        → parsed {E = E} key v n ≡ ok o
        → Ported (some v) before (keep_or R o before)
    parsed_as v none q k = cc
    parsed_as v (some p) q k = kept {p = some p} (ok-injective {E = ClientError E} k) (number q)

    go : (s : Option Text) → port_in {E = E} key s ≡ ok o → Ported s before (keep_or R o before)
    go none k = kept (ok-injective {E = ClientError E} k) unset
    go (some v) k =
        if-split (is_blank (trim v)) _ _
          (λ e q. kept {p = none} (ok-injective q) (blank (is_blank-nil (trim v) e)))
          (λ _ q. parsed_as v (parse_u16 (trim v)) refl q) k

keep-default :
    (R : ResolverLib) (o : Option ℕ) (n : ℕ) → keep_or R o (some n) ≡ some (or_default o n)
unfolding keep_or or_default
keep-default R none n = refl
keep-default R (some p) n = refl

-- An entry names its own port, or it has none.
pub data HasColon : Text → Type 0 where
  at_head : {c : ℕ} {cs : Text} → c ≡ b':' → HasColon (c ∷ cs)
  in_tail : {c : ℕ} {cs : Text} → HasColon cs → HasColon (c ∷ cs)

pub data Addressed (default_port : ℕ) (tok : Text) : Text → Type 0 where
  own_port : HasColon tok → Addressed default_port tok tok
  no_port : ¬ HasColon tok → Addressed default_port tok (tok ++ (b':' ∷ decimal default_port))

has_colon-HasColon : (t : Text) → has_colon t ≡ true → HasColon t
unfolding has_colon
has_colon-HasColon [] h = cc
has_colon-HasColon (c ∷ cs) h = elim (Bool-cases (eqb c b':')) [
  | inl e ↦ at_head (ground (arith, e))
  | inr e ↦ in_tail (has_colon-HasColon cs (ground (arith, e, h)))
]

has_colon-false : {t : Text} → HasColon t → has_colon t ≡ false → ⊥
unfolding has_colon
has_colon-false (at_head e) h = ground (arith, e, h)
has_colon-false (in_tail {c} {cs} x) h = has_colon-false x (ground (arith, h))

with_port-Addressed : (n : ℕ) (tok : Text) → Addressed n tok (with_port n tok)
unfolding with_port
with_port-Addressed n tok = elim (Bool-cases (has_colon tok)) [
  | inl e ↦ rw e (own_port (has_colon-HasColon tok e))
  | inr e ↦ rw e (no_port (λ x. has_colon-false x e))
]

module _ (R : ResolverLib) where
  -- The servers of a list of entries: of each, with the default port unless it has one, the first
  -- address to which it resolves, if there is one.
  pub data Servers (default_port : ℕ) : List Text → List R.Addr → Type 0 where
    no_entry : Servers default_port [] []
    unknown :
        {tok asked : Text} {toks : List Text} {found : List R.Addr}
        → Addressed default_port tok asked
        → R.to_socket_addrs asked ≡ ok []
        → Servers default_port toks found
        → Servers default_port (tok ∷ toks) found
    known :
        {tok asked : Text} {toks : List Text} {addr : R.Addr} {others found : List R.Addr}
        → Addressed default_port tok asked
        → R.to_socket_addrs asked ≡ ok (addr ∷ others)
        → Servers default_port toks found
        → Servers default_port (tok ∷ toks) (addr ∷ found)

  with_first :
      {n : ℕ} {tok : Text} {toks : List Text} {found : List R.Addr} (here : List R.Addr)
      → R.to_socket_addrs (with_port n tok) ≡ ok here
      → Servers n toks found
      → Servers n (tok ∷ toks) (first_of R here ++ found)
  unfolding first_of
  with_first [] h x = unknown (with_port-Addressed _ _) h x
  with_first (addr ∷ others) h x = known (with_port-Addressed _ _) h x

  with_entry-Servers :
      {n : ℕ} {tok : Text} {toks : List Text} (r : Result R.Error (List R.Addr))
      (rest : Result (ClientError R.Error) (List R.Addr)) (found : List R.Addr)
      → R.to_socket_addrs (with_port n tok) ≡ r
      → ((later : List R.Addr) → rest ≡ ok later → Servers n toks later)
      → with_entry R tok r rest ≡ ok found
      → Servers n (tok ∷ toks) found
  unfolding with_entry
  with_entry-Servers (err e) rest found q x h = cc
  with_entry-Servers {n} {tok} {toks} (ok here) rest found q x h =
      let (later, e, k) = bind-ok rest (λ servers. ok (first_of R here ++ servers)) found h in
      subst (Servers n (tok ∷ toks)) (ok-injective k) (with_first here q (x later e))

  resolve_all-Servers :
      (n : ℕ) (toks : List Text) (found : List R.Addr)
      → resolve_all R n toks ≡ ok found
      → Servers n toks found
  unfolding resolve_all
  resolve_all-Servers n [] found h = subst (Servers n []) (ok-injective h) no_entry
  resolve_all-Servers n (tok ∷ toks) found h =
      with_entry-Servers _ _ found refl (resolve_all-Servers n toks) h

  -- What the setting of the name servers does, if there is one.
  pub NamesFor : ℕ → Option Text → Option (List R.Addr) → Option (List R.Addr) → Type 0
  NamesFor n none before after = after ≡ before
  NamesFor n (some v) before after =
      (found : List R.Addr) × Servers n (split_whitespace v) found × (after ≡ some found)

  set_name_servers-NamesFor :
      (conf : Map String Text) (names : Option Text) (b : Builder R) (server : Option ℕ)
      {b' : Builder R}
      → port {E = R.Error} conf "EPICS_PVA_SERVER_PORT" ≡ ok server
      → set_name_servers R conf names b ≡ ok b'
      → NamesFor (or_default server 5075) names b.name_servers b'.name_servers
        × (b'.broadcast_port ≡ b.broadcast_port)
        × (b'.server_port ≡ b.server_port)
  unfolding set_name_servers NamesFor
  set_name_servers-NamesFor conf none b server q h = ground (arith, h)
  set_name_servers-NamesFor conf (some v) b server {b'} q h =
      let (p, e, k) = bind-ok (port {E = R.Error} conf "EPICS_PVA_SERVER_PORT") _ b' h in
      let (found, x, z) = bind-ok (resolve_all R (or_default p 5075) (split_whitespace v)) _ b' k in
      let same = ok-injective (sym e ∙ q) in
      let done = ok-injective z in
      (
        (
          found,
          resolve_all-Servers _ (split_whitespace v) found
              (ap (λ o. resolve_all R (or_default o 5075) (split_whitespace v)) (sym same) ∙ x),
          ap (λ c. c.name_servers) (sym done),
        ),
        ap (λ c. c.broadcast_port) (sym done),
        ap (λ c. c.server_port) (sym done),
      )

  -- Settings that are accepted set the broadcast port and the server port to the 16-bit numbers that they
  -- hold, and keep the builder's where they hold none or a blank one; if those fit 16 bits, all do.
  -- The name servers, if they are set, are, of each entry in order, the first address to which it
  -- resolves, if there is one, on the server port of the settings, or 5075 if it is not there or
  -- blank, unless the entry has a colon.
  pub configure-sets :
      (b : Builder R) (conf : Map String Text) {b' : Builder R}
      → configure R b conf ≡ ok b'
      → IsPort b.broadcast_port
      → IsPort b.server_port
      → Ported (get "EPICS_PVA_BROADCAST_PORT" conf) b.broadcast_port b'.broadcast_port
        × Ported (get "EPICS_PVA_SERVER_PORT" conf) b.server_port b'.server_port
        × IsPort b'.broadcast_port
        × IsPort b'.server_port
        × ((n : ℕ) × Ported (get "EPICS_PVA_SERVER_PORT" conf) (some 5075) (some n)
            × NamesFor n (get "EPICS_PVA_NAME_SERVERS" conf) b.name_servers b'.name_servers)
  unfolding configure set_addresses
  configure-sets b conf {b'} h x y =
      let (bcast, q, k) = bind-ok (port {E = R.Error} conf "EPICS_PVA_BROADCAST_PORT") _ b' h in
      let (server, r, z) = bind-ok (port {E = R.Error} conf "EPICS_PVA_SERVER_PORT") _ b' k in
      let (names, e, f) =
        set_name_servers-NamesFor conf (get "EPICS_PVA_NAME_SERVERS" conf) _ server r z in
      let u =
        subst (Ported (get "EPICS_PVA_BROADCAST_PORT" conf) b.broadcast_port) (sym e)
          (keep-Ported R conf _ bcast b.broadcast_port q) in
      let v =
        subst (Ported (get "EPICS_PVA_SERVER_PORT" conf) b.server_port) (sym f)
          (keep-Ported R conf _ server b.server_port r) in
      (
        u,
        v,
        Ported-IsPort u x,
        Ported-IsPort v y,
        (
          or_default server 5075,
          subst (Ported (get "EPICS_PVA_SERVER_PORT" conf) (some 5075)) (keep-default R server 5075)
              (keep-Ported R conf _ server (some 5075) r),
          names,
        ),
      )
