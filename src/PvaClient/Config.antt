-- ===== src/PvaClient/Config.antt =====
-- src/pva/client.rs, `port` and `configure`: the settings of a client context.
pub mod Servers
pub mod Examples
use Prim.Native.String.{String}
use repics.Prelude.{
  ℕ, Bool, true, false, string_eq, Option, none, some, List, [], ◌∷◌, ◌++◌, Result, ok, err, ◌>>=◌,
  eqb, ◌||◌, if◌then◌else◌,
}
use repics.Prelude.Map.{Map, get}
use repics.Text.{Text, trim, split_whitespace}
use repics.Text.Number.{parse_u16, decimal}
use repics.PvaServer.Config.{yes}

unfoldable pub is_blank : Text → Bool
is_blank [] = true
is_blank (c ∷ cs) = false

pub data ClientError (E : Type 0) : Type 0 where
  bad_port : String → Text → ClientError E
  bad_name_server : Text → E → ClientError E

-- What the library and the resolver make of addresses.
pub record ResolverLib : Type 1 where
  pub Error : Type 0
  pub Addr : Type 0
  pub Endpoints : Type 0
  pub parse_endpoints_with_port : Text → ℕ → Endpoints
  -- `to_socket_addrs`
  pub to_socket_addrs : Text → Result Error (List Addr)

-- What is set of `PvaClientBuilder`.
pub record Builder (R : ResolverLib) : Type 0 where
  pub broadcast_port : Option ℕ
  pub server_port : Option ℕ
  pub auto_addr_list : Option Bool
  pub addr_list : Option R.Endpoints
  pub name_servers : Option (List R.Addr)

parsed : {E : Type 0} → String → Text → Option ℕ → Result (ClientError E) (Option ℕ)
parsed key v none = err (bad_port key v)
parsed key v (some p) = ok (some p)

port_in : {E : Type 0} → String → Option Text → Result (ClientError E) (Option ℕ)
unfolding is_blank parsed
port_in key none = ok none
port_in key (some v) = if is_blank (trim v) then ok none else parsed key v (parse_u16 (trim v))

pub port : {E : Type 0} → Map String Text → String → Result (ClientError E) (Option ℕ)
unfolding port_in
port conf key = port_in key (get key conf)

pub or_default : Option ℕ → ℕ → ℕ
or_default none n = n
or_default (some p) n = p

has_colon : Text → Bool
has_colon [] = false
has_colon (c ∷ cs) = eqb c b':' || has_colon cs

pub with_port : ℕ → Text → Text
unfolding has_colon
with_port default_port tok = if has_colon tok then tok else tok ++ (b':' ∷ decimal default_port)

module _ (R : ResolverLib) where
  -- `servers.extend(it.next())`
  first_of : List R.Addr → List R.Addr
  first_of [] = []
  first_of (a ∷ later) = a ∷ []

  -- One entry, before the ones that follow.
  with_entry :
      Text
      → Result R.Error (List R.Addr)
      → Result (ClientError R.Error) (List R.Addr)
      → Result (ClientError R.Error) (List R.Addr)
  unfolding first_of
  with_entry tok (err e) rest = err (bad_name_server tok e)
  with_entry tok (ok found) rest = rest >>= λ servers. ok (first_of found ++ servers)

  -- The loop over the entries: the first that does not resolve ends it.
  pub resolve_all : ℕ → List Text → Result (ClientError R.Error) (List R.Addr)
  unfolding with_port with_entry
  resolve_all default_port [] = ok []
  resolve_all default_port (tok ∷ toks) =
      with_entry tok (R.to_socket_addrs (with_port default_port tok))
        (resolve_all default_port toks)

  pub keep_or : Option ℕ → Option ℕ → Option ℕ
  keep_or none old = old
  keep_or (some p) old = some p

  set_addresses : Map String Text → Option ℕ → Builder R → Builder R
  unfolding or_default
  set_addresses conf bcast b = record b {
    auto_addr_list = elim (get "EPICS_PVA_AUTO_ADDR_LIST" conf) [
      | none ↦ b.auto_addr_list
      | some v ↦ some (yes v)
    ];
    addr_list = elim (get "EPICS_PVA_ADDR_LIST" conf) [
      | none ↦ b.addr_list
      | some v ↦ some (R.parse_endpoints_with_port v (or_default bcast 5076))
    ];
  }

  set_name_servers :
      Map String Text → Option Text → Builder R → Result (ClientError R.Error) (Builder R)
  unfolding resolve_all port or_default
  set_name_servers conf none b = ok b
  set_name_servers conf (some v) b = do
    p ← port conf "EPICS_PVA_SERVER_PORT"
    servers ← resolve_all (or_default p 5075) (split_whitespace v)
    ok (record b { name_servers = some servers })

  -- `configure`
  pub configure : Builder R → Map String Text → Result (ClientError R.Error) (Builder R)
  unfolding port keep_or set_addresses set_name_servers
  configure b conf = do
    bcast ← port conf "EPICS_PVA_BROADCAST_PORT"
    server ← port conf "EPICS_PVA_SERVER_PORT"
    set_name_servers conf (get "EPICS_PVA_NAME_SERVERS" conf) (
        set_addresses conf bcast (record b {
          broadcast_port = keep_or bcast b.broadcast_port;
          server_port = keep_or server b.server_port;
        }))
