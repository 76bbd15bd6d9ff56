-- ===== src/Dns.antt =====
-- app/dns.c: the list of name servers, from `--ns` or from the system.
pub mod Servers
pub mod Arrays
pub mod System
use sippak.Prelude.{
  ℕ, zero, suc, ◌+◌, Bool, true, false, List, [], ◌∷◌, ◌++◌, Option, none, some, length, ◌==◌, leb,
  ltb, if◌then◌else◌, ◌≡◌, not, min,
}
use sippak.Prelude.Int.{ℤ, pos, negsuc, to_u16, to_int}
use sippak.CString.{Bytes}
use sippak.Strings.{Strings}
use sippak.Strings.Loop.{Flow, next, stop, token_loop}
use sippak.Config.{PjStr, max_ns_count, Outcome, ok, exit, fault, write, ◌>>=◌}

-- `get_server_ip`: the loop `for (; idx < slen && ptr[idx] != ':'; idx++)`.
unfoldable pub get_server_ip : Bytes → Bytes
get_server_ip [] = []
get_server_ip (c ∷ cs) = let rest = get_server_ip cs in if c == b':' then [] else c ∷ rest

abbrev is_zero : ℤ → Bool
is_zero (pos n) = n == 0
is_zero (negsuc n) = false

-- One entry of the arrays `ns` and `ports`.
pub record Server : Type 0 where
  pub ip : Bytes
  pub port : ℕ

-- The arrays, and how many entries are filled.
abbrev pub Filled : Type 0
Filled = ℕ × List (Option Server)

-- `ns[ns_idx] = ..; ports[ns_idx] = ..; ns_idx++`
unfoldable pub store : Server → Filled → Outcome Filled
store server (ns_idx, slots) = do slots' ← write slots ns_idx (some server); ok (ns_idx + 1, slots')

module _ (lib : Strings) where
  -- `port = pj_strtol(&token)`, a `long` that an `int` takes, and the default for 0.
  unfoldable pub port_or_default : Bytes → ℤ
  port_or_default token =
      let port = to_int (lib.strtol token) in if is_zero port then pos 53 else port

  -- `get_port`, behind its second call of `pj_strtok`.
  unfoldable pub port_at : Bytes → ℕ × Bytes → ℤ
  port_at server (found_idx, token) =
      if found_idx == length server then pos 53 else port_or_default token

  unfoldable pub get_port : Bytes → ℤ
  unfolding port_at
  get_port server =
      let (found_idx, token) = lib.strtok server b':' 0 in
      port_at server (lib.strtok server b':' (found_idx + length token))

  unfoldable pub server_of : Bytes → Server
  unfolding get_server_ip get_port
  server_of token = record { ip = get_server_ip token; port = to_u16 (get_port token) }

  abbrev pub or_stop : Outcome Filled → Flow Filled (Outcome Filled)
  or_stop (ok f) = next f
  or_stop (exit s) = stop (exit s)
  or_stop fault = stop fault

  unfoldable pub ns_body : Bytes → Filled → Flow Filled (Outcome Filled)
  unfolding store server_of
  ns_body token (ns_idx, slots) =
      if leb max_ns_count ns_idx
      then next (ns_idx, slots)
      else or_stop (store (server_of token) (ns_idx, slots))

  -- `parse_nameservers_string`, on fuel.
  unfoldable pub parse_nameservers_string : Bytes → List (Option Server) → Option (Outcome Filled)
  unfolding ns_body
  parse_nameservers_string nameservers slots =
      token_loop ns_body (λ f. ok f) lib nameservers b',' (suc (length nameservers)) 0 (0, slots)

-- An entry of `_res.nsaddr_list`: whether its family is IPv4, its address as text, its port.
pub record NsAddr : Type 0 where
  pub is_inet : Bool
  pub addr_str : Bytes
  pub sin_port : ℕ

-- `for (i = 0; ns_idx < loop_ns && i < _res.nscount; i++)`
unfoldable pub resolv_loop : ℕ → List NsAddr → Filled → Outcome Filled
unfolding store
resolv_loop loop_ns [] filled = ok filled
resolv_loop loop_ns (addr ∷ addrs) (ns_idx, slots) =
    let skip = resolv_loop loop_ns addrs (ns_idx, slots) in
    let keep =
      store (record { ip = addr.addr_str; port = addr.sin_port }) (ns_idx, slots)
      >>= resolv_loop loop_ns addrs in
    if not (ltb ns_idx loop_ns) then ok (ns_idx, slots) else if not addr.is_inet then skip else keep

-- `system_resolv_ns`; `none` is a failed `res_init`.
unfoldable pub system_resolv_ns : Option (List NsAddr) → List (Option Server) → Outcome Filled
unfolding resolv_loop
system_resolv_ns none slots = ok (0, slots)
system_resolv_ns (some addrs) slots =
    let nscount = length addrs in
    let loop_ns = if ltb max_ns_count nscount then max_ns_count else nscount in
    resolv_loop loop_ns addrs (0, slots)

-- `sippak_get_ns_list`
unfoldable pub get_ns_list :
    Strings → Option (List NsAddr) → PjStr → List (Option Server) → Option (Outcome Filled)
unfolding parse_nameservers_string system_resolv_ns
get_ns_list lib system none slots = some (system_resolv_ns system slots)
get_ns_list lib system (some nameservers) slots = parse_nameservers_string lib nameservers slots
