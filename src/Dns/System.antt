-- ===== src/Dns/System.antt =====
-- `system_resolv_ns` of app/dns.c: the system's name servers in the arrays.
use sippak.Prelude.{
  ℕ, ◌+◌, ◌≤◌, ◌<◌, ◌≡◌, refl, sym, ◌∙◌, true, List, [], ◌∷◌, ◌++◌, map, Option, some, length, take,
  filter, ltb, Bool-cases, inl, inr, if◌then◌else◌, take-length-append, length-append, length-take,
  length-map, append_assoc, append-nil, take_all, arith,
}
use sippak.Config.{Outcome, ok, max_ns_count}
use sippak.Dns.{Server, Filled, NsAddr, store, resolv_loop, system_resolv_ns}
use sippak.Dns.Arrays.{Stored}
use sippak.Getopts.Headers.Laws.{write_at_end}

-- The system's IPv4 servers.
abbrev pub server_at : NsAddr → Server
server_at addr = record { ip = addr.addr_str; port = addr.sin_port }

abbrev pub inet_servers : List NsAddr → List Server
inet_servers addrs = map server_at (filter NsAddr.is_inet addrs)

-- The arrays behind some servers: these in front, and free slots behind.
record Front (servers : List Server) (r : Outcome Filled) : Type 0 where
  rest : List (Option Server)
  returns : r ≡ ok (length servers, map some servers ++ rest)

write_front :
    (acc : List Server) (x : Option Server) (rest : List (Option Server)) (s : Server)
    → store s (length acc, map some acc ++ (x ∷ rest))
      ≡ ok (length acc + 1, map some (acc ++ (s ∷ [])) ++ rest)
unfolding store
write_front acc x rest s = rw (write_at_end acc x rest s) refl

keep :
    (rest : List (Option Server)) (loop_ns : ℕ) (addrs : List NsAddr) (addr : NsAddr)
    (acc : List Server)
    → length acc ≤ loop_ns
    → loop_ns ≤ length acc + length rest
    → ltb (length acc) loop_ns ≡ true
    → addr.is_inet ≡ true
    → ((rest' : List (Option Server))
        → length (acc ++ (server_at addr ∷ [])) ≤ loop_ns
        → loop_ns ≤ length (acc ++ (server_at addr ∷ [])) + length rest'
        → Front (take loop_ns ((acc ++ (server_at addr ∷ [])) ++ inet_servers addrs)) (
            resolv_loop loop_ns addrs (
              length (acc ++ (server_at addr ∷ [])),
              map some (acc ++ (server_at addr ∷ [])) ++ rest',
            )))
    → Front
        (take loop_ns (acc ++ inet_servers (addr ∷ addrs)))
        (resolv_loop loop_ns (addr ∷ addrs) (length acc, map some acc ++ rest))
unfolding resolv_loop
keep [] loop_ns addrs addr acc low high room inet rec = absurd (ground arith)
keep (x ∷ rest) loop_ns addrs addr acc low high room inet rec =
    let longer : length (acc ++ (server_at addr ∷ [])) ≡ length acc + 1 =
      omega (arith, length-append acc (server_at addr ∷ [])) in
    let below : length acc < loop_ns = ground arith in
    let next = rec rest (omega arith) (omega arith) in
    rw (room, inet, write_front acc x rest (server_at addr), sym longer)
      (rw (append_assoc acc (server_at addr ∷ []) (inet_servers addrs)) at next)

resolv_loop-Front :
    (loop_ns : ℕ) (addrs : List NsAddr) (acc : List Server) (rest : List (Option Server))
    → length acc ≤ loop_ns
    → loop_ns ≤ length acc + length rest
    → Front
        (take loop_ns (acc ++ inet_servers addrs))
        (resolv_loop loop_ns addrs (length acc, map some acc ++ rest))
unfolding resolv_loop
resolv_loop-Front loop_ns [] acc rest low high =
    rw (append-nil acc, take_all loop_ns acc low) (record { rest = rest; returns = refl })
resolv_loop-Front loop_ns (addr ∷ addrs) acc rest low high =
    elim (Bool-cases (ltb (length acc) loop_ns)) [
      | inr full ↦
          let same : loop_ns ≡ length acc = ground arith in
          rw (full, same, take-length-append acc (inet_servers (addr ∷ addrs)))
            (record { rest = rest; returns = refl })
      | inl room ↦ elim (Bool-cases addr.is_inet) [
        | inr other ↦ rw (room, other) (resolv_loop-Front loop_ns addrs acc rest low high)
        | inl inet ↦
            keep rest loop_ns addrs addr acc low high room inet
              (resolv_loop-Front loop_ns addrs (acc ++ (server_at addr ∷ [])))
      ]
    ]

take_less :
    (n : ℕ) (xs : List Server) → length xs ≤ n → n ≤ max_ns_count → take n xs ≡ take max_ns_count xs
take_less n xs small low = take_all n xs small ∙ sym (take_all max_ns_count xs (omega arith))

length-filter : (addrs : List NsAddr) → length (inet_servers addrs) ≤ length addrs
length-filter [] = omega arith
length-filter (addr ∷ addrs) = ground (arith, length-filter addrs)

take_count :
    (addrs : List NsAddr)
    → take
        (if ltb max_ns_count (length addrs) then max_ns_count else length addrs)
        (inet_servers addrs)
      ≡ take max_ns_count (inet_servers addrs)
take_count addrs = elim (Bool-cases (ltb max_ns_count (length addrs))) [
  | inl more ↦ rw more refl
  | inr few ↦
      rw few (take_less (length addrs) (inet_servers addrs) (length-filter addrs) (ground arith))
]

first_slots :
    (servers : List Server) (rest : List (Option Server))
    → take (length servers) (map some servers ++ rest) ≡ map some servers
first_slots servers rest =
    rw (sym (length-map servers (λ (s : Server). some s)))
      (take-length-append (map some servers) rest)

Front-Stored :
    {servers : List Server} {r : Outcome Filled}
    → Front (take max_ns_count servers) r
    → Stored servers r
Front-Stored {servers} f =
    let n = length-take max_ns_count servers in
    record {
      ns_idx = length (take max_ns_count servers);
      slots = map some (take max_ns_count servers) ++ f.rest;
      returns = f.returns;
      count = n;
      first = first_slots (take max_ns_count servers) f.rest;
    }

-- With no `--ns`, and a resolver library that starts, the system's IPv4 servers are taken in order,
-- three at most, without writing outside of the three slots.
pub system_resolv_ns-Stored :
    (addrs : List NsAddr) (a b c : Option Server)
    → Stored (inet_servers addrs) (system_resolv_ns (some addrs) (a ∷ b ∷ c ∷ []))
unfolding system_resolv_ns
system_resolv_ns-Stored addrs a b c = Front-Stored (
    rw (take_count addrs) at (
      resolv_loop-Front (if ltb max_ns_count (length addrs) then max_ns_count else length addrs)
        addrs [] (a ∷ b ∷ c ∷ []) (omega arith) (ground arith)))
