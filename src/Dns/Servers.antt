-- ===== src/Dns/Servers.antt =====
-- What `--ns` gives (app/dns.c).
use sippak.Prelude.{
  ℕ, ◌+◌, ◌%◌, ◌^◌, ◌<◌, ◌≡◌, ◌≢◌, refl, ap, ◌∙◌, true, [], ◌∷◌, ◌++◌, append-nil, length, All,
  length-append, drop-length-append, arith,
}
use sippak.Prelude.Int.{ℤ, pos, to_u16, to_int}
use sippak.CString.{Bytes, all_digits, decimal}
use sippak.Strings.{Strings, StringLaws, IsToken, StartsWith, NotNumeral}
use sippak.Strings.Tokens.{length-token}
use sippak.Dns.{get_server_ip, port_or_default, port_at, get_port, server_of}

get_server_ip-host :
    (host rest : Bytes)
    → All (λ c. c ≢ b':') host
    → StartsWith b':' rest
    → get_server_ip (host ++ rest) ≡ host
unfolding get_server_ip
get_server_ip-host [] [] h s = refl
get_server_ip-host [] (c ∷ rest) h s = ground arith
get_server_ip-host (c ∷ host) rest h s = ground (arith, get_server_ip-host host rest h.1 s)

to_int_small : (n : ℕ) → n < 2 ^ 31 → to_int (pos n) ≡ pos n
to_int_small n h = ground arith

server_of-parts :
    (lib : Strings) (server : Bytes) {host : Bytes} {port : ℤ}
    → get_server_ip server ≡ host
    → get_port lib server ≡ port
    → server_of lib server ≡ record { ip = host; port = to_u16 port }
unfolding server_of
server_of-parts lib server e f = λ i. record { ip = e i; port = to_u16 (f i) }

port_at_end :
    (lib : Strings) (server : Bytes) (p : ℕ × Bytes)
    → p.0 ≡ length server
    → port_at lib server p ≡ pos 53
unfolding port_at
port_at_end lib server p e = ground arith

port_at_found :
    (lib : Strings) (server : Bytes) (found : ℕ) (token : Bytes)
    → found ≢ length server
    → port_at lib server (found, token) ≡ port_or_default lib token
unfolding port_at
port_at_found lib server found token ne = ground arith

module _ {lib : Strings} (laws : StringLaws lib) where
  -- The second call starts where the host ends.
  get_port-host :
      (host rest : Bytes) {second : ℕ × Bytes}
      → IsToken b':' host
      → StartsWith b':' rest
      → lib.strtok (host ++ rest) b':' (length host) ≡ second
      → get_port lib (host ++ rest) ≡ port_at lib (host ++ rest) second
  unfolding get_port
  get_port-host host rest t s e =
      let first = laws.strtok_some (host ++ rest) b':' 0 [] host rest (omega arith) refl tt t s in
      ap
        (λ (p : ℕ × Bytes).
          port_at lib (host ++ rest) (lib.strtok (host ++ rest) b':' (p.0 + length p.1)))
        first
      ∙ ap (λ n. port_at lib (host ++ rest) (lib.strtok (host ++ rest) b':' n)) (zero_length host)
      ∙ ap (port_at lib (host ++ rest)) e
    where
      zero_length : (xs : Bytes) → 0 + 0 + length xs ≡ length xs
      zero_length xs = omega arith

  get_port-nil : (host : Bytes) → IsToken b':' host → get_port lib (host ++ []) ≡ pos 53
  get_port-nil host t =
      get_port-host host [] t tt refl
      ∙ port_at_end lib (host ++ []) _ (
          laws.strtok_none (host ++ []) b':' (length host)
            (omega (arith, length-append host none_left))
            (rw (drop-length-append host none_left) tt))
    where
      none_left : Bytes
      none_left = []

  -- A server with no port has the default port.
  get_port_alone : (host : Bytes) → IsToken b':' host → get_port lib host ≡ pos 53
  get_port_alone host t = rw (append-nil) at (get_port-nil host t)

  -- Otherwise the port is what `pj_strtol` reads from the token behind the colon.
  get_port_second :
      (host token rest : Bytes)
      → IsToken b':' host
      → IsToken b':' token
      → StartsWith b':' rest
      → get_port lib (host ++ (b':' ∷ (token ++ rest))) ≡ port_or_default lib token
  get_port_second host token rest h t s =
      let size = length-append host (b':' ∷ (token ++ rest)) in
      let inner = length-append token rest in
      let filled = length-token b':' token t in
      get_port-host host (b':' ∷ (token ++ rest)) h refl (
        laws.strtok_some (host ++ (b':' ∷ (token ++ rest))) b':' (length host) (b':' ∷ []) token
          rest (omega arith) (drop-length-append host (b':' ∷ (token ++ rest))) (refl, tt) t s)
      ∙ port_at_found lib (host ++ (b':' ∷ (token ++ rest))) (length host + 1) token (omega arith)

  get_port_with :
      (host token : Bytes)
      → IsToken b':' host
      → IsToken b':' token
      → get_port lib (host ++ (b':' ∷ token)) ≡ port_or_default lib token
  get_port_with host token h t = rw (append-nil token) at (get_port_second host token [] h t tt)

  port_or_default-digits :
      (digits : Bytes)
      → digits ≢ []
      → all_digits digits ≡ true
      → decimal digits < 2 ^ 31
      → decimal digits ≢ 0
      → port_or_default lib digits ≡ pos (decimal digits)
  unfolding port_or_default
  port_or_default-digits digits ne h small nz =
      let read = laws.strtol-digits digits [] ne h tt (omega arith) in
      rw (rw (append-nil digits) at read, to_int_small (decimal digits) small) (ground arith)

  port_or_default-NotNumeral : (text : Bytes) → NotNumeral text → port_or_default lib text ≡ pos 53
  unfolding port_or_default
  port_or_default-NotNumeral text h = rw (laws.strtol-NotNumeral text h)

  digits-IsToken : (digits : Bytes) → digits ≢ [] → all_digits digits ≡ true → IsToken b':' digits
  digits-IsToken digits ne h = (ne, plain digits h)
    where
      plain : (ds : Bytes) → all_digits ds ≡ true → All (λ c. c ≢ b':') ds
      plain [] h = tt
      plain (c ∷ ds) h = ((λ e. ground arith), plain ds (ground arith))

  -- `host:digits`, with a number that is not 0 and fits an `int`, is the server `host` with the
  -- number's low 16 bits as its port.
  server_of-digits :
      (host digits : Bytes)
      → IsToken b':' host
      → digits ≢ []
      → all_digits digits ≡ true
      → decimal digits < 2 ^ 31
      → decimal digits ≢ 0
      → server_of lib (host ++ (b':' ∷ digits))
        ≡ record { ip = host; port = decimal digits % 2 ^ 16 }
  server_of-digits host digits h ne d small nz =
      server_of-parts lib _ (get_server_ip-host host (b':' ∷ digits) h.1 refl) (
        get_port_with host digits h (digits-IsToken digits ne d)
        ∙ port_or_default-digits digits ne d small nz)

  -- `host:text`, where neither has a colon and `text` does not begin like a number, is the server
  -- `host` with port 53.
  server_of-NotNumeral :
      (host text : Bytes)
      → IsToken b':' host
      → IsToken b':' text
      → NotNumeral text
      → server_of lib (host ++ (b':' ∷ text)) ≡ record { ip = host; port = 53 }
  server_of-NotNumeral host text h t no_number =
      server_of-parts lib _ (get_server_ip-host host (b':' ∷ text) h.1 refl)
        (get_port_with host text h t ∙ port_or_default-NotNumeral text no_number)

  pub server_of_alone :
      (host : Bytes) → IsToken b':' host → server_of lib host ≡ record { ip = host; port = 53 }
  server_of_alone host h =
      server_of-parts lib host (rw (append-nil host) at (get_server_ip-host host [] h.1 tt))
        (get_port_alone host h)
