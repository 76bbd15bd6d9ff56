-- ===== src/Dns/Arrays.antt =====
-- The arrays that `sippak_get_ns_list` fills (app/dns.c).
use sippak.Prelude.{ℕ, ◌≡◌, refl, List, [], ◌∷◌, map, Option, some, length, take, min, arith}
use sippak.CString.{Bytes}
use sippak.Strings.{Strings, StringLaws}
use sippak.Strings.Tokens.{tokens}
use sippak.Strings.Loop.{fold_tokens, token_loop_lem}
use sippak.Config.{Outcome, ok, write, max_ns_count}
use sippak.Dns.{Server, Filled, server_of, ns_body, parse_nameservers_string}

-- The first three of the servers, in the arrays' first slots.
pub record Stored (servers : List Server) (r : Outcome Filled) : Type 0 where
  pub ns_idx : ℕ
  pub slots : List (Option Server)
  pub returns : r ≡ ok (ns_idx, slots)
  pub count : ns_idx ≡ min max_ns_count (length servers)
  pub first : take ns_idx slots ≡ map some (take max_ns_count servers)

fold-full :
    (lib : Strings) (ts : List Bytes) (slots : List (Option Server))
    → fold_tokens (ns_body lib) (λ f. ok f) ts (3, slots) ≡ ok (3, slots)
unfolding fold_tokens ns_body
fold-full lib [] slots = refl
fold-full lib (t ∷ ts) slots = fold-full lib ts slots

fold-Stored :
    (lib : Strings) (ts : List Bytes) (a b c : Option Server)
    → Stored (map (server_of lib) ts) (fold_tokens (ns_body lib) (λ f. ok f) ts (0, a ∷ b ∷ c ∷ []))
unfolding fold_tokens ns_body write
fold-Stored lib [] a b c = record {
  ns_idx = 0;
  slots = a ∷ b ∷ c ∷ [];
  returns = refl;
  count = refl;
  first = refl;
}
fold-Stored lib (t ∷ []) a b c = record {
  ns_idx = 1;
  slots = some (server_of lib t) ∷ b ∷ c ∷ [];
  returns = refl;
  count = refl;
  first = refl;
}
fold-Stored lib (t ∷ u ∷ []) a b c = record {
  ns_idx = 2;
  slots = some (server_of lib t) ∷ some (server_of lib u) ∷ c ∷ [];
  returns = refl;
  count = refl;
  first = refl;
}
fold-Stored lib (t ∷ u ∷ v ∷ ts) a b c = record {
  ns_idx = 3;
  slots = some (server_of lib t) ∷ some (server_of lib u) ∷ some (server_of lib v) ∷ [];
  returns = fold-full lib ts _;
  count = omega arith;
  first = refl;
}

-- The loop over the list of `--ns` ends without writing outside of the three slots, counts the
-- tokens, three at most, and holds the servers of the first ones in order.
pub parse_nameservers_string-Stored :
    {lib : Strings} (laws : StringLaws lib) (nameservers : Bytes) (a b c : Option Server)
    → (r : Outcome Filled) × (parse_nameservers_string lib nameservers (a ∷ b ∷ c ∷ []) ≡ some r)
      × Stored (map (server_of lib) (tokens b',' nameservers)) r
unfolding parse_nameservers_string
parse_nameservers_string-Stored {lib} laws nameservers a b c = (
  _,
  token_loop_lem (ns_body lib) (λ f. ok f) laws nameservers b',' (0, a ∷ b ∷ c ∷ []),
  fold-Stored lib (tokens b',' nameservers) a b c,
)
