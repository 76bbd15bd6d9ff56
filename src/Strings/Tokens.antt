-- ===== src/Strings/Tokens.antt =====
-- The tokens of a text: the pieces between its delimiters, without the empty ones.
use sippak.Prelude.{
  ℕ, ◌<◌, ◌≡◌, ◌≢◌, refl, ap, ◌∙◌, inl, inr, Bool, true, false, List, [], ◌∷◌, ◌++◌, length, All,
  filter, ◌==◌, ==_iff, Bool-cases, if◌then◌else◌, arith,
}
use sippak.CString.{Bytes}
use sippak.Strings.{IsToken, StartsWith}

onto_head : ℕ → List Bytes → List Bytes
onto_head c [] = (c ∷ []) ∷ []
onto_head c (w ∷ ws) = (c ∷ w) ∷ ws

-- The pieces between the delimiters, empty ones included.
pub split : ℕ → Bytes → List Bytes
split d [] = [] ∷ []
split d (c ∷ cs) = if c == d then [] ∷ split d cs else onto_head c (split d cs)

abbrev is_filled : Bytes → Bool
is_filled [] = false
is_filled (c ∷ cs) = true

unfoldable pub tokens : ℕ → Bytes → List Bytes
unfolding split onto_head
tokens d s = filter is_filled (split d s)

tokens-seps : (d : ℕ) (seps s : Bytes) → All (λ c. c ≡ d) seps → tokens d (seps ++ s) ≡ tokens d s
unfolding tokens
tokens-seps d [] s h = refl
tokens-seps d (c ∷ seps) s h = rw ((==_iff c d).1 h.0) (tokens-seps d seps s h.1)

pub tokens_none : (d : ℕ) (s : Bytes) → All (λ c. c ≡ d) s → tokens d s ≡ []
unfolding tokens
tokens_none d [] h = refl
tokens_none d (c ∷ s) h = rw ((==_iff c d).1 h.0) (tokens_none d s h.1)

pub ==_false : (a b : ℕ) → a ≢ b → (a == b) ≡ false
==_false a b h = ground arith

split-token :
    (d : ℕ) (token rest : Bytes)
    → All (λ c. c ≢ d) token
    → StartsWith d rest
    → (ws : List Bytes) × (split d (token ++ rest) ≡ token ∷ ws)
      × (filter is_filled ws ≡ tokens d rest)
unfolding tokens
split-token d [] [] h s = ([], refl, refl)
split-token d [] (c ∷ rest) h s = (split d rest, rw ((==_iff c d).1 s), rw ((==_iff c d).1 s))
split-token d (c ∷ token) rest h s =
    let (ws, e, f) = split-token d token rest h.1 s in (ws, rw (==_false c d h.0) (rw e), f)

filled :
    (d : ℕ) (text : Bytes) {token : Bytes} {c : ℕ} {ws : List Bytes}
    → split d text ≡ (c ∷ token) ∷ ws
    → tokens d text ≡ (c ∷ token) ∷ filter is_filled ws
unfolding tokens
filled d text e = rw e

tokens-token :
    (d : ℕ) (token rest : Bytes)
    → IsToken d token
    → StartsWith d rest
    → tokens d (token ++ rest) ≡ token ∷ tokens d rest
tokens-token d [] rest h s = absurd (h.0 refl)
tokens-token d (c ∷ token) rest h s =
    let (ws, e, f) = split-token d (c ∷ token) rest h.1 s in filled d _ e ∙ ap (◌∷◌ (c ∷ token)) f

-- What `pj_strtok` finds: no token, or the first one with what stands round it.
pub data Scan (d : ℕ) (s : Bytes) : Type 0 where
  only_seps : All (λ c. c ≡ d) s → Scan d s
  token_at :
      (seps token rest : Bytes)
      → s ≡ seps ++ (token ++ rest)
      → All (λ c. c ≡ d) seps
      → IsToken d token
      → StartsWith d rest
      → Scan d s

span_token :
    (d : ℕ) (s : Bytes)
    → (token : Bytes) × (rest : Bytes) × (s ≡ token ++ rest)
      × All (λ c. c ≢ d) token
      × StartsWith d rest
span_token d [] = ([], [], refl, tt, tt)
span_token d (c ∷ cs) = elim (Bool-cases (c == d)) [
  | inl e ↦ ([], c ∷ cs, refl, tt, (==_iff c d).0 e)
  | inr e ↦
      let (token, rest, eq, plain, stop) = span_token d cs in
      (c ∷ token, rest, ap (◌∷◌ c) eq, ((λ p. ground arith), plain), stop)
]

scan_cons : (d c : ℕ) (cs : Bytes) → c ≡ d → Scan d cs → Scan d (c ∷ cs)
scan_cons d c cs e (only_seps h) = only_seps (e, h)
scan_cons d c cs e (token_at seps token rest eq h t stop) =
    token_at (c ∷ seps) token rest (ap (◌∷◌ c) eq) (e, h) t stop

pub scan : (d : ℕ) (s : Bytes) → Scan d s
scan d [] = only_seps tt
scan d (c ∷ cs) = elim (Bool-cases (c == d)) [
  | inl e ↦ scan_cons d c cs ((==_iff c d).0 e) (scan d cs)
  | inr e ↦
      let (token, rest, eq, plain, stop) = span_token d cs in
      token_at [] (c ∷ token) rest (ap (◌∷◌ c) eq) tt ((λ p. cc), ((λ p. ground arith), plain)) stop
]

pub length-token : (d : ℕ) (token : Bytes) → IsToken d token → 0 < length token
length-token d [] t = absurd (t.0 refl)
length-token d (c ∷ token) t = omega arith

pub tokens_at :
    (d : ℕ) (seps token rest : Bytes)
    → All (λ c. c ≡ d) seps
    → IsToken d token
    → StartsWith d rest
    → tokens d (seps ++ (token ++ rest)) ≡ token ∷ tokens d rest
tokens_at d seps token rest all t end =
    tokens-seps d seps (token ++ rest) all ∙ tokens-token d token rest t end
