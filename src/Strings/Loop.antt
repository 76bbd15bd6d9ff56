-- ===== src/Strings/Loop.antt =====
-- The program's loops `for (i = pj_strtok(.., 0); i != slen; i = pj_strtok(.., i + token.slen))`:
-- app/media_helper.c, app/dns.c and `set_mwi_list` of app/getopts.c.
use sippak.Prelude.{
  ℕ, zero, suc, ◌+◌, ◌-◌, ◌≤◌, ◌<◌, ◌≡◌, ◌≢◌, refl, sym, ap, ◌∙◌, true, false, List, [], ◌∷◌, ◌++◌,
  Option, none, some, length, drop, length-append, length-drop, drop-drop, drop-length-append, ◌==◌,
  arith,
}
use sippak.CString.{Bytes}
use sippak.Strings.Tokens.{
  tokens, tokens_none, ==_false, only_seps, token_at, scan, length-token, tokens_at,
}
use sippak.Strings.{Strings, StringLaws}

-- What a loop's body does: go on with its variables, or leave the loop with a result.
pub data Flow {ℓ} (S R : Type ℓ) : Type ℓ where
  next : S → Flow S R
  stop : R → Flow S R

module _ {ℓ} {S R : Type ℓ} where
  abbrev pub resume : (S → R) → Flow S R → R
  resume k (next s) = k s
  resume k (stop r) = r

  abbrev proceed : (S → Option R) → Flow S R → Option R
  proceed k (next s) = k s
  proceed k (stop r) = some r

  proceed-resume :
      (k : S → Option R) (j : S → R) (b : Flow S R)
      → ((s : S) → k s ≡ some (j s))
      → proceed k b ≡ some (resume j b)
  proceed-resume k j (next s) h = h s
  proceed-resume k j (stop r) h = refl

module _ {ℓ} {S R : Type ℓ} (body : Bytes → S → Flow S R) (finish : S → R) where
  -- The loop over a list of tokens.
  unfoldable pub fold_tokens : List Bytes → S → R
  fold_tokens [] s = finish s
  fold_tokens (t ∷ ts) s = resume (λ s'. fold_tokens ts s') (body t s)

-- The loop as written, on fuel: `found` is the index that the last call gave, `token` its token.
unfoldable pub token_loop {ℓ} :
    {S R : Type ℓ} (body : Bytes → S → Flow S R) (finish : S → R) (lib : Strings) (text : Bytes)
    (d : ℕ) (fuel start : ℕ)
    → S
    → Option R
token_loop body finish lib text d zero start s = none
token_loop body finish lib text d (suc f) start s =
    let (found, token) = lib.strtok text d start in
    elim (found == length text) [
      | true ↦ some (finish s)
      | false ↦
          proceed (λ s'. token_loop body finish lib text d f (found + length token) s')
            (body token s)
    ]

==_refl : (n : ℕ) → (n == n) ≡ true
==_refl n = ground arith

module _ {ℓ} {S R : Type ℓ} (body : Bytes → S → Flow S R) (finish : S → R) (lib : Strings) where
  token_loop_end :
      (text : Bytes) (d f start : ℕ) (s : S)
      → (lib.strtok text d start).0 ≡ length text
      → token_loop body finish lib text d (suc f) start s ≡ some (finish s)
  unfolding token_loop
  token_loop_end text d f start s e = rw (e, ==_refl, token_loop)

  -- The rest of the loop, after a call that gave this index and token.
  abbrev rest_of : Bytes → ℕ → ℕ → S → ℕ × Bytes → Option R
  rest_of text d f s p =
      proceed (λ s'. token_loop body finish lib text d f (p.0 + length p.1) s') (body p.1 s)

  token_loop_open :
      (text : Bytes) (d f start : ℕ) (s : S)
      → (lib.strtok text d start).0 ≢ length text
      → token_loop body finish lib text d (suc f) start s
        ≡ rest_of text d f s (lib.strtok text d start)
  unfolding token_loop
  token_loop_open text d f start s ne =
      rw (==_false (lib.strtok text d start).0 (length text) ne, token_loop)

  token_loop_step :
      (text : Bytes) (d f start : ℕ) (s : S) {p : ℕ × Bytes}
      → lib.strtok text d start ≡ p
      → p.0 ≢ length text
      → token_loop body finish lib text d (suc f) start s ≡ rest_of text d f s p
  token_loop_step text d f start s e ne =
      token_loop_open text d f start s (λ q. ne (ap (λ (p : ℕ × Bytes). p.0) (sym e) ∙ q))
      ∙ ap (rest_of text d f s) e

length-parts :
    (text : Bytes) (start : ℕ) (seps token rest : Bytes)
    → drop start text ≡ seps ++ (token ++ rest)
    → length text - start ≡ length seps + (length token + length rest)
length-parts text start seps token rest eq =
    sym (length-drop start text)
    ∙ ap length eq
    ∙ length-append seps (token ++ rest)
    ∙ ap (λ n. length seps + n) (length-append token rest)

drop-token :
    (text : Bytes) (start : ℕ) (seps token rest : Bytes)
    → drop start text ≡ seps ++ (token ++ rest)
    → drop (start + length seps + length token) text ≡ rest
drop-token text start seps token rest eq =
    sym (drop-drop (start + length seps) (length token) text)
    ∙ ap (drop (length token)) (
        sym (drop-drop start (length seps) text)
        ∙ ap (drop (length seps)) eq
        ∙ drop-length-append seps (token ++ rest))
    ∙ drop-length-append token rest

module _ {ℓ} {S R : Type ℓ} (body : Bytes → S → Flow S R) (finish : S → R) {lib : Strings} where
  module _ (laws : StringLaws lib) (text : Bytes) (d : ℕ) where
    abbrev Agrees : ℕ → ℕ → S → Type ℓ
    Agrees f start s =
        token_loop body finish lib text d f start s
        ≡ some (fold_tokens body finish (tokens d (drop start text)) s)

    token_loop_from :
        (f start : ℕ) (s : S) → start ≤ length text → length text < start + f → Agrees f start s
    token_loop_from zero start s h room = absurd (omega arith)
    token_loop_from (suc f) start s h room = elim (scan d (drop start text)) [
      | only_seps all ↦
          token_loop_end body finish lib text d f start s (laws.strtok_none text d start h all)
          ∙ rw (tokens_none d _ all) (unfold fold_tokens in refl)
      | token_at seps token rest eq all t end ↦
          let size = length-parts text start seps token rest eq in
          let filled = length-token d token t in
          let found = start + length seps in
          let later : (s' : S) → Agrees f (found + length token) s' =
            λ s'. token_loop_from f (found + length token) s' (omega arith) (omega arith) in
          token_loop_step body finish lib text d f start s
            (laws.strtok_some text d start seps token rest h eq all t end) (omega arith)
          ∙ proceed-resume _ (fold_tokens body finish (tokens d rest)) (body token s)
              (λ s'. rw (drop-token text start seps token rest eq) at (later s'))
          ∙ rw (eq, tokens_at d seps token rest all t end) (unfold fold_tokens in refl)
    ]

    -- Enough fuel is one more than the text is long, and the loop is the fold over its tokens.
    pub token_loop_lem :
        (s : S)
        → token_loop body finish lib text d (suc (length text)) 0 s
          ≡ some (fold_tokens body finish (tokens d text) s)
    token_loop_lem s = token_loop_from (suc (length text)) 0 s (omega arith) (omega arith)
