-- ===== src/Getopts/Lists.antt =====
-- `set_mwi_list` of app/getopts.c: the four counts of a message summary.
use sippak.Prelude.{
  ℕ, suc, ◌+◌, ◌≡◌, refl, ap, ◌∙◌, List, [], ◌∷◌, ◌++◌, map, Option, some, length, take, leb,
  if◌then◌else◌,
}
use sippak.Prelude.Int.{ℤ, pos, to_int}
use sippak.CString.{Bytes}
use sippak.Config.{Outcome, ok, exit, fault, write}
use sippak.Strings.{Strings, StringLaws}
use sippak.Strings.Tokens.{tokens}
use sippak.Strings.Loop.{Flow, next, stop, token_loop, fold_tokens, token_loop_lem}

module _ (lib : Strings) where
  -- The variables of the loop: `mwi_idx` and the array `app->cfg.mwi`.
  abbrev pub stored : ℕ → Outcome (List ℤ) → Flow (ℕ × List ℤ) (Outcome (List ℤ))
  stored mwi_idx (ok mwi) = next (mwi_idx, mwi)
  stored mwi_idx (exit s) = stop (exit s)
  stored mwi_idx fault = stop fault

  -- `app->cfg.mwi[mwi_idx++] = pj_strtol(&token)`, while `mwi_idx < 4`; the write is undefined out of
  -- the bounds of the array.
  unfoldable pub mwi_body : Bytes → ℕ × List ℤ → Flow (ℕ × List ℤ) (Outcome (List ℤ))
  unfolding write
  mwi_body token (mwi_idx, mwi) =
      if leb 4 mwi_idx
      then stop (ok mwi)
      else stored (mwi_idx + 1) (write mwi mwi_idx (to_int (lib.strtol token)))

  abbrev pub mwi_zero : List ℤ
  mwi_zero = pos 0 ∷ pos 0 ∷ pos 0 ∷ pos 0 ∷ []

  -- `set_mwi_list`, on fuel: the array `app->cfg.mwi` behind it.
  unfoldable pub set_mwi_list : Bytes → Option (Outcome (List ℤ))
  unfolding mwi_body
  set_mwi_list mwi_list_str =
      token_loop mwi_body (λ s. ok s.1) lib mwi_list_str b',' (suc (length mwi_list_str)) 0
        (0, mwi_zero)

fold-mwi :
    (lib : Strings) (ts : List Bytes)
    → fold_tokens (mwi_body lib) (λ s. ok s.1) ts (0, mwi_zero lib)
      ≡ ok (take 4 (map (λ t. to_int (lib.strtol t)) ts ++ mwi_zero lib))
unfolding fold_tokens mwi_body write
fold-mwi lib [] = refl
fold-mwi lib (a ∷ []) = refl
fold-mwi lib (a ∷ b ∷ []) = refl
fold-mwi lib (a ∷ b ∷ c ∷ []) = refl
fold-mwi lib (a ∷ b ∷ c ∷ d ∷ []) = refl
fold-mwi lib (a ∷ b ∷ c ∷ d ∷ e ∷ ts) = refl

-- The loop ends and writes no slot out of the array, which then holds the first four numbers of the list, each as an `int`, with 0 for
-- those missing.
pub set_mwi_list_lem :
    {lib : Strings} (laws : StringLaws lib) (text : Bytes)
    → set_mwi_list lib text
      ≡ some (ok (take 4 (map (λ t. to_int (lib.strtol t)) (tokens b',' text) ++ mwi_zero lib)))
unfolding set_mwi_list
set_mwi_list_lem {lib} laws text =
    token_loop_lem (mwi_body lib) (λ s. ok s.1) laws text b',' (0, mwi_zero lib)
    ∙ ap some (fold-mwi lib (tokens b',' text))
