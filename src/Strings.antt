-- ===== src/Strings.antt =====
-- What the program takes from pjlib's string functions: the operations, and their documented
-- behaviour (pj/string.h, pjlib-util/string.h).
pub mod Tokens
pub mod Loop
pub mod Reference
use sippak.Prelude.{
  ℕ, ◌+◌, ◌≤◌, ◌<◌, ◌^◌, ◌≡◌, ◌≢◌, ◌↔◌, ◌⊎◌, Bool, true, false, List, [], ◌∷◌, ◌++◌, map, length,
  ◌==◌, ◌||◌, take, drop, All,
}
use sippak.Prelude.Int.{ℤ, pos}
use sippak.CString.{Bytes, is_space, is_digit, lower, decimal, all_digits}

-- `strnicmp` is whether `pj_strnicmp2`, `pj_ansi_strnicmp` give 0. `strtok` is `pj_strtok` with a
-- delimiter of one byte: the index of the token, and the token. `strstr` is whether `pj_strstr` finds
-- the second text in the first. `atoi_overflow` is what `atoi`
-- gives where the C standard leaves it undefined.
pub record Strings : Type 0 where
  pub isspace : ℕ → Bool
  pub strtrim : Bytes → Bytes
  pub strnicmp : Bytes → Bytes → ℕ → Bool
  pub strtol : Bytes → ℤ
  pub strtok : Bytes → ℕ → ℕ → ℕ × Bytes
  pub strstr : Bytes → Bytes → Bool
  pub atoi_overflow : Bytes → ℤ

-- No white space at either end.
abbrev pub StartsPlain : Bytes → Type 0
StartsPlain [] = Unit
StartsPlain (c ∷ cs) = is_space c ≡ false

abbrev pub EndsPlain : Bytes → Type 0
EndsPlain [] = Unit
EndsPlain (c ∷ []) = is_space c ≡ false
EndsPlain (c ∷ cs) = EndsPlain cs

abbrev pub IsTrimmed : Bytes → Type 0
IsTrimmed s = StartsPlain s × EndsPlain s

-- A token: not empty, and without the delimiter.
abbrev pub IsToken : ℕ → Bytes → Type 0
IsToken d t = (t ≢ []) × All (λ c. c ≢ d) t

-- What follows a token: nothing, or a delimiter.
abbrev pub StartsWith : ℕ → Bytes → Type 0
StartsWith d [] = Unit
StartsWith d (c ∷ cs) = c ≡ d

abbrev pub NoDigit : Bytes → Type 0
NoDigit [] = Unit
NoDigit (c ∷ cs) = is_digit c ≡ false

abbrev pub NotNumeral : Bytes → Type 0
NotNumeral [] = Unit
NotNumeral (c ∷ cs) = (is_digit c ≡ false) × (is_space c ≡ false) × (c ≢ b'-') × (c ≢ b'+')

abbrev pub contains : ℕ → Bytes → Bool
contains d [] = false
contains d (c ∷ cs) = c == d || contains d cs

pub record StringLaws (s : Strings) : Type 0 where
  pub isspace_lem : (c : ℕ) → s.isspace c ≡ is_space c
  pub strtrim_lem :
      (front text back : Bytes)
      → All (λ c. is_space c ≡ true) front
      → All (λ c. is_space c ≡ true) back
      → IsTrimmed text
      → s.strtrim (front ++ (text ++ back)) ≡ text
  pub strnicmp_lem :
      (a b : Bytes) (n : ℕ)
      → (s.strnicmp a b n ≡ true) ↔ (map lower (take n a) ≡ map lower (take n b))
  pub strtol-digits :
      (digits rest : Bytes)
      → digits ≢ []
      → all_digits digits ≡ true
      → NoDigit rest
      → decimal digits < 2 ^ 63
      → s.strtol (digits ++ rest) ≡ pos (decimal digits)
  pub strtol-NotNumeral : (text : Bytes) → NotNumeral text → s.strtol text ≡ pos 0
  pub strtok_none :
      (text : Bytes) (d start : ℕ)
      → start ≤ length text
      → All (λ c. c ≡ d) (drop start text)
      → (s.strtok text d start).0 ≡ length text
  pub strtok_some :
      (text : Bytes) (d start : ℕ) (seps token rest : Bytes)
      → start ≤ length text
      → drop start text ≡ seps ++ (token ++ rest)
      → All (λ c. c ≡ d) seps
      → IsToken d token
      → StartsWith d rest
      → s.strtok text d start ≡ (start + length seps, token)
  pub strstr_lem : (text : Bytes) (d : ℕ) → s.strstr text (d ∷ []) ≡ contains d text
