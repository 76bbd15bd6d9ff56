-- ===== src/Strings/Reference.antt =====
-- String functions that meet the laws: an instance at which the theorems can be applied.
use sippak.Prelude.{
  ℕ, suc, ◌+◌, ◌-◌, ◌*◌, ◌≡◌, ◌≢◌, refl, ap, Bool, true, false, ◌&&◌, ◌||◌, [], ◌∷◌, ◌++◌, map,
  length, ◌==◌, ==_iff, take, drop, All, if◌then◌else◌, length-drop, drop-length-append, arith,
}
use sippak.Prelude.Int.{pos, negsuc}
use sippak.CString.{
  Bytes, is_space, is_digit, lower, decimal, decimal_from, all_digits, drop_spaces, signed_decimal,
}
use sippak.Strings.{
  Strings, StringLaws, IsTrimmed, EndsPlain, IsToken, StartsWith, NoDigit, NotNumeral, contains,
}

unfoldable pub trim_end : Bytes → Bytes
trim_end [] = []
trim_end (c ∷ cs) =
    let rest = trim_end cs in
    elim rest [ [] ↦ if is_space c then [] else c ∷ [] | x ∷ xs ↦ c ∷ (x ∷ xs) ]

unfoldable pub same : Bytes → Bytes → Bool
same [] [] = true
same [] (y ∷ ys) = false
same (x ∷ xs) [] = false
same (x ∷ xs) (y ∷ ys) = x == y && same xs ys

unfoldable pub leading : ℕ → Bytes → ℕ
leading d [] = 0
leading d (c ∷ cs) = let more = leading d cs in if c == d then suc more else 0

unfoldable pub until : ℕ → Bytes → Bytes
until d [] = []
until d (c ∷ cs) = let more = until d cs in if c == d then [] else c ∷ more

unfoldable pub begins : Bytes → Bytes → Bool
begins [] text = true
begins (c ∷ cs) [] = false
begins (c ∷ cs) (x ∷ xs) = c == x && begins cs xs

unfoldable pub occurs : Bytes → Bytes → Bool
unfolding begins
occurs sub [] = begins sub []
occurs sub (x ∷ xs) = begins sub (x ∷ xs) || occurs sub xs

abbrev pub token_at : Bytes → ℕ → ℕ → ℕ × Bytes
token_at text d start =
    let from = drop start text in (start + leading d from, until d (drop (leading d from) from))

abbrev pub reference : Strings
reference = record {
  isspace = is_space;
  strtrim = λ s. trim_end (drop_spaces s);
  strnicmp = λ a b n. same (map lower (take n a)) (map lower (take n b));
  strtol = λ s. signed_decimal (drop_spaces s);
  strtok = token_at;
  strstr = λ text sub. occurs sub text;
  atoi_overflow = λ s. negsuc 0;
}

trim_end-spaces : (back : Bytes) → All (λ c. is_space c ≡ true) back → trim_end back ≡ []
unfolding trim_end
trim_end-spaces [] h = refl
trim_end-spaces (c ∷ cs) h = rw (trim_end-spaces cs h.1, h.0) refl

trim_end-text :
    (text back : Bytes)
    → All (λ c. is_space c ≡ true) back
    → EndsPlain text
    → trim_end (text ++ back) ≡ text
unfolding trim_end
trim_end-text [] back sp h = trim_end-spaces back sp
trim_end-text (c ∷ []) back sp h = rw (trim_end-spaces back sp, h) refl
trim_end-text (c ∷ (x ∷ xs)) back sp h = rw (trim_end-text (x ∷ xs) back sp h) refl

drop_spaces-front :
    (front rest : Bytes)
    → All (λ c. is_space c ≡ true) front
    → drop_spaces (front ++ rest) ≡ drop_spaces rest
unfolding drop_spaces
drop_spaces-front [] rest h = refl
drop_spaces-front (c ∷ cs) rest h = rw (h.0) (drop_spaces-front cs rest h.1)

blank_only : (xs : Bytes) → All (λ c. is_space c ≡ true) xs → drop_spaces xs ≡ []
unfolding drop_spaces
blank_only [] p = refl
blank_only (c ∷ cs) p = rw (p.0) (blank_only cs p.1)

trim_lem :
    (front text back : Bytes)
    → All (λ c. is_space c ≡ true) front
    → All (λ c. is_space c ≡ true) back
    → IsTrimmed text
    → trim_end (drop_spaces (front ++ (text ++ back))) ≡ text
unfolding drop_spaces
trim_lem front [] back sf sb h =
    rw (drop_spaces-front front back sf, blank_only back sb) (trim_end-spaces [] tt)
trim_lem front (c ∷ cs) back sf sb h =
    rw (drop_spaces-front front (c ∷ (cs ++ back)) sf, h.0) (trim_end-text (c ∷ cs) back sb h.1)

and_split : (a b : Bool) → (a && b) ≡ true → (a ≡ true) × (b ≡ true)
and_split true b h = (refl, h)
and_split false b h = cc h

same_sound : (xs ys : Bytes) → same xs ys ≡ true → xs ≡ ys
unfolding same
same_sound [] [] h = refl
same_sound [] (y ∷ ys) h = cc h
same_sound (x ∷ xs) [] h = cc h
same_sound (x ∷ xs) (y ∷ ys) h =
    let both = and_split (x == y) (same xs ys) h in
    cc ((==_iff x y).0 both.0, same_sound xs ys both.1)

pub same_complete : (xs : Bytes) → same xs xs ≡ true
unfolding same
same_complete [] = refl
same_complete (x ∷ xs) = rw ((==_iff x x).1 refl) (same_complete xs)

decimal-stop : (acc : ℕ) (rest : Bytes) → NoDigit rest → decimal_from acc rest ≡ acc
unfolding decimal_from
decimal-stop acc [] h = refl
decimal-stop acc (c ∷ cs) h = rw h refl

decimal-prefix :
    (acc : ℕ) (digits rest : Bytes)
    → all_digits digits ≡ true
    → NoDigit rest
    → decimal_from acc (digits ++ rest) ≡ decimal_from acc digits
unfolding decimal_from
decimal-prefix acc [] rest h n = decimal-stop acc rest n
decimal-prefix acc (c ∷ cs) rest h n =
    let both = and_split (is_digit c) (all_digits cs) h in
    rw both.0 (decimal-prefix (acc * 10 + (c - 48)) cs rest both.1 n)

strtol_digits :
    (digits rest : Bytes)
    → digits ≢ []
    → all_digits digits ≡ true
    → NoDigit rest
    → signed_decimal (drop_spaces (digits ++ rest)) ≡ pos (decimal digits)
unfolding signed_decimal drop_spaces
strtol_digits [] rest ne h n = absurd (ne refl)
strtol_digits (c ∷ cs) rest ne h n =
    let digit : is_digit c ≡ true = ground arith in
    let no_space : is_space c ≡ false = ground arith in
    let no_minus : (c == b'-') ≡ false = ground arith in
    let no_plus : (c == b'+') ≡ false = ground arith in
    rw (no_space, no_minus, no_plus) (ap pos (decimal-prefix 0 (c ∷ cs) rest h n))

ne-false : (c d : ℕ) → c ≢ d → (c == d) ≡ false
ne-false c d h = ground arith

strtol_none : (text : Bytes) → NotNumeral text → signed_decimal (drop_spaces text) ≡ pos 0
unfolding signed_decimal drop_spaces
strtol_none [] h = refl
strtol_none (c ∷ cs) h =
    let no_digit : is_digit c ≡ false = h.0 in
    let no_space : is_space c ≡ false = h.1 in
    rw (no_space, ne-false c b'-' h.2, ne-false c b'+' h.3)
      (ap pos (decimal-stop 0 (c ∷ cs) no_digit))

leading-All : (d : ℕ) (text : Bytes) → All (λ c. c ≡ d) text → leading d text ≡ length text
unfolding leading
leading-All d [] h = refl
leading-All d (c ∷ cs) h = rw ((==_iff c d).1 h.0, leading-All d cs h.1) refl

leading-token :
    (d : ℕ) (seps token rest : Bytes)
    → All (λ c. c ≡ d) seps
    → IsToken d token
    → leading d (seps ++ (token ++ rest)) ≡ length seps
unfolding leading
leading-token d [] [] rest h t = absurd (t.0 refl)
leading-token d [] (c ∷ cs) rest h t = rw (ne-false c d t.1.0) refl
leading-token d (c ∷ cs) token rest h t =
    rw ((==_iff c d).1 h.0, leading-token d cs token rest h.1 t) refl

until-token :
    (d : ℕ) (token rest : Bytes)
    → All (λ c. c ≢ d) token
    → StartsWith d rest
    → until d (token ++ rest) ≡ token
unfolding until
until-token d [] [] h r = refl
until-token d [] (c ∷ cs) h r = rw ((==_iff c d).1 r) refl
until-token d (c ∷ cs) rest h r = rw (ne-false c d h.0, until-token d cs rest h.1 r) refl

token_at_some :
    (text : Bytes) (d start : ℕ) (seps token rest : Bytes)
    → drop start text ≡ seps ++ (token ++ rest)
    → All (λ c. c ≡ d) seps
    → IsToken d token
    → StartsWith d rest
    → token_at text d start ≡ (start + length seps, token)
token_at_some text d start seps token rest e h t r =
    rw
      (
        e,
        leading-token d seps token rest h t,
        drop-length-append seps (token ++ rest),
        until-token d token rest t.1 r,
      )
      refl

flip : (a b : ℕ) → (a == b) ≡ (b == a)
flip a b = ground arith

and_true : (b : Bool) → (b && true) ≡ b
and_true true = refl
and_true false = refl

occurs_lem : (text : Bytes) (d : ℕ) → occurs (d ∷ []) text ≡ contains d text
unfolding occurs begins
occurs_lem [] d = refl
occurs_lem (x ∷ xs) d = rw (flip d x, and_true (x == d), occurs_lem xs d) refl

pub reference-StringLaws : StringLaws reference
unfolding same
reference-StringLaws = record {
  isspace_lem = λ c. refl;
  strtrim_lem = trim_lem;
  strnicmp_lem = λ a b n. (
    same_sound (map lower (take n a)) (map lower (take n b)),
    λ e. rw e (same_complete (map lower (take n b))),
  );
  strtol-digits = λ digits rest ne h n small. strtol_digits digits rest ne h n;
  strtol-NotNumeral = strtol_none;
  strtok_none = λ text d start le h.
      rw (leading-All d (drop start text) h) (omega (arith, length-drop start text));
  strtok_some =
      λ text d start seps token rest le e h t r. token_at_some text d start seps token rest e h t r;
  strstr_lem = occurs_lem;
}
