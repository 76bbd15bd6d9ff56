-- ===== src/Getopts/Values/Ports.antt =====
-- `set_port_value` of app/getopts.c: which texts are ports, and which port each is.
use sippak.Prelude.{
  ℕ, ◌+◌, ◌-◌, ◌*◌, ◌^◌, ◌≤◌, ◌<◌, ◌≡◌, ◌≢◌, refl, ap, ◌∙◌, true, false, ◌&&◌, [], ◌∷◌, ◌++◌, All,
  leb, if◌then◌else◌, arith,
}
use sippak.Prelude.Int.{ℤ, pos, negsuc, to_u16}
use sippak.CString.{
  Bytes, is_space, is_digit, all_digits, drop_spaces, decimal_from, decimal, signed_decimal,
}
use sippak.Strings.{Strings, StringLaws, StartsPlain, EndsPlain, IsTrimmed}
use sippak.Config.{ok, exit, fault, cli_einvarg}
use sippak.Getopts.Values.{atoi, is_string_numeric, set_port_value}

-- An accepted port is a number from 1 to 65535, so the 16 bits that keep it lose nothing.
pub set_port_value-range :
    (lib : Strings) (text : Bytes) {port : ℤ}
    → set_port_value lib text ≡ ok port
    → (n : ℕ) × (port ≡ pos n) × (1 ≤ n) × (n ≤ 65535) × (to_u16 port ≡ n)
unfolding set_port_value
set_port_value-range lib text {port = pos n} h = (n, refl, ground arith, ground arith, ground arith)
set_port_value-range lib text {port = negsuc n} h = absurd (ground arith)

-- It returns or leaves the program.
pub set_port_value-ne-fault : (lib : Strings) (text : Bytes) → set_port_value lib text ≢ fault
unfolding set_port_value
set_port_value-ne-fault lib text h = ground arith

drop_spaces-append :
    (front s : Bytes)
    → All (λ c. is_space c ≡ true) front
    → drop_spaces (front ++ s) ≡ drop_spaces s
unfolding drop_spaces
drop_spaces-append [] s h = refl
drop_spaces-append (c ∷ front) s h = rw (h.0) (drop_spaces-append front s h.1)

space_no_digit : (c : ℕ) → is_space c ≡ true → is_digit c ≡ false
space_no_digit c h = ground arith

digit_no_space : (c : ℕ) → is_digit c ≡ true → is_space c ≡ false
digit_no_space c h = ground arith

decimal_from-append :
    (acc : ℕ) (digits back : Bytes)
    → all_digits digits ≡ true
    → All (λ c. is_space c ≡ true) back
    → decimal_from acc (digits ++ back) ≡ decimal_from acc digits
unfolding decimal_from
decimal_from-append acc [] [] d h = refl
decimal_from-append acc [] (c ∷ back) d h = rw (space_no_digit c h.0)
decimal_from-append acc (c ∷ digits) back d h =
    ground (arith, decimal_from-append (acc * 10 + (c - 48)) digits back)

drop_spaces-digits :
    (digits back : Bytes)
    → digits ≢ []
    → all_digits digits ≡ true
    → drop_spaces (digits ++ back) ≡ digits ++ back
unfolding drop_spaces
drop_spaces-digits [] back ne d = absurd (ne refl)
drop_spaces-digits (c ∷ digits) back ne d = ground (arith, digit_no_space c)

signed_decimal-digits :
    (digits back : Bytes)
    → digits ≢ []
    → all_digits digits ≡ true
    → signed_decimal (digits ++ back) ≡ pos (decimal (digits ++ back))
unfolding signed_decimal
signed_decimal-digits [] back ne d = absurd (ne refl)
signed_decimal-digits (c ∷ digits) back ne d = ground arith

digits-IsTrimmed : (digits : Bytes) → all_digits digits ≡ true → IsTrimmed digits
digits-IsTrimmed digits d = (starts digits d, ends digits d)
  where
    starts : (ds : Bytes) → all_digits ds ≡ true → StartsPlain ds
    starts [] d = tt
    starts (c ∷ ds) d = digit_no_space c (ground arith)

    ends : (ds : Bytes) → all_digits ds ≡ true → EndsPlain ds
    ends [] d = tt
    ends (c ∷ []) d = digit_no_space c (ground arith)
    ends (c ∷ e ∷ ds) d = ends (e ∷ ds) (ground arith)

module _ {lib : Strings} (laws : StringLaws lib) where
  -- `atoi` of digits with white space round them.
  pub atoi-digits :
      (front digits back : Bytes)
      → All (λ c. is_space c ≡ true) front
      → digits ≢ []
      → all_digits digits ≡ true
      → All (λ c. is_space c ≡ true) back
      → decimal digits < 2 ^ 31
      → atoi lib (front ++ (digits ++ back)) ≡ pos (decimal digits)
  unfolding atoi
  atoi-digits front digits back f ne d b small =
      let read =
        ap signed_decimal
          (drop_spaces-append front (digits ++ back) f ∙ drop_spaces-digits digits back ne d)
        ∙ signed_decimal-digits digits back ne d
        ∙ ap pos (decimal_from-append 0 digits back d b) in
      rw read (ground arith)

  numeric :
      (front digits back : Bytes)
      → All (λ c. is_space c ≡ true) front
      → all_digits digits ≡ true
      → All (λ c. is_space c ≡ true) back
      → is_string_numeric lib (front ++ (digits ++ back)) ≡ true
  unfolding is_string_numeric
  numeric front digits back f d b =
      rw (laws.strtrim_lem front digits back f b (digits-IsTrimmed digits d)) d

  -- Digits with white space round them, whose value fits an `int`, give that value if it is from 1 to
  -- 65535, and leave the program with an error otherwise.
  pub set_port_value-digits :
      (front digits back : Bytes)
      → All (λ c. is_space c ≡ true) front
      → digits ≢ []
      → all_digits digits ≡ true
      → All (λ c. is_space c ≡ true) back
      → decimal digits < 2 ^ 31
      → set_port_value lib (front ++ (digits ++ back)) ≡ (
          if leb 1 (decimal digits) && leb (decimal digits) 65535
          then ok (pos (decimal digits))
          else exit cli_einvarg)
  unfolding set_port_value
  set_port_value-digits front digits back f ne d b small =
      rw (numeric front digits back f d b, atoi-digits front digits back f ne d b small)
        (ground arith)
