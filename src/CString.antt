-- ===== src/CString.antt =====
-- Text as bytes, and the C library functions that the program applies to it. No text holds a NUL:
-- every one comes from `argv`.
use Prim.Native.Char.{code}
use sippak.Prelude.{
  ℕ, zero, suc, ◌+◌, ◌-◌, ◌*◌, ◌^◌, String, Bool, true, false, ◌&&◌, ◌||◌, List, [], ◌∷◌, Option,
  none, some, leb, ltb, ◌==◌, if◌then◌else◌,
}
use sippak.Prelude.Int.{ℤ, pos, negsuc}

abbrev pub Bytes : Type 0
Bytes = List ℕ

-- The bytes of an ASCII literal. `String` has its own `[]` and `∷`.
abbrev pub codes : String → Bytes
codes String.[] = []
codes (String.◌∷◌ c s) = code c ∷ codes s

-- `isspace` in the C locale.
abbrev pub is_space : ℕ → Bool
is_space c = c == b' ' || (leb 9 c && leb c 13)

abbrev pub is_digit : ℕ → Bool
is_digit c = leb b'0' c && leb c b'9'

-- `tolower` in the C locale.
unfoldable pub lower : ℕ → ℕ
lower c = if leb b'A' c && leb c b'Z' then c + 32 else c

-- `while (isspace(*p)) p++`
unfoldable pub drop_spaces : Bytes → Bytes
drop_spaces [] = []
drop_spaces (c ∷ cs) = if is_space c then drop_spaces cs else c ∷ cs

-- The value of the digits at the front, after a value already read.
unfoldable pub decimal_from : ℕ → Bytes → ℕ
decimal_from acc [] = acc
decimal_from acc (c ∷ cs) =
    let more = decimal_from (acc * 10 + (c - 48)) cs in if is_digit c then more else acc

abbrev pub decimal : Bytes → ℕ
decimal = decimal_from 0

abbrev pub all_digits : Bytes → Bool
all_digits [] = true
all_digits (c ∷ cs) = is_digit c && all_digits cs

abbrev pub negate : ℕ → ℤ
negate zero = pos 0
negate (suc n) = negsuc n

-- What `strtol` reads after the white space: a sign and digits.
unfoldable pub signed_decimal : Bytes → ℤ
unfolding decimal_from
signed_decimal [] = pos 0
signed_decimal (c ∷ cs) =
    if c == b'-'
    then negate (decimal cs)
    else if c == b'+'
    then pos (decimal cs)
    else pos (decimal (c ∷ cs))

-- The C standard leaves `atoi` undefined where the value does not fit an `int`.
abbrev pub fits_int : ℤ → Bool
fits_int (pos n) = ltb n (2 ^ 31)
fits_int (negsuc n) = ltb n (2 ^ 31)

-- `strchr`: what stands before the first such byte, and what follows it.
unfoldable pub cut_at : ℕ → Bytes → Option (Bytes × Bytes)
cut_at b [] = none
cut_at b (c ∷ cs) = elim (c == b) [
  | true ↦ some ([], cs)
  | false ↦ elim (cut_at b cs) [ none ↦ none | some (before, after) ↦ some (c ∷ before, after) ]
]
