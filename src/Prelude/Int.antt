-- ===== src/Prelude/Int.antt =====
-- Signed integers over the native numbers, and the C conversions between integer types.
use Prim.Native.Nat.{ℕ, suc, ◌+◌, ◌-◌, ◌%◌, ◌^◌}
use mathlib.Core.Bool.{Bool}
use sippak.Prelude.Tests.{ltb, leb, if◌then◌else◌}

-- `negsuc n` is -(n + 1).
pub data ℤ : Type 0 where
  pos : ℕ → ℤ
  negsuc : ℕ → ℤ

abbrev pub pos_part : ℤ → ℕ
pos_part (pos n) = n
pos_part (negsuc n) = 0

abbrev pub neg_part : ℤ → ℕ
neg_part (pos n) = 0
neg_part (negsuc n) = suc n

-- a - b, as an integer.
abbrev pub sub_ℕ : ℕ → ℕ → ℤ
sub_ℕ a b = if leb b a then pos (a - b) else negsuc (b - a - 1)

infixl 65 ◌+ℤ◌
unfoldable pub ◌+ℤ◌ : ℤ → ℤ → ℤ
a +ℤ b = sub_ℕ (pos_part a + pos_part b) (neg_part a + neg_part b)

abbrev pub ltb_ℤ : ℤ → ℤ → Bool
ltb_ℤ a b = ltb (pos_part a + neg_part b) (pos_part b + neg_part a)

-- The bit pattern of an integer in `2 ^ w` values, the modulus given.
abbrev pub pattern_mod : ℕ → ℤ → ℕ
pattern_mod m (pos n) = n % m
pattern_mod m (negsuc n) = m - 1 - n % m

-- Conversions to `uint16_t`, `unsigned int` and `int`.
abbrev pub to_u16 : ℤ → ℕ
to_u16 = pattern_mod (2 ^ 16)

abbrev pub to_u32 : ℤ → ℕ
to_u32 = pattern_mod (2 ^ 32)

abbrev pub signed32 : ℕ → ℤ
signed32 w = if ltb w (2 ^ 31) then pos w else negsuc (2 ^ 32 - w - 1)

abbrev pub to_int : ℤ → ℤ
to_int z = signed32 (to_u32 z)
