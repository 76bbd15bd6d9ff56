-- ===== src/Media/Support.antt =====
-- The bit mask of `sippak_support_codec` (app/media_helper.c) against the macros of the build.
use Prim.Native.Nat.{bit_and}
use sippak.Prelude.{
  ℕ, zero, suc, List, [], ◌∷◌, length, ◌==◌, ◌≡◌, refl, Bool, true, false, ◌&&◌, ◌||◌, arith,
}
use sippak.Config.{
  Codec, speex, ilbc, gsm, g711, g722, ipp, g7221, l16, ocamr, silk, opus, bcg729, all,
}
use sippak.Media.{Build, codec_id, supported_bits, support_codec}

-- Whether pjsip was built with the codec.
unfoldable pub built : Build → Codec → Bool
built b speex = b.speex
built b ilbc = b.ilbc
built b gsm = b.gsm
built b g711 = b.g711
built b g722 = b.g722
built b ipp = b.ipp
built b g7221 = b.g7221
built b l16 = b.l16
built b ocamr = b.amrnb || b.amrwb
built b silk = b.silk
built b opus = b.opus
built b bcg729 = b.bcg729
built b all = false

-- A test of all rows of bits of a length.
every : ℕ → (List Bool → Bool) → Bool
every zero p = p []
every (suc n) p = every n (λ row. p (true ∷ row)) && every n (λ row. p (false ∷ row))

every_sound : (row : List Bool) (p : List Bool → Bool) → every (length row) p ≡ true → p row ≡ true
unfolding every
every_sound [] p h = h
every_sound (true ∷ row) p h = every_sound row (λ r. p (true ∷ r)) (ground arith)
every_sound (false ∷ row) p h = every_sound row (λ r. p (false ∷ r)) (ground arith)

same : Bool → Bool → Bool
same true true = true
same false false = true
same _ _ = false

same→≡ : (a b : Bool) → same a b ≡ true → a ≡ b
unfolding same
same→≡ true b h = ground arith
same→≡ _ b h = ground arith

-- The macros of a build in a row, and back.
row_of : Build → List Bool
row_of b =
    b.speex ∷ b.ilbc ∷ b.gsm ∷ b.g711 ∷ b.g722 ∷ b.ipp ∷ b.g7221 ∷ b.l16 ∷ b.amrnb ∷ b.amrwb
    ∷ b.silk ∷ b.opus ∷ b.bcg729 ∷ []

bit : List Bool → ℕ → Bool
bit [] n = false
bit (b ∷ row) zero = b
bit (b ∷ row) (suc n) = bit row n

build_of : List Bool → Build
unfolding bit
build_of row = record {
  speex = bit row 0;
  ilbc = bit row 1;
  gsm = bit row 2;
  g711 = bit row 3;
  g722 = bit row 4;
  ipp = bit row 5;
  g7221 = bit row 6;
  l16 = bit row 7;
  amrnb = bit row 8;
  amrwb = bit row 9;
  silk = bit row 10;
  opus = bit row 11;
  bcg729 = bit row 12;
}

for_all_codecs : (Codec → Bool) → Bool
for_all_codecs p =
    p speex
    && p ilbc
    && p gsm
    && p g711
    && p g722
    && p ipp
    && p g7221
    && p l16
    && p ocamr
    && p silk
    && p opus
    && p bcg729
    && p all

for_all_codecs_sound : (p : Codec → Bool) → for_all_codecs p ≡ true → (c : Codec) → p c ≡ true
unfolding for_all_codecs
for_all_codecs_sound p h speex = ground arith
for_all_codecs_sound p h _ = ground arith

-- The mask is computed once for a build.
agrees : Build → ℕ → Codec → Bool
agrees b mask c = same (bit_and mask (codec_id c) == codec_id c) (built b c)

row_agrees : List Bool → Bool
unfolding build_of
row_agrees row =
    let b = build_of row in let mask = supported_bits b in for_all_codecs (agrees b mask)

all_agree : every 13 row_agrees ≡ true
unfolding every row_agrees for_all_codecs agrees same built support_codec
all_agree = refl

-- A codec is supported exactly if the build has it; "all" is no codec of its own.
pub support_codec-built : (b : Build) (c : Codec) → support_codec b c ≡ built b c
unfolding row_agrees row_of agrees support_codec
support_codec-built b c = same→≡ _ _ (
    for_all_codecs_sound (agrees b (supported_bits b)) (every_sound (row_of b) row_agrees all_agree)
      c)
