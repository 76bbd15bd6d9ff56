-- ===== src/Media.antt =====
-- app/media_helper.c: the codecs that the program knows, those of the build, and the choice of
-- codecs from the command line.
pub mod Parse
pub mod Choice
pub mod Support
pub mod Endpoint
use Prim.Native.Nat.{bit_and, bit_or}
use sippak.Prelude.{
  ℕ, zero, suc, ◌+◌, ◌^◌, Bool, true, false, ◌||◌, not, List, [], ◌∷◌, Option, none, some, length,
  get_elem?, ◌==◌, if◌then◌else◌, ◌≡◌, refl,
}
use sippak.CString.{Bytes, codes}
use sippak.Strings.{Strings}
use sippak.Strings.Loop.{Flow, next, stop, token_loop}
use sippak.Config.{
  Status, success, cli_einvarg, Outcome, ok, exit, fault, Codec, speex, ilbc, gsm, g711, g722, ipp,
  g7221, l16, ocamr, silk, opus, bcg729, all, Media, num_codecs_avail, write,
}

-- The values of `codec_e`.
unfoldable pub codec_id : Codec → ℕ
codec_id speex = 2 ^ 0
codec_id ilbc = 2 ^ 1
codec_id gsm = 2 ^ 2
codec_id g711 = 2 ^ 3
codec_id g722 = 2 ^ 4
codec_id ipp = 2 ^ 5
codec_id g7221 = 2 ^ 6
codec_id l16 = 2 ^ 7
codec_id ocamr = 2 ^ 8
codec_id silk = 2 ^ 9
codec_id opus = 2 ^ 10
codec_id bcg729 = 2 ^ 11
codec_id all = 2 ^ 12

-- The value in a slot or a variable; no codec is 0.
unfoldable pub slot_id : Option Codec → ℕ
unfolding codec_id
slot_id none = 0
slot_id (some c) = codec_id c

-- The macros `PJMEDIA_HAS_...` of the pjsip build.
pub record Build : Type 0 where
  pub speex : Bool
  pub ilbc : Bool
  pub gsm : Bool
  pub g711 : Bool
  pub g722 : Bool
  pub ipp : Bool
  pub g7221 : Bool
  pub l16 : Bool
  pub amrnb : Bool
  pub amrwb : Bool
  pub silk : Bool
  pub opus : Bool
  pub bcg729 : Bool

-- `#if flag`, `supported |= codec`
abbrev pub add_if : Bool → Codec → ℕ → ℕ
add_if flag c supported = if flag then bit_or supported (codec_id c) else supported

unfoldable pub supported_bits : Build → ℕ
unfolding codec_id
supported_bits b =
    let s0 = add_if b.speex speex 0 in
    let s1 = add_if b.ilbc ilbc s0 in
    let s2 = add_if b.gsm gsm s1 in
    let s3 = add_if b.g711 g711 s2 in
    let s4 = add_if b.g722 g722 s3 in
    let s5 = add_if b.ipp ipp s4 in
    let s6 = add_if b.g7221 g7221 s5 in
    let s7 = add_if b.l16 l16 s6 in
    let s8 = add_if (b.amrnb || b.amrwb) ocamr s7 in
    let s9 = add_if b.silk silk s8 in let s10 = add_if b.opus opus s9 in add_if b.bcg729 bcg729 s10

-- `sippak_support_codec`
unfoldable pub support_codec : Build → Codec → Bool
unfolding supported_bits
support_codec b c = bit_and (supported_bits b) (codec_id c) == codec_id c

-- `is_codec_set`: the loop `for (i = 0; i < cnt; i++)` over the slots from `i` on.
unfoldable pub is_codec_set : List (Option Codec) → ℕ → Codec → Bool
unfolding codec_id slot_id
is_codec_set [] cnt c = false
is_codec_set (x ∷ codecs) zero c = false
is_codec_set (x ∷ codecs) (suc cnt) c = slot_id x == codec_id c || is_codec_set codecs cnt c

-- The variables of the loop in `sippak_set_media_codecs_cfg`: `i` and the array.
abbrev pub Slots : Type 0
Slots = ℕ × List (Option Codec)

module _ (lib : Strings) where
  -- `codec_str_parse`
  unfoldable pub codec_str_parse : Bytes → Option Codec
  codec_str_parse codec =
      if lib.strnicmp codec (codes "speex") 5
      then some speex
      else if lib.strnicmp codec (codes "ilbc") 4
      then some ilbc
      else if lib.strnicmp codec (codes "gsm") 3
      then some gsm
      else if lib.strnicmp codec (codes "g711") 4
      then some g711
      else if lib.strnicmp codec (codes "g722") 4
      then some g722
      else if lib.strnicmp codec (codes "ipp") 3
      then some ipp
      else if lib.strnicmp codec (codes "g722.1") 6
      then some g7221
      else if lib.strnicmp codec (codes "l16") 3
      then some l16
      else if lib.strnicmp codec (codes "amr") 3
      then some ocamr
      else if lib.strnicmp codec (codes "silk") 4
      then some silk
      else if lib.strnicmp codec (codes "opus") 4
      then some opus
      else if lib.strnicmp codec (codes "bcg729") 6
      then some bcg729
      else if lib.strnicmp codec (codes "all") 3
      then some all
      else none

  module _ (build : Build) (media : Media) where
    -- `app->cfg.media.codec[i++] = codec`
    unfoldable pub store_codec : Codec → Slots → Flow Slots (Outcome (Status × Media))
    store_codec c (i, codecs) = elim (write codecs i (some c)) [
      | ok codecs' ↦ next (i + 1, codecs')
      | exit s ↦ stop (exit s)
      | fault ↦ stop fault
    ]

    -- The loop's body behind the test for "all".
    unfoldable pub add_codec : Codec → Slots → Flow Slots (Outcome (Status × Media))
    unfolding store_codec is_codec_set
    add_codec c (i, codecs) =
        if not (support_codec build c)
        then stop (ok (cli_einvarg, record media { codec = codecs }))
        else if is_codec_set codecs i c
        then next (i, codecs)
        else store_codec c (i, codecs)

    -- The loop's body on the codec that the token names.
    unfoldable pub codec_step : Option Codec → Slots → Flow Slots (Outcome (Status × Media))
    unfolding add_codec
    codec_step none (i, codecs) = stop (ok (cli_einvarg, record media { codec = codecs }))
    codec_step (some all) (i, codecs) =
        stop (ok (success, record media { cnt = num_codecs_avail; codec = codecs }))
    codec_step (some c) (i, codecs) = add_codec c (i, codecs)

    unfoldable pub codec_body : Bytes → Slots → Flow Slots (Outcome (Status × Media))
    unfolding codec_step codec_str_parse
    codec_body token s = codec_step (codec_str_parse token) s

    abbrev pub codec_finish : Slots → Outcome (Status × Media)
    codec_finish (i, codecs) = ok (success, record media { cnt = i; codec = codecs })

    -- `sippak_set_media_codecs_cfg`, on fuel: the status, and `app->cfg.media` behind it.
    unfoldable pub set_media_codecs_cfg : Bytes → Option (Outcome (Status × Media))
    unfolding codec_body
    set_media_codecs_cfg codecs =
        token_loop codec_body codec_finish lib codecs b',' (suc (length codecs)) 0 (0, media.codec)
