-- ===== src/Media/Choice.antt =====
-- `sippak_set_media_codecs_cfg` of app/media_helper.c against a choice over plain lists.
pub mod Refines
pub mod Distinct
use sippak.Prelude.{
  ℕ, zero, suc, ◌+◌, ◌≤◌, ◌<◌, ◌≡◌, ◌≢◌, refl, sym, ap, ◌∙◌, Bool, true, false, not, ◌&&◌, ◌||◌,
  List, [], ◌∷◌, ◌++◌, map, append_assoc, Option, none, some, length, take, ◌==◌, if◌then◌else◌,
  Bool-cases, inl, inr, length-append, take-length-append, arith,
}
use sippak.CString.{Bytes}
use sippak.Strings.{Strings, StringLaws}
use sippak.Strings.Tokens.{tokens}
use sippak.Strings.Loop.{Flow, next, stop, fold_tokens, token_loop_lem}
use sippak.Config.{
  Status, success, cli_einvarg, Outcome, ok, Codec, speex, ilbc, gsm, g711, g722, ipp, g7221, l16,
  ocamr, silk, opus, bcg729, all, Media, num_codecs_avail, write,
}
use sippak.Media.{
  Build, codec_id, slot_id, is_codec_set, support_codec, codec_str_parse, store_codec, add_codec,
  codec_step, codec_body, codec_finish, set_media_codecs_cfg,
}

unfoldable pub elem : Codec → List Codec → Bool
elem c [] = false
elem c (d ∷ ds) = codec_id d == codec_id c || elem c ds

-- What a list of codec names asks for.
pub data Wanted : Type 0 where
  chosen : List Codec → Wanted
  everything : List Codec → Wanted
  refused : List Codec → Wanted

-- The codecs in the order of their first names, up to the first name that ends the choice.
pub choose : (Codec → Bool) → List (Option Codec) → List Codec → Wanted
unfolding elem
choose sup [] acc = chosen acc
choose sup (none ∷ names) acc = refused acc
choose sup (some all ∷ names) acc = everything acc
choose sup (some c ∷ names) acc =
    let repeated = choose sup names acc in
    let added = choose sup names (acc ++ (c ∷ [])) in
    if not (sup c) then refused acc else if elem c acc then repeated else added

pub elem-concat :
    (c d : Codec) (acc : List Codec)
    → elem c (acc ++ (d ∷ [])) ≡ (elem c acc || codec_id d == codec_id c)
unfolding elem
elem-concat c d [] = ground arith
elem-concat c d (e ∷ acc) = ground (arith, elem-concat c d acc)

pub codec_id_refl : (c : Codec) → (codec_id c == codec_id c) ≡ true
codec_id_refl c = ground arith

-- How many of these codecs are in the list.
pub seen : List Codec → List Codec → ℕ
seen [] acc = 0
seen (d ∷ ds) acc = (if elem d acc then 1 else 0) + seen ds acc

pub seen-le : (ds acc : List Codec) → seen ds acc ≤ length ds
unfolding seen
seen-le [] acc = omega arith
seen-le (d ∷ ds) acc = ground (arith, seen-le ds acc)

seen_mono : (ds acc : List Codec) (c : Codec) → seen ds acc ≤ seen ds (acc ++ (c ∷ []))
unfolding seen
seen_mono [] acc c = omega arith
seen_mono (d ∷ ds) acc c = ground (arith, seen_mono ds acc c, elem-concat d c acc)

codec_id-injective : (c d : Codec) → codec_id c ≡ codec_id d → c ≡ d
unfolding codec_id
codec_id-injective speex d h = ground arith
codec_id-injective _ d h = ground arith

pub seen_new :
    (ds acc : List Codec) (c : Codec)
    → elem c ds ≡ true
    → elem c acc ≡ false
    → seen ds acc < seen ds (acc ++ (c ∷ []))
unfolding seen elem
seen_new [] acc c h new = cc
seen_new (d ∷ ds) acc c h new = elim (Bool-cases (codec_id d == codec_id c)) [
  | inl e ↦
      ground
        (arith, codec_id-injective d c, seen_mono ds acc c, elem-concat c c acc, codec_id_refl c)
  | inr e ↦ ground (arith, seen_new ds acc c, elem-concat d c acc)
]

abbrev pub everyone : List Codec
everyone = speex ∷ ilbc ∷ gsm ∷ g711 ∷ g722 ∷ ipp ∷ g7221 ∷ l16 ∷ ocamr ∷ silk ∷ opus ∷ bcg729 ∷ []

pub elem-everyone : (c : Codec) → c ≢ all → elem c everyone ≡ true
unfolding elem codec_id
elem-everyone all ne = absurd (ne refl)
elem-everyone speex ne = refl
elem-everyone _ ne = refl
