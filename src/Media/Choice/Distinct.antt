-- ===== src/Media/Choice/Distinct.antt =====
-- What `sippak_set_media_codecs_cfg` of app/media_helper.c leaves in the array of codecs.
use sippak.Prelude.{
  ◌≡◌, refl, Bool, true, false, List, [], ◌∷◌, ◌++◌, map, Option, none, some, length, take, All,
  Bool-cases, inl, inr, ◌⊎◌, arith,
}
use sippak.CString.{Bytes}
use sippak.Strings.{Strings, StringLaws}
use sippak.Strings.Tokens.{tokens}
use sippak.Config.{Status, success, cli_einvarg, Outcome, ok, Media, Codec, all, num_codecs_avail}
use sippak.Media.{Build, codec_str_parse, support_codec, set_media_codecs_cfg}
use sippak.Media.Choice.{elem, elem-concat, Wanted, chosen, everything, refused, choose}
use sippak.Media.Choice.Refines.{Implements, set_media_codecs_cfg-choose}

-- No codec stands twice.
abbrev pub Distinct : List Codec → Type 0
Distinct [] = Unit
Distinct (c ∷ cs) = (elem c cs ≡ false) × Distinct cs

-- The codecs of a choice.
abbrev pub codecs_of : Wanted → List Codec
codecs_of (chosen acc) = acc
codecs_of (everything acc) = acc
codecs_of (refused acc) = acc

abbrev Sound : (Codec → Bool) → List Codec → Type 0
Sound sup acc = Distinct acc × All (λ c. sup c ≡ true) acc

Distinct-concat :
    (acc : List Codec) (c : Codec) → Distinct acc → elem c acc ≡ false → Distinct (acc ++ (c ∷ []))
unfolding elem
Distinct-concat [] c d new = (refl, tt)
Distinct-concat (x ∷ acc) c d new =
    (ground (arith, elem-concat x c acc, d.0), Distinct-concat acc c d.1 (ground arith))

All-concat :
    (sup : Codec → Bool) (acc : List Codec) (c : Codec)
    → All (λ d. sup d ≡ true) acc
    → sup c ≡ true
    → All (λ d. sup d ≡ true) (acc ++ (c ∷ []))
All-concat sup [] c h s = (s, tt)
All-concat sup (x ∷ acc) c h s = (h.0, All-concat sup acc c h.1 s)

codecs_of-choose :
    (sup : Codec → Bool) (names : List (Option Codec)) (acc : List Codec)
    → Sound sup acc
    → Sound sup (codecs_of (choose sup names acc))
unfolding choose
codecs_of-choose sup [] acc h = h
codecs_of-choose sup (none ∷ names) acc h = h
codecs_of-choose sup (some all ∷ names) acc h = h
codecs_of-choose sup (some c ∷ names) acc h = elim (Bool-cases (sup c)) [
  | inr e ↦ rw e h
  | inl e ↦ elim (Bool-cases (elem c acc)) [
    | inl there ↦ rw (e, there) (codecs_of-choose sup names acc h)
    | inr new ↦
        rw (e, new)
          (codecs_of-choose sup names (acc ++ (c ∷ []))
            (Distinct-concat acc c h.0 new, All-concat sup acc c h.1 e))
  ]
]

pub set_media_codecs_cfg-Distinct :
    {lib : Strings} (laws : StringLaws lib) (build : Build) (media : Media) (names : Bytes)
    → length media.codec ≡ num_codecs_avail
    → (s : Status) × (after : Media) × (cs : List Codec) × (set_media_codecs_cfg lib build media
          names
        ≡ some (ok (s, after)))
      × (take (length cs) after.codec ≡ map some cs)
      × Distinct cs
      × All (λ c. support_codec build c ≡ true) cs
      × (((s ≡ success) × ((after.cnt ≡ length cs) ⊎ (after.cnt ≡ num_codecs_avail)))
          ⊎ ((s ≡ cli_einvarg) × (after.cnt ≡ media.cnt)))
set_media_codecs_cfg-Distinct {lib} laws build media names size =
    let (r, e, i) = set_media_codecs_cfg-choose laws build media names size in
    let sound =
      codecs_of-choose (support_codec build) (map (codec_str_parse lib) (tokens b',' names)) []
        (tt, tt) in
    finish _ i sound e
  where
    finish :
        (w : Wanted) {r : Outcome (Status × Media)}
        → Implements media w r
        → Sound (support_codec build) (codecs_of w)
        → (set_media_codecs_cfg lib build media names ≡ some r)
        → (s : Status) × (after : Media) × (cs : List Codec) × (set_media_codecs_cfg lib build media
              names
            ≡ some (ok (s, after)))
          × (take (length cs) after.codec ≡ map some cs)
          × Distinct cs
          × All (λ c. support_codec build c ≡ true) cs
          × (((s ≡ success) × ((after.cnt ≡ length cs) ⊎ (after.cnt ≡ num_codecs_avail)))
              ⊎ ((s ≡ cli_einvarg) × (after.cnt ≡ media.cnt)))
    finish (chosen acc) i h e =
        (success, i.after, acc, rw i.returns at e, i.slots, h.0, h.1, inl (refl, inl i.count))
    finish (everything acc) i h e =
        (success, i.after, acc, rw i.returns at e, i.slots, h.0, h.1, inl (refl, inr i.count))
    finish (refused acc) i h e =
        (cli_einvarg, i.after, acc, rw i.returns at e, i.slots, h.0, h.1, inr (refl, i.count))
