-- ===== src/Media/Parse.antt =====
-- Which codec a name on the command line stands for (`codec_str_parse` of app/media_helper.c).
use sippak.Prelude.{
  ◌≡◌, ◌≢◌, ◌↔◌, refl, sym, ap, ◌∙◌, Bool, true, false, ◌&&◌, ◌||◌, not, List, [], ◌∷◌, map, Option,
  none, some, length, take, ◌==◌, if◌then◌else◌, arith,
}
use sippak.CString.{Bytes, codes, lower}
use sippak.Strings.{Strings, StringLaws}
use sippak.Config.{
  Codec, speex, ilbc, gsm, g711, g722, ipp, g7221, l16, ocamr, silk, opus, bcg729, all,
}
use sippak.Media.{codec_id, codec_str_parse}

-- The text begins with the name, whatever its case.
unfoldable pub has_name : Bytes → Bytes → Bool
has_name [] t = true
has_name (n ∷ name) [] = false
has_name (n ∷ name) (c ∷ t) = lower c == n && has_name name t

has_name_iff :
    (name t : Bytes) → (has_name name t ≡ true) ↔ (map lower (take (length name) t) ≡ name)
unfolding has_name
has_name_iff [] t = ((λ h. refl), (λ h. refl))
has_name_iff (n ∷ name) [] = ((λ h. cc), (λ h. cc))
has_name_iff (n ∷ name) (c ∷ t) =
    ((λ h. ground (arith, has_name_iff name t)), (λ h. ground (arith, has_name_iff name t)))

same_truth : (a b : Bool) → (a ≡ true → b ≡ true) → (b ≡ true → a ≡ true) → a ≡ b
same_truth true b f g = sym (f refl)
same_truth false true f g = g refl
same_truth false false f g = refl

take-length {ℓ} : {A : Type ℓ} (xs : List A) → take (length xs) xs ≡ xs
take-length [] = refl
take-length (x ∷ xs) = ap (◌∷◌ x) (take-length xs)

-- `pj_strnicmp2(text, name, strlen(name)) == 0` for a name in lower case.
pub strnicmp-has_name :
    {lib : Strings} (laws : StringLaws lib) (name t : Bytes)
    → map lower name ≡ name
    → lib.strnicmp t name (length name) ≡ has_name name t
strnicmp-has_name laws name t low =
    let whole = ap (map lower) (take-length name) ∙ low in
    same_truth _ _
      (λ h. (has_name_iff name t).1 ((laws.strnicmp_lem t name (length name)).0 h ∙ whole))
      (λ h. (laws.strnicmp_lem t name (length name)).1 ((has_name_iff name t).0 h ∙ sym whole))

-- The name of each codec in the help text.
abbrev pub codec_name : Codec → Bytes
codec_name speex = codes "speex"
codec_name ilbc = codes "ilbc"
codec_name gsm = codes "gsm"
codec_name g711 = codes "g711"
codec_name g722 = codes "g722"
codec_name ipp = codes "ipp"
codec_name g7221 = codes "g722.1"
codec_name l16 = codes "l16"
codec_name ocamr = codes "amr"
codec_name silk = codes "silk"
codec_name opus = codes "opus"
codec_name bcg729 = codes "bcg729"
codec_name all = codes "all"

abbrev named : Codec → Bytes × Codec
named c = (codec_name c, c)

-- The names in the order in which `codec_str_parse` tries them.
abbrev name_table : List (Bytes × Codec)
name_table =
    named speex
    ∷ named ilbc
    ∷ named gsm
    ∷ named g711
    ∷ named g722
    ∷ named ipp
    ∷ named g7221
    ∷ named l16
    ∷ named ocamr
    ∷ named silk
    ∷ named opus
    ∷ named bcg729
    ∷ named all
    ∷ []

first_named : List (Bytes × Codec) → Bytes → Option Codec
first_named [] t = none
first_named ((name, c) ∷ table) t = if has_name name t then some c else first_named table t

is_prefix : Bytes → Bytes → Bool
is_prefix [] y = true
is_prefix (a ∷ x) [] = false
is_prefix (a ∷ x) (b ∷ y) = a == b && is_prefix x y

differ : Bytes → Bytes → Bool
differ [] y = false
differ (a ∷ x) [] = false
differ (a ∷ x) (b ∷ y) = not (a == b) || differ x y

has_name-is_prefix :
    (x y t : Bytes) → is_prefix x y ≡ true → has_name y t ≡ true → has_name x t ≡ true
unfolding has_name is_prefix
has_name-is_prefix [] y t p h = refl
has_name-is_prefix (a ∷ x) [] t p h = cc
has_name-is_prefix (a ∷ x) (b ∷ y) [] p h = cc
has_name-is_prefix (a ∷ x) (b ∷ y) (c ∷ t) p h = ground (arith, has_name-is_prefix x y t)

has_name-differ : (x y t : Bytes) → differ x y ≡ true → has_name x t ≡ true → has_name y t ≡ false
unfolding has_name differ
has_name-differ [] y t p h = cc
has_name-differ (a ∷ x) [] t p h = cc
has_name-differ (a ∷ x) (b ∷ y) [] p h = cc
has_name-differ (a ∷ x) (b ∷ y) (c ∷ t) p h = ground (arith, has_name-differ x y t)

-- No earlier name of the table is a prefix of this one, and it leads to this codec.
reaches : Bytes → Codec → List (Bytes × Codec) → Bool
reaches name c [] = false
reaches name c ((n, d) ∷ table) =
    (is_prefix n name && codec_id d == codec_id c) || (differ name n && reaches name c table)

codec_id-injective : (c d : Codec) → codec_id c ≡ codec_id d → c ≡ d
unfolding codec_id
codec_id-injective speex d h = ground arith
codec_id-injective _ d h = ground arith

first_named-reaches :
    (name : Bytes) (c : Codec) (table : List (Bytes × Codec)) (t : Bytes)
    → reaches name c table ≡ true
    → has_name name t ≡ true
    → first_named table t ≡ some c
unfolding reaches first_named
first_named-reaches name c [] t r h = cc
first_named-reaches name c ((n, d) ∷ table) t r h = ground (
  arith,
  has_name-is_prefix n name t,
  has_name-differ name n t,
  codec_id-injective d c,
  first_named-reaches name c table t,
)

module _ {lib : Strings} (laws : StringLaws lib) where
  codec_str_parse-first_named : (t : Bytes) → codec_str_parse lib t ≡ first_named name_table t
  unfolding codec_str_parse first_named lower
  codec_str_parse-first_named t = rw (
    strnicmp-has_name laws (codes "speex") t refl,
    strnicmp-has_name laws (codes "ilbc") t refl,
    strnicmp-has_name laws (codes "gsm") t refl,
    strnicmp-has_name laws (codes "g711") t refl,
    strnicmp-has_name laws (codes "g722") t refl,
    strnicmp-has_name laws (codes "ipp") t refl,
    strnicmp-has_name laws (codes "g722.1") t refl,
    strnicmp-has_name laws (codes "l16") t refl,
    strnicmp-has_name laws (codes "amr") t refl,
    strnicmp-has_name laws (codes "silk") t refl,
    strnicmp-has_name laws (codes "opus") t refl,
    strnicmp-has_name laws (codes "bcg729") t refl,
    strnicmp-has_name laws (codes "all") t refl,
  )

table-reaches : (c : Codec) → c ≢ g7221 → reaches (codec_name c) c name_table ≡ true
unfolding reaches codec_id is_prefix differ
table-reaches g7221 ne = absurd (ne refl)
table-reaches speex ne = refl
table-reaches _ ne = refl

first_named-ne-g7221 : (t : Bytes) → first_named name_table t ≢ some g7221
unfolding first_named is_prefix
first_named-ne-g7221 t h = ground (arith, has_name-is_prefix (codes "g722") (codes "g722.1") t refl)

module _ {lib : Strings} (laws : StringLaws lib) where
  -- Every codec but G.722.1 is named by any text that begins with its name, in upper or lower case.
  pub codec_str_parse-codec_name :
      (c : Codec) (t : Bytes)
      → c ≢ g7221
      → map lower (take (length (codec_name c)) t) ≡ codec_name c
      → codec_str_parse lib t ≡ some c
  codec_str_parse-codec_name c t ne h =
      codec_str_parse-first_named laws t
      ∙ first_named-reaches (codec_name c) c name_table t (table-reaches c ne)
          ((has_name_iff (codec_name c) t).1 h)

  -- No text at all names G.722.1: the test for "g722" takes "g722.1" first.
  pub codec_str_parse-ne-g7221 : (t : Bytes) → codec_str_parse lib t ≢ some g7221
  codec_str_parse-ne-g7221 t h =
      first_named-ne-g7221 t (sym (codec_str_parse-first_named laws t) ∙ h)
