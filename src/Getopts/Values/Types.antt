-- ===== src/Getopts/Values/Types.antt =====
-- `set_content_type` and `pres_note` of app/getopts.c.
use sippak.Prelude.{
  ℕ, ◌+◌, ◌≡◌, refl, ap, sym, ◌∙◌, Bool, true, false, ◌||◌, ◌==◌, ==_iff, [], ◌∷◌, ◌++◌, some,
  length, take, All, Bool-cases, inl, inr, drop-length-append, length-append, append-nil, take_all,
  ltb, arith,
}
use sippak.CString.{Bytes, codes, is_space}
use sippak.Strings.{Strings, StringLaws, IsTrimmed, IsToken, contains}
use sippak.Config.{Config, CType, max_len_pres_note}
use sippak.Getopts.Values.{split_type, set_content_type, pres_note}

contains-append : (d : ℕ) (xs ys : Bytes) → contains d (xs ++ (d ∷ ys)) ≡ true
contains-append d [] ys = rw ((==_iff d d).1 refl) refl
contains-append d (x ∷ xs) ys = rw (contains-append d xs ys) (or_true (x == d))
  where
    or_true : (b : Bool) → (b || true) ≡ true
    or_true true = refl
    or_true false = refl

module _ {lib : Strings} (laws : StringLaws lib) (type subtype : Bytes) (t : IsToken b'/' type)
    (s : IsToken b'/' subtype) where
  first_token : lib.strtok (type ++ (b'/' ∷ subtype)) b'/' 0 ≡ (0, type)
  first_token =
      laws.strtok_some (type ++ (b'/' ∷ subtype)) b'/' 0 [] type (b'/' ∷ subtype) (omega arith) refl
        tt t refl
      ∙ ap (λ n. (n, type)) (omega arith)

  second_token :
      lib.strtok (type ++ (b'/' ∷ subtype)) b'/' (0 + length type) ≡ (0 + length type + 1, subtype)
  second_token =
      let start : 0 + length type ≡ length type = omega arith in
      laws.strtok_some (type ++ (b'/' ∷ subtype)) b'/' (0 + length type) (b'/' ∷ []) subtype []
        (omega (arith, length-append type (b'/' ∷ subtype)))
        (rw (start, drop-length-append type (b'/' ∷ subtype), append-nil subtype) refl) (refl, tt) s
        tt

  split_type-slash :
      split_type lib (type ++ (b'/' ∷ subtype))
      ≡ record { type = some type; subtype = some subtype }
  unfolding split_type
  split_type-slash = rw (split_type, first_token, second_token) refl

  -- A content type "type/subtype", with no white space round it and no second slash, that does not
  -- begin with one of the three short names, is split at the slash, and is of no known kind.
  set_content_type-slash :
      (app : Config)
      → IsTrimmed (type ++ (b'/' ∷ subtype))
      → lib.strnicmp (type ++ (b'/' ∷ subtype)) (codes "pidf") 4 ≡ false
      → lib.strnicmp (type ++ (b'/' ∷ subtype)) (codes "xpidf") 5 ≡ false
      → lib.strnicmp (type ++ (b'/' ∷ subtype)) (codes "mwi") 3 ≡ false
      → set_content_type lib app (type ++ (b'/' ∷ subtype)) ≡ record app {
        ctype_media = record { type = some type; subtype = some subtype };
        ctype_e = CType.other;
      }
  unfolding set_content_type
  set_content_type-slash app trimmed p x m =
      let value = type ++ (b'/' ∷ subtype) in
      let trim : lib.strtrim value ≡ value =
        ap lib.strtrim (sym (append-nil value)) ∙ laws.strtrim_lem [] value [] tt tt trimmed in
      let slash : lib.strstr value (codes "/") ≡ true =
        laws.strstr_lem value b'/' ∙ contains-append b'/' type subtype in
      rw (trim, p, x, m, slash, split_type-slash) refl

-- A presence note is the text without the white space round it, cut to its first 64 bytes.
pres_note-take :
    {lib : Strings} (laws : StringLaws lib) (front note back : Bytes)
    → All (λ c. is_space c ≡ true) front
    → All (λ c. is_space c ≡ true) back
    → IsTrimmed note
    → pres_note lib (front ++ (note ++ back)) ≡ some (take max_len_pres_note note)
unfolding pres_note
pres_note-take {lib} laws front note back f b trimmed =
    elim (Bool-cases (ltb max_len_pres_note (length note))) [
      | inl e ↦ rw (laws.strtrim_lem front note back f b trimmed, e) refl
      | inr e ↦
          rw (laws.strtrim_lem front note back f b trimmed, e)
            (ap some (sym (take_all max_len_pres_note note (ground arith))))
    ]
