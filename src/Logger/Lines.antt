-- ===== src/Logger/Lines.antt =====
-- The lines that mod/logger.c shows for the headers of a message.
use sippak.Prelude.{
  ℕ, suc, ◌+◌, ◌≡◌, refl, sym, Bool, true, false, not, List, [], ◌∷◌, ◌++◌, append-nil,
  append_assoc, some, drop, length, All, ◌==◌, if◌then◌else◌, arith,
}
use sippak.Prelude.Int.{pos}
use sippak.CString.{Bytes, codes}
use sippak.Config.{Outcome, ok}
use sippak.Logger.{
  Color, bright_white, green, red, yellow, bright_blue, Output, set_color, default_color, printed,
  Terminal, read, find_colon, less, term_set_color, term_restore_color, print_color,
  print_trail_chr, print_split, print_generic_header, print_hdr_clid,
}

-- An output that shows this text, in any colours, and gives no line to `PJ_LOG`.
pub data Shows : List Output → Bytes → Type 0 where
  nothing : Shows [] []
  in_color : (c : Color) {os : List Output} {b : Bytes} → Shows os b → Shows (set_color c ∷ os) b
  in_default : {os : List Output} {b : Bytes} → Shows os b → Shows (default_color ∷ os) b
  then_text :
      (b : Bytes) {os : List Output} {rest : Bytes}
      → Shows os rest
      → Shows (printed b ∷ os) (b ++ rest)

pub Shows-append :
    {xs ys : List Output} {a b : Bytes} → Shows xs a → Shows ys b → Shows (xs ++ ys) (a ++ b)
Shows-append nothing q = q
Shows-append (in_color c p) q = in_color c (Shows-append p q)
Shows-append (in_default p) q = in_default (Shows-append p q)
Shows-append {b = bb} (then_text b {os} {rest} p) q =
    rw (append_assoc b rest bb) (then_text b (Shows-append p q))

-- A computation that returns such an output.
pub record ShowsAs (o : Outcome (List Output)) (b : Bytes) : Type 0 where
  pub out : List Output
  pub runs : o ≡ ok out
  pub shows : Shows out b

abbrev pub NotNul : ℕ → Type 0
NotNul c = (c == 0) ≡ false

-- A byte of a header's name.
abbrev pub NameByte : ℕ → Type 0
NameByte c = ((c == b':') ≡ false) × NotNul c

NotNul-names : (name : Bytes) → All NameByte name → All NotNul name
NotNul-names [] h = tt
NotNul-names (c ∷ cs) h = (h.0.1, NotNul-names cs h.1)

pub read-append : (xs ys : Bytes) → All NotNul xs → read (length xs) (xs ++ ys) ≡ ok xs
unfolding read
read-append [] ys h = refl
read-append (c ∷ cs) ys h = rw (h.0, read-append cs ys h.1) refl

find_colon-append :
    (name ys : Bytes)
    → All NameByte name
    → find_colon (name ++ (b':' ∷ ys)) ≡ ok (some (length name))
unfolding find_colon
find_colon-append [] ys h = refl
find_colon-append (c ∷ cs) ys h = rw (h.0.0, h.0.1, find_colon-append cs ys h.1) refl

drop-colon : (name ys : Bytes) → drop (suc (length name)) (name ++ (b':' ∷ ys)) ≡ ys
drop-colon [] ys = refl
drop-colon (c ∷ cs) ys = drop-colon cs ys

less-lengths : (m n : ℕ) → less (pos (m + suc n)) (suc m) ≡ pos n
less-lengths m n = ground arith

module _ (t : Terminal) where
  -- The end of a line.
  abbrev pub end_line : Bytes
  end_line = (if t.print_trail then b'.' ∷ [] else []) ++ (10 ∷ [])

  term_set_color-Shows : (c : Color) → Shows (term_set_color t c) []
  unfolding term_set_color
  term_set_color-Shows c = go (not t.enable_colors) t.has_color
    where
      go : (off has : Bool) → Shows (if off then [] else if has then set_color c ∷ [] else []) []
      go true has = nothing
      go false true = in_color c nothing
      go false false = nothing

  pub restore-Shows : Shows (term_restore_color t) []
  unfolding term_restore_color
  restore-Shows = go (not t.enable_colors) t.has_color
    where
      go : (off has : Bool) → Shows (if off then [] else if has then default_color ∷ [] else []) []
      go true has = nothing
      go false true = in_default nothing
      go false false = nothing

  pub print_color-Shows :
      (c : Color) (b : Bytes) {os : List Output} {rest : Bytes}
      → Shows os rest
      → Shows (print_color t c b ++ os) (b ++ rest)
  print_color-Shows c b {os} p =
      rw (append_assoc (term_set_color t c) (printed b ∷ []) os)
        (Shows-append (term_set_color-Shows c) (then_text b p))

  pub print_color-Shows_last : (c : Color) (b : Bytes) → Shows (print_color t c b) b
  print_color-Shows_last c b =
      let shown : Shows (print_color t c b) (b ++ []) =
        Shows-append (term_set_color-Shows c) (then_text b nothing) in
      rw (append-nil b) at shown

  pub trail-Shows :
      {os : List Output} {rest : Bytes}
      → Shows os rest
      → Shows (print_trail_chr t ++ os) (end_line ++ rest)
  unfolding print_trail_chr
  trail-Shows {os} {rest} p = go t.print_trail
    where
      go :
          (trail : Bool)
          → Shows
              ((if trail then print_color t bright_white (b'.' ∷ []) else [])
                ++ (printed (10 ∷ []) ∷ [])
                ++ os)
              (((if trail then b'.' ∷ [] else []) ++ (10 ∷ [])) ++ rest)
      go true =
          rw (append_assoc (print_color t bright_white (b'.' ∷ [])) (printed (10 ∷ []) ∷ []) os)
            (print_color-Shows bright_white (b'.' ∷ []) (then_text (10 ∷ []) p))
      go false = then_text (10 ∷ []) p

  pub print_color-Shows_restored :
      (c : Color) (b : Bytes) → Shows (print_color t c b ++ term_restore_color t) b
  print_color-Shows_restored c b = rw (append-nil b) at (print_color-Shows c b restore-Shows)

  -- The end of a line that stands last.
  pub ends-Shows : Shows (print_trail_chr t ++ term_restore_color t) end_line
  ends-Shows = rw (sym (append-nil end_line)) (trail-Shows restore-Shows)

  -- A header that stands at the front of its buffer, read by its length.
  pub print_generic_header-ShowsAs :
      (name value rest : Bytes)
      → All NameByte name
      → All NotNul value
      → ShowsAs
          (print_generic_header t
            (name ++ (b':' ∷ (value ++ rest)))
            (pos (length name + suc (length value))))
          (name ++ (b':' ∷ (value ++ end_line)))
  unfolding print_generic_header print_split
  print_generic_header-ShowsAs name value rest in_name in_value = record {
    out = _;
    runs =
        rw
          (
            find_colon-append name (value ++ rest) in_name,
            read-append name (b':' ∷ (value ++ rest)) (NotNul-names name in_name),
            drop-colon name (value ++ rest),
            less-lengths (length name) (length value),
            read-append value rest in_value,
          )
          refl;
    shows =
        print_color-Shows green name
          (print_color-Shows red (codes ":") (print_color-Shows yellow value ends-Shows));
  }

  pub print_hdr_clid-Shows :
      (name id : Bytes)
      → Shows (print_hdr_clid t (some (name, id))) (name ++ (codes ": " ++ (id ++ end_line)))
  unfolding print_hdr_clid
  print_hdr_clid-Shows name id =
      print_color-Shows green name
        (print_color-Shows red (codes ": ") (print_color-Shows bright_blue id ends-Shows))
