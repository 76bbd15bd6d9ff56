-- ===== src/Getopts/Headers/Laws.antt =====
-- What `add_custom_header` and `add_proxy` of app/getopts.c store, and where their guard is one short.
use sippak.Prelude.{
  ℕ, zero, suc, ◌+◌, ◌≤◌, ◌<◌, ◌≡◌, ◌≢◌, refl, ap, ◌∙◌, true, List, [], ◌∷◌, ◌++◌, map, Option,
  some, length, All, length-append, Option-cases, inl, inr, arith,
}
use sippak.CString.{Bytes, is_space, cut_at}
use sippak.Strings.{Strings, StringLaws, StartsPlain}
use sippak.Uris.{Uris}
use sippak.Config.{Status, success, einval, ok, fault, Header, Array, write}
use sippak.Getopts.Headers.{
  push, skip_spaces, parse_header, add_custom_header, proxy_uri, add_proxy,
}

-- The array has twelve slots, and its first ones hold these elements.
pub record Holds {A : Type 0} (array : Array A) (elems : List A) : Type 0 where
  pub rest : List (Option A)
  pub slots : array.slots ≡ map some elems ++ rest
  pub cnt : array.cnt ≡ length elems
  pub size : length elems + length rest ≡ 12

module _ {A : Type 0} where
  pub write_at_end :
      (elems : List A) (x : Option A) (rest : List (Option A)) (v : A)
      → write (map some elems ++ (x ∷ rest)) (length elems) (some v)
        ≡ ok (map some (elems ++ (v ∷ [])) ++ rest)
  unfolding write
  write_at_end [] x rest v = refl
  write_at_end (e ∷ elems) x rest v = rw (write_at_end elems x rest v)

  write_past_end :
      (elems : List A) (v : A) → write (map some elems ++ []) (length elems) (some v) ≡ fault
  unfolding write
  write_past_end [] v = refl
  write_past_end (e ∷ elems) v = rw (write_past_end elems v)

  pub push_room :
      {array : Array A} {elems : List A} (v : A)
      → Holds array elems
      → length elems < 12
      → (array' : Array A) × (push v array ≡ ok array') × Holds array' (elems ++ (v ∷ []))
  unfolding push
  push_room {array} {elems} v h room = go h.rest h.slots h.size
    where
      go :
          (rest : List (Option A))
          → array.slots ≡ map some elems ++ rest
          → length elems + length rest ≡ 12
          → (array' : Array A) × (push v array ≡ ok array') × Holds array' (elems ++ (v ∷ []))
      go [] e size = absurd (omega arith)
      go (x ∷ rest) e size = (
        record { cnt = array.cnt + 1; slots = map some (elems ++ (v ∷ [])) ++ rest },
        rw (e, h.cnt, write_at_end elems x rest v),
        record {
          rest = rest;
          slots = refl;
          cnt = omega (arith, h.cnt, length-append elems (v ∷ []));
          size = omega (arith, length-append elems (v ∷ []));
        },
      )

  pub push_full :
      {array : Array A} {elems : List A} (v : A)
      → Holds array elems
      → length elems ≡ 12
      → push v array ≡ fault
  unfolding push
  push_full {array} {elems} v h full = go h.rest h.slots h.size
    where
      go :
          (rest : List (Option A))
          → array.slots ≡ map some elems ++ rest
          → length elems + length rest ≡ 12
          → push v array ≡ fault
      go [] e size = rw (e, h.cnt, write_past_end elems v)
      go (x ∷ rest) e size = absurd (omega arith)

module _ (lib : Strings) where
  -- With fewer than twelve headers stored, a text that is a header is appended behind them, and the
  -- call succeeds.
  add_custom_header_room :
      (text : Bytes) {hdrs : Array Header} {stored : List Header}
      → Holds hdrs stored
      → length stored < 12
      → (hdr : Header) → parse_header lib text ≡ some hdr
      → (hdrs' : Array Header) × (add_custom_header lib text hdrs ≡ ok (success, hdrs'))
        × Holds hdrs' (stored ++ (hdr ∷ []))
  unfolding add_custom_header
  add_custom_header_room text {hdrs} h room hdr p =
      let (hdrs', e, h') = push_room hdr h room in (hdrs', ground arith, h')

  -- With twelve headers stored, one more passes the guard, and is written behind the array.
  pub add_custom_header_overrun :
      (text : Bytes) {hdrs : Array Header} {stored : List Header}
      → Holds hdrs stored
      → length stored ≡ 12
      → (hdr : Header) → parse_header lib text ≡ some hdr
      → add_custom_header lib text hdrs ≡ fault
  unfolding add_custom_header
  add_custom_header_overrun text {hdrs} h full hdr p =
      let e = push_full hdr h full in let n = h.cnt in ground arith

  module _ (uris : Uris) where
    -- With twelve proxies stored, one more whose text is a URI that prints passes the guard, and is
    -- written behind the array.
    add_proxy_overrun :
        (text : Bytes) {proxies : Array Bytes} {stored : List Bytes}
        → Holds proxies stored
        → length stored ≡ 12
        → (uri : Bytes) → proxy_uri lib uris proxies.cnt (skip_spaces lib text) ≡ some uri
        → add_proxy lib uris text proxies ≡ fault
    unfolding add_proxy
    add_proxy_overrun text {proxies} h full uri p =
        let e = push_full uri h full in let n : proxies.cnt ≡ 12 = h.cnt ∙ full in ground arith

skip_spaces-plain :
    {lib : Strings} (laws : StringLaws lib) (front s : Bytes)
    → All (λ c. is_space c ≡ true) front
    → StartsPlain s
    → skip_spaces lib (front ++ s) ≡ s
unfolding skip_spaces
skip_spaces-plain laws [] [] h p = refl
skip_spaces-plain laws [] (c ∷ s) h p = rw (laws.isspace_lem c, p)
skip_spaces-plain laws (c ∷ front) s h p =
    rw (laws.isspace_lem c, h.0) (skip_spaces-plain laws front s h.1 p)

cut_at-colon :
    (name value : Bytes)
    → All (λ c. c ≢ b':') name
    → cut_at b':' (name ++ (b':' ∷ value)) ≡ some (name, value)
unfolding cut_at
cut_at-colon [] value h = refl
cut_at-colon (c ∷ name) value h = ground (arith, cut_at-colon name value h.1)

-- A text "name: value", with white space before the name and before the value, is that header, if
-- the name has no colon and neither the text nor the value begins with white space of its own.
pub parse_header-print :
    {lib : Strings} (laws : StringLaws lib) (front name blank value : Bytes)
    → All (λ c. is_space c ≡ true) front
    → StartsPlain (name ++ (b':' ∷ (blank ++ value)))
    → All (λ c. c ≢ b':') name
    → All (λ c. is_space c ≡ true) blank
    → StartsPlain value
    → parse_header lib (front ++ (name ++ (b':' ∷ (blank ++ value))))
      ≡ some (record { name = name; value = value })
unfolding parse_header
parse_header-print {lib} laws front name blank value f p plain b q = rw (
  skip_spaces-plain laws front (name ++ (b':' ∷ (blank ++ value))) f p,
  cut_at-colon name (blank ++ value) plain,
  skip_spaces-plain laws blank value b q,
  parse_header,
)

-- What the array keeps when there is room, whatever the text is.
write_room {ℓ} :
    {A : Type ℓ} (xs : List A) (i : ℕ) (v : A)
    → i < length xs
    → (ys : List A) × (write xs i v ≡ ok ys) × (length ys ≡ length xs)
unfolding write
write_room [] i v h = absurd (omega arith)
write_room (x ∷ xs) zero v h = (v ∷ xs, refl, refl)
write_room (x ∷ xs) (suc i) v h =
    let (ys, e, n) = write_room xs i v (omega arith) in (x ∷ ys, rw e, ap suc n)

push_room_any :
    {A : Type 0} (v : A) (array : Array A)
    → array.cnt < length array.slots
    → (array' : Array A) × (push v array ≡ ok array')
      × (array'.cnt ≡ array.cnt + 1)
      × (length array'.slots ≡ length array.slots)
unfolding push
push_room_any v array room =
    let (slots, e, n) = write_room array.slots array.cnt (some v) room in
    (record { cnt = array.cnt + 1; slots = slots }, rw e, refl, n)

pub add_custom_header_room_any :
    (lib : Strings) (text : Bytes) (hdrs : Array Header)
    → hdrs.cnt < 12
    → length hdrs.slots ≡ 12
    → (s : Status) × (hdrs' : Array Header) × (add_custom_header lib text hdrs ≡ ok (s, hdrs'))
      × (hdrs'.cnt ≤ hdrs.cnt + 1)
      × (length hdrs'.slots ≡ length hdrs.slots)
unfolding add_custom_header
add_custom_header_room_any lib text hdrs room size = elim (Option-cases (parse_header lib text)) [
  | inl e ↦ (einval, hdrs, ground arith, omega arith, refl)
  | inr (hdr, e) ↦
      let (hdrs', p, c, n) = push_room_any hdr hdrs (omega arith) in
      (success, hdrs', ground arith, omega arith, n)
]

pub add_proxy_room_any :
    (lib : Strings) (uris : Uris) (text : Bytes) (proxies : Array Bytes)
    → proxies.cnt < 12
    → length proxies.slots ≡ 12
    → (proxies' : Array Bytes) × (add_proxy lib uris text proxies ≡ ok proxies')
      × (proxies'.cnt ≤ proxies.cnt + 1)
      × (length proxies'.slots ≡ length proxies.slots)
unfolding add_proxy
add_proxy_room_any lib uris text proxies room size =
    elim (Option-cases (proxy_uri lib uris proxies.cnt (skip_spaces lib text))) [
      | inl e ↦ (proxies, ground arith, omega arith, refl)
      | inr (uri, e) ↦
          let (proxies', p, c, n) = push_room_any uri proxies (omega arith) in
          (proxies', ground arith, omega arith, n)
    ]
