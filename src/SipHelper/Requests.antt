-- ===== src/SipHelper/Requests.antt =====
-- The URIs and the Contact header of app/sip_helper.c.
pub mod Laws
use sippak.Prelude.{
  ℕ, zero, suc, ◌+◌, ◌*◌, ◌/◌, ◌%◌, ◌≤◌, ◌<◌, ◌≡◌, Bool, true, false, List, [], ◌∷◌, ◌++◌, Option,
  none, some, length, ltb, ◌==◌, if◌then◌else◌,
}
use sippak.CString.{Bytes, codes}
use sippak.Uris.{Uris}
use sippak.Config.{Outcome, ok, exit, fault, ◌>>=◌, PjStr, slen, text, Proto, udp, tcp, Config}

-- A `pj_str_t` that a function returns: a text, or a buffer with length -1.
pub data Built : Type 0 where
  str : PjStr → Built
  negative : Built

-- `str.slen = pjsip_uri_print(..)`
abbrev pub print_slen : Option Bytes → Built
print_slen none = negative
print_slen (some b) = str (some b)

-- What is made of the text behind a pointer, which must not be null.
abbrev at_pointer {ℓ} : {A : Type ℓ} → PjStr → A → Outcome A
at_pointer none x = fault
at_pointer (some bytes) x = ok x

module _ (uris : Uris) (app : Config) where
  -- The display name is printed over the URI, with no second check of the length.
  abbrev with_name : PjStr → uris.Uri → Bytes → Built
  with_name none uri from = str (some from)
  with_name (some name) uri from = print_slen (uris.print_name (some name) uri)

  abbrev print_from : uris.Uri → Option Bytes → Built
  print_from uri none = str app.dest
  print_from uri (some from) = with_name app.from_name uri from

  abbrev from_uri : Option uris.Uri → Built
  from_uri none = str app.dest
  from_uri (some dest_uri) =
      let uri = uris.set_user app.username dest_uri in print_from uri (uris.print_fromto uri)

  -- The From header of a destination that is given.
  abbrev pub from_hdr : Built
  from_hdr = from_uri (uris.parse (text app.dest))

  -- `sippak_create_from_hdr`; `pjsip_parse_uri` reads at the pointer of the destination.
  unfoldable pub create_from_hdr : Outcome Built
  create_from_hdr = at_pointer app.dest from_hdr

  abbrev with_transport : Proto → uris.Uri → uris.Uri
  with_transport tcp uri = uris.set_transport (codes "tcp") uri
  with_transport udp uri = uri

  abbrev print_ruri : Option Bytes → PjStr
  print_ruri none = app.dest
  print_ruri (some ruri) = some ruri

  abbrev ruri_of : Option uris.Uri → PjStr
  ruri_of none = app.dest
  ruri_of (some dest_uri) = print_ruri (uris.print_req (with_transport app.proto dest_uri))

  -- The request URI of a destination that is given.
  abbrev pub ruri : PjStr
  ruri = ruri_of (uris.parse (text app.dest))

  -- `sippak_create_ruri`, which parses in the same way.
  unfoldable pub create_ruri : Outcome PjStr
  create_ruri = at_pointer app.dest ruri

  -- The parsed URI is followed with no check for a null pointer.
  abbrev pub without_user : Option uris.Uri → Outcome Built
  without_user none = fault
  without_user (some ruri_s) = ok (print_slen (uris.print_req (uris.set_user none ruri_s)))

  -- `sippak_create_reg_ruri`
  unfoldable pub create_reg_ruri : Outcome Built
  unfolding create_ruri
  create_reg_ruri = do srv_url ← create_ruri; without_user (uris.parse (text srv_url))

-- The decimal digits of a number, on fuel, in front of those already printed.
unfoldable pub digits_onto : ℕ → ℕ → Bytes → Bytes
digits_onto zero n out = out
digits_onto (suc f) n out =
    let here = (b'0' + n % 10) ∷ out in
    let more = digits_onto f (n / 10) here in if n / 10 == 0 then here else more

-- `%d` of a number that is not negative.
unfoldable pub print_decimal : ℕ → Bytes
unfolding digits_onto
print_decimal n = digits_onto (suc n) n []

-- The text that `pj_ansi_sprintf` prints for the Contact header.
unfoldable pub contact_text : PjStr → Bytes → ℕ → Bytes
unfolding print_decimal
contact_text username local_addr local_port =
    codes "sip:" ++ (text username ++ (b'@' ∷ (local_addr ++ (b':' ∷ print_decimal local_port))))

-- `sippak_create_contact_hdr`; the buffer holds `max_url` bytes (`PJSIP_MAX_URL_SIZE`), the last of
-- them a NUL.
unfoldable pub create_contact_hdr : ℕ → Config → Bytes → ℕ → Outcome PjStr
unfolding contact_text
create_contact_hdr max_url app local_addr local_port =
    let contact = contact_text app.username local_addr local_port in
    if ltb 0 (slen app.contact)
    then ok app.contact
    else if ltb (length contact) max_url
    then ok (some contact)
    else fault

-- `sippak_set_cred`: `pjsip_cred_info`, without the constant data type.
pub record Cred : Type 0 where
  pub realm : Bytes
  pub scheme : Bytes
  pub username : PjStr
  pub password : PjStr

unfoldable pub set_cred : Config → Cred
set_cred app = record {
  realm = codes "*";
  scheme = codes "digest";
  username = app.username;
  password = app.password;
}

-- The loop of `sippak_set_proxies_list`, over the slots from `i` on; a header that does not parse
-- is left out.
module _ {Route : Type 0} (parse_hdr : Bytes → Option Route) where
  abbrev pub push_back : Option Route → List Route → List Route
  push_back none routes = routes
  push_back (some route) routes = route ∷ routes

  unfoldable pub routes_loop : ℕ → List (Option Bytes) → Outcome (List Route)
  routes_loop zero slots = ok []
  routes_loop (suc n) [] = fault
  routes_loop (suc n) (none ∷ slots) = fault
  routes_loop (suc n) (some proxy ∷ slots) = do
    routes ← routes_loop n slots
    ok (push_back (parse_hdr proxy) routes)

  -- `sippak_set_proxies_list`: `none` is `PJ_FALSE`.
  unfoldable pub set_proxies_list : Config → Outcome (Option (List Route))
  unfolding routes_loop
  set_proxies_list app =
      if app.proxy.cnt == 0
      then ok none
      else do routes ← routes_loop app.proxy.cnt app.proxy.slots; ok (some routes)
