-- ===== src/SipHelper/Requests/Laws.antt =====
-- Where the requests of app/sip_helper.c are well formed, and where they are not.
use sippak.Prelude.{
  ℕ, zero, suc, ◌+◌, ◌*◌, ◌/◌, ◌%◌, ◌<◌, ◌≡◌, refl, ap, ◌∙◌, [], ◌∷◌, ◌++◌, none, some, length, ltb,
  ◌==◌, ==_iff, Bool-cases, inl, inr, if◌then◌else◌, length-append, arith,
}
use sippak.CString.{Bytes, decimal_from, decimal}
use sippak.Uris.{Uris}
use sippak.Config.{ok, fault, ◌>>=◌, PjStr, slen, text, Config}
use sippak.SipHelper.Requests.{
  from_hdr, ruri, create_from_hdr, without_user, create_ruri, create_reg_ruri, digits_onto,
  print_decimal, contact_text, create_contact_hdr,
}

module _ (uris : Uris) (app : Config) where
  -- With a destination that does not parse, building the request URI of REGISTER follows a null
  -- pointer.
  pub create_reg_ruri_null : uris.parse (text app.dest) ≡ none → create_reg_ruri uris app ≡ fault
  unfolding create_reg_ruri create_ruri
  create_reg_ruri_null e = by_dest app.dest refl
    where
      by_dest : (dest : PjStr) → app.dest ≡ dest → create_reg_ruri uris app ≡ fault
      by_dest none given = rw given refl
      by_dest (some dest) given = rw (given, rw given at e, rw given at e)

  module _ {dest : Bytes} (given : app.dest ≡ some dest) where
    pub create_from_hdr-given : create_from_hdr uris app ≡ ok (from_hdr uris app)
    unfolding create_from_hdr
    create_from_hdr-given = rw given refl

    pub create_ruri-given : create_ruri uris app ≡ ok (ruri uris app)
    unfolding create_ruri
    create_ruri-given = rw given refl

    pub create_reg_ruri-given :
        {uri : uris.Uri}
        → uris.parse (text (ruri uris app)) ≡ some uri
        → create_reg_ruri uris app ≡ without_user uris app (some uri)
    unfolding create_reg_ruri
    create_reg_ruri-given e =
        ap (λ o. o >>= λ srv_url. without_user uris app (uris.parse (text srv_url)))
          create_ruri-given
        ∙ ap (without_user uris app) e

length-contact_text :
    (username : PjStr) (addr : Bytes) (port : ℕ)
    → length (contact_text username addr port)
      ≡ 6 + slen username + length addr + length (print_decimal port)
unfolding contact_text
length-contact_text none addr port = omega (arith, length-append addr (b':' ∷ print_decimal port))
length-contact_text (some u) addr port = omega (
  arith,
  length-append u (b'@' ∷ (addr ++ (b':' ∷ print_decimal port))),
  length-append addr (b':' ∷ print_decimal port),
)

-- With no contact on the command line, the Contact header is the user name, address and port if
-- they, six bytes more and a NUL fit the buffer; otherwise the buffer is overrun.
pub create_contact_hdr-fits :
    (max_url : ℕ) (app : Config) (local_addr : Bytes) (local_port : ℕ)
    → slen app.contact ≡ 0
    → create_contact_hdr max_url app local_addr local_port ≡ (
        if ltb
          (6 + slen app.username + length local_addr + length (print_decimal local_port))
          max_url
        then ok (some (contact_text app.username local_addr local_port))
        else fault)
unfolding create_contact_hdr
create_contact_hdr-fits max_url app local_addr local_port no_contact =
    rw (no_contact, length-contact_text app.username local_addr local_port, create_contact_hdr)

digit_value :
    (n acc : ℕ) (out : Bytes)
    → decimal_from acc ((b'0' + n % 10) ∷ out) ≡ decimal_from (acc * 10 + n % 10) out
unfolding decimal_from
digit_value n acc out = let small : n % 10 < 10 = omega arith in ground arith

decimal-digits_onto :
    (f n : ℕ) (out : Bytes) → n < f → decimal_from 0 (digits_onto f n out) ≡ decimal_from n out
unfolding digits_onto
decimal-digits_onto zero n out h = absurd (omega arith)
decimal-digits_onto (suc f) n out h = elim (Bool-cases (n / 10 == 0)) [
  | inl e ↦
      rw (e, digits_onto)
        (digit_value n 0 out
          ∙ ap (λ k. decimal_from k out) (omega (arith, (==_iff (n / 10) 0).0 e)))
  | inr e ↦
      rw (e, digits_onto)
        (decimal-digits_onto f (n / 10) ((b'0' + n % 10) ∷ out) (ground arith)
          ∙ digit_value n (n / 10) out
          ∙ ap (λ k. decimal_from k out) (omega arith))
]

-- The decimal text of a number reads back as that number, so the port in a Contact header is the
-- one it was made with.
decimal-print_decimal : (n : ℕ) → decimal (print_decimal n) ≡ n
unfolding print_decimal
decimal-print_decimal n =
    decimal-digits_onto (suc n) n [] (omega arith) ∙ (unfold decimal_from in refl)
