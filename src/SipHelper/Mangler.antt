-- ===== src/SipHelper/Mangler.antt =====
-- mod/sip_mangler.c and `sippak_add_sip_headers` of app/sip_helper.c: the headers from the command
-- line, put into every request before it is sent.
use sippak.Prelude.{
  ℕ, zero, suc, ◌≡◌, refl, sym, ap, ◌∙◌, Bool, true, false, not, ◌&&◌, List, [], ◌∷◌, ◌++◌, map,
  Option, none, some, length, All, ltb, if◌then◌else◌, Bool-cases, inl, inr, arith,
}
use sippak.CString.{Bytes, codes}
use sippak.Config.{Status, success, Outcome, ok, fault, ◌>>=◌, slen, text, Header, Config}
use sippak.Getopts.Headers.Laws.{Holds}

-- pjsip's messages (pjsip/sip_msg.h): whether `pjsip_msg_find_hdr_by_name` finds a header, and
-- `pjsip_msg_add_hdr`.
pub record Messages : Type 1 where
  pub Msg : Type 0
  pub find : Msg → Bytes → Bool
  pub add : Msg → Header → Msg

-- What is added is found by its name, and what was found stays.
pub record MessageLaws (lib : Messages) : Type 0 where
  pub find-add_self : (m : lib.Msg) (h : Header) → lib.find (lib.add m h) h.name ≡ true
  pub find-add :
      (m : lib.Msg) (h : Header) (name : Bytes)
      → lib.find m name ≡ true
      → lib.find (lib.add m h) name ≡ true

module _ (lib : Messages) where
  -- `if (pjsip_msg_find_hdr_by_name(..) == NULL) pjsip_msg_add_hdr(..)`
  unfoldable pub add_missing : Header → lib.Msg → lib.Msg
  add_missing h msg = if lib.find msg h.name then msg else lib.add msg h

  abbrev pub ua_header : Config → Header
  ua_header app = record { name = codes "User-Agent"; value = text app.user_agent }

  -- The loop over `app->cfg.hdrs.h`.
  unfoldable pub headers_loop : ℕ → List (Option Header) → lib.Msg → Outcome lib.Msg
  unfolding add_missing
  headers_loop zero slots msg = ok msg
  headers_loop (suc n) [] msg = fault
  headers_loop (suc n) (none ∷ slots) msg = fault
  headers_loop (suc n) (some h ∷ slots) msg = headers_loop n slots (add_missing h msg)

  -- `sippak_add_sip_headers`
  unfoldable pub add_sip_headers : Config → lib.Msg → Outcome lib.Msg
  unfolding headers_loop
  add_sip_headers app msg =
      let msg' =
        if not (lib.find msg (codes "User-Agent")) && ltb 0 (slen app.user_agent)
        then lib.add msg (ua_header app)
        else msg in
      if ltb 0 app.hdrs.cnt then headers_loop app.hdrs.cnt app.hdrs.slots msg' else ok msg'

  -- `on_tx_request` of mod/sip_mangler.c, with the configuration that was registered.
  unfoldable pub on_tx_request : Config → lib.Msg → Outcome (Status × lib.Msg)
  unfolding add_sip_headers
  on_tx_request local_app tdata = do msg ← add_sip_headers local_app tdata; ok (success, msg)

module _ {lib : Messages} (laws : MessageLaws lib) where
  add_all : List Header → lib.Msg → lib.Msg
  add_all [] msg = msg
  add_all (h ∷ hs) msg = add_all hs (add_missing lib h msg)

  add_all_keeps :
      (hs : List Header) (msg : lib.Msg) (name : Bytes)
      → lib.find msg name ≡ true
      → lib.find (add_all hs msg) name ≡ true
  unfolding add_all add_missing
  add_all_keeps [] msg name h = h
  add_all_keeps (x ∷ hs) msg name h = elim (Bool-cases (lib.find msg x.name)) [
    | inl e ↦ rw e (add_all_keeps hs msg name h)
    | inr e ↦ rw e (add_all_keeps hs (lib.add msg x) name (laws.find-add msg x name h))
  ]

  add_missing_finds : (h : Header) (msg : lib.Msg) → lib.find (add_missing lib h msg) h.name ≡ true
  unfolding add_missing
  add_missing_finds h msg = elim (Bool-cases (lib.find msg h.name)) [
    | inl e ↦ rw e e
    | inr e ↦ rw e (laws.find-add_self msg h)
  ]

  -- Every header of the list has its name in the message.
  abbrev pub Present : List Header → lib.Msg → Type 0
  Present hs msg = All (λ h. lib.find msg h.name ≡ true) hs

  add_all-Present : (hs : List Header) (msg : lib.Msg) → Present hs (add_all hs msg)
  unfolding add_all
  add_all-Present [] msg = tt
  add_all-Present (h ∷ hs) msg = (
    add_all_keeps hs (add_missing lib h msg) h.name (add_missing_finds h msg),
    add_all-Present hs (add_missing lib h msg),
  )

  add_all_again : (hs : List Header) (msg : lib.Msg) → Present hs msg → add_all hs msg ≡ msg
  unfolding add_all add_missing
  add_all_again [] msg p = refl
  add_all_again (h ∷ hs) msg p = rw (p.0) (add_all_again hs msg p.1)

  headers_loop-add_all :
      (hs : List Header) (rest : List (Option Header)) (msg : lib.Msg)
      → headers_loop lib (length hs) (map some hs ++ rest) msg ≡ ok (add_all hs msg)
  unfolding headers_loop add_all
  headers_loop-add_all [] rest msg = refl
  headers_loop-add_all (h ∷ hs) rest msg = headers_loop-add_all hs rest (add_missing lib h msg)

  -- The headers that the command line asks for.
  pub wanted : Config → List Header → List Header
  wanted app hs = if ltb 0 (slen app.user_agent) then ua_header lib app ∷ hs else hs

  add_missing-found :
      (x : Header) (msg : lib.Msg) → lib.find msg x.name ≡ true → add_missing lib x msg ≡ msg
  unfolding add_missing
  add_missing-found x msg f = rw f refl

  add_missing-new :
      (x : Header) (msg : lib.Msg)
      → lib.find msg x.name ≡ false
      → add_missing lib x msg ≡ lib.add msg x
  unfolding add_missing
  add_missing-new x msg f = rw f refl

  slots_or_none :
      (app : Config) (hs : List Header) (msg : lib.Msg)
      → Holds app.hdrs hs
      → (if ltb 0 app.hdrs.cnt then headers_loop lib app.hdrs.cnt app.hdrs.slots msg else ok msg)
        ≡ ok (add_all hs msg)
  unfolding add_all
  slots_or_none app [] msg h = rw h.cnt refl
  slots_or_none app (x ∷ hs) msg h =
      let some_there : ltb 0 (length (x ∷ hs)) ≡ true = ground arith in
      rw (h.cnt, h.slots, some_there) (headers_loop-add_all (x ∷ hs) h.rest msg)

  add_sip_headers-add_all :
      (app : Config) (hs : List Header) (msg : lib.Msg)
      → Holds app.hdrs hs
      → add_sip_headers lib app msg ≡ ok (add_all (wanted app hs) msg)
  unfolding add_sip_headers add_all wanted
  add_sip_headers-add_all app hs msg h = elim (Bool-cases (ltb 0 (slen app.user_agent))) [
    | inr e ↦ elim (Bool-cases (lib.find msg (codes "User-Agent"))) [
      | inl f ↦ rw (e, f) (slots_or_none app hs msg h)
      | inr f ↦ rw (e, f) (slots_or_none app hs msg h)
    ]
    | inl e ↦ elim (Bool-cases (lib.find msg (codes "User-Agent"))) [
      | inl f ↦
          rw (e, f)
            (slots_or_none app hs msg h
              ∙ ap (λ m. ok (add_all hs m)) (sym (add_missing-found (ua_header lib app) msg f)))
      | inr f ↦
          rw (e, f)
            (slots_or_none app hs (lib.add msg (ua_header lib app)) h
              ∙ ap (λ m. ok (add_all hs m)) (sym (add_missing-new (ua_header lib app) msg f)))
    ]
  ]

  -- Where the header array holds some headers, a request that is about to be sent has afterwards a
  -- header of the name of each of them and, if a user agent is set, User-Agent, and doing the same to
  -- it again changes nothing.
  pub on_tx_request-idempotent :
      (app : Config) (hs : List Header) (msg : lib.Msg)
      → Holds app.hdrs hs
      → (msg' : lib.Msg) × (on_tx_request lib app msg ≡ ok (success, msg'))
        × Present (wanted app hs) msg'
        × (on_tx_request lib app msg' ≡ ok (success, msg'))
  unfolding on_tx_request
  on_tx_request-idempotent app hs msg h =
      let there : Present (wanted app hs) (add_all (wanted app hs) msg) =
        add_all-Present (wanted app hs) msg in
      (
        add_all (wanted app hs) msg,
        rw (add_sip_headers-add_all app hs msg h) refl,
        there,
        rw
            (
              add_sip_headers-add_all app hs (add_all (wanted app hs) msg) h,
              add_all_again (wanted app hs) (add_all (wanted app hs) msg) there,
            )
            refl,
      )
