-- ===== src/Calls.antt =====
-- The calls that the program makes to pjsip, in order. The functions of src/mod and src/app that
-- prepare a request are written in a monad that keeps them, and pjsip's answers are a parameter.
pub mod Attempt
pub mod Ends
pub mod Registrations
use sippak.Prelude.{ℕ, Bool, true, false, List, [], ◌∷◌, Option, if◌then◌else◌}
use sippak.CString.{Bytes}
use sippak.Config.{
  Status, success, Outcome, ok, exit, fault, PjStr, Codec, Header, MediaType, Config,
}
use sippak.Bodies.{Body, PresStatus}
use sippak.Dns.{Server}
use sippak.SipHelper.Requests.{Built, Cred}

pub data Method : Type 0 where
  options message refer notify : Method

-- The modules of the program that it registers with pjsip.
pub data Module : Type 0 where
  mod_ping mod_message mod_refer mod_notify mod_publish mod_subscribe mod_register mod_invite :
      Module
  msg_logger sip_mangler : Module

-- The functions of pjsip that the program calls, with the arguments that it chooses, and, to the
-- point where they stand, what `main` prints and its loop.
pub data Call : Type 0 where
  pj_init endpt_create create_pool pool_destroy : Call
  print_usage print_version main_loop : Call
  create_resolver set_resolver : Call
  set_ns : ℕ → List (Option Server) → Call
  sockaddr_in_init : PjStr → ℕ → Call
  tcp_transport_start udp_transport_start : Call
  tsx_layer_init ua_init rel100_init inv_usage_init evsub_init mwi_init pres_init : Call
  register_module : Module → Call
  create_request :
      Method → (ruri : PjStr) (from : Built) (to : PjStr) (contact : Option PjStr) → Call
  add_hdr : Header → Call
  set_body : Body → Call
  send_request : Call
  regc_create : Call
  regc_init :
      (ruri from : Built) (to : PjStr) (contact_cnt : ℕ) (contact : PjStr) (expires : ℕ) → Call
  regc_set_route_set : List Bytes → Call
  regc_unregister_all regc_unregister regc_register regc_send : Call
  publishc_create : Call
  publishc_init : (event target : PjStr) (from : Built) (expires : ℕ) → Call
  publishc_set_route_set : List Bytes → Call
  publishc_publish publishc_send : Call
  create_pidf create_xpidf : PresStatus → PjStr → Call
  set_credentials : Cred → Call
  dlg_create_uac : (from : Built) (contact ruri : PjStr) → Call
  dlg_set_route_set : List Bytes → Call
  mwi_create_uac pres_create_uac mwi_send_request pres_send_request : Call
  mwi_initiate pres_initiate : (expires : ℕ) → Call
  inv_create_uac inv_invite inv_send_msg : Call
  endpt_create_media register_audio_codecs : Call
  codec_init : Codec → Call
  media_transport_udp_create : (port : ℕ) → Call
  media_get_info media_create_sdp : Call

-- pjsip: the status that it gives, by the calls so far, the last one first; the address and port of
-- the transport that a run starts; `PJSIP_MAX_URL_SIZE`; `pjsip_parse_hdr` for a Route header;
-- `pjsip_media_type_print`; and whether a presence document for NOTIFY is made.
pub record Library : Type 0 where
  pub status : List Call → Status
  pub local_addr : Bytes
  pub local_port : ℕ
  pub max_url : ℕ
  pub parse_hdr : Bytes → Option Bytes
  pub media_type_print : MediaType → Option Bytes
  pub pres_created : Bool

-- How a function goes on or ends: with a value, by the `return` in `SIPPAK_ASSERT_SUCC`, by `exit`,
-- or with undefined behaviour; or it has not ended, since its loop still waits for pjsip.
pub data Result (A : Type 0) : Type 0 where
  value : A → Result A
  returned exited : Status → Result A
  faulted running : Result A

-- The calls go with the state, the last one first.
abbrev pub Run : Type 0 → Type 0
Run A = List Call → Result A × List Call

abbrev pub pure : {A : Type 0} → A → Run A
pure a h = (value a, h)

abbrev pub and_then : {A B : Type 0} → Result A × List Call → (A → Run B) → Result B × List Call
and_then (value a, h) f = f a h
and_then (returned s, h) f = (returned s, h)
and_then (exited s, h) f = (exited s, h)
and_then (faulted, h) f = (faulted, h)
and_then (running, h) f = (running, h)

infixl 5 ◌>>=◌ ◌>>◌
abbrev pub ◌>>=◌ : {A B : Type 0} → Run A → (A → Run B) → Run B
◌>>=◌ m f h = and_then (m h) f

abbrev pub ◌>>◌ : {A B : Type 0} → Run A → Run B → Run B
m >> k = m >>= λ _. k

abbrev pub is_success : Status → Bool
is_success success = true
is_success _ = false

abbrev pub assert_succ : Status → Run Unit
assert_succ s h = if is_success s then (value tt, h) else (returned s, h)

-- A call of pjsip, with its status.
abbrev pub call : Library → Call → Run Status
call lib c h = (value (lib.status (c ∷ h)), c ∷ h)

-- A call whose status the program does not look at, or that has none.
abbrev pub tell : Call → Run Unit
tell c h = (value tt, c ∷ h)

abbrev pub ending : {A : Type 0} → Outcome A → Result A
ending (ok a) = value a
ending (exit s) = exited s
ending fault = faulted

abbrev pub lift : {A : Type 0} → Outcome A → Run A
lift o h = (ending o, h)

abbrev pub leave : Result Status → Result Status
leave (returned s) = value s
leave (value s) = value s
leave (exited s) = exited s
leave faulted = faulted
leave running = running

-- The end of a function: its `return` gives the status to the caller.
abbrev pub function : Run Status → Run Status
function m h = let (r, h') = m h in (leave r, h')

-- `status = f(..); SIPPAK_ASSERT_SUCC(status, ..);`
abbrev pub asserted : Run Status → Run Unit
asserted f = function f >>= assert_succ
