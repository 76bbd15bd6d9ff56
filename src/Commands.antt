-- ===== src/Commands.antt =====
-- The functions that send one request outside of a dialog: `sippak_cmd_ping` (mod/ping.c),
-- `sippak_cmd_message` (mod/message.c), `sippak_cmd_refer` (mod/refer.c) and `sippak_cmd_notify`
-- (mod/notify.c), with `sippak_transport_init` of app/sip_helper.c.
pub mod Clients
pub mod Dialogs
pub mod Plans
use sippak.Prelude.{String, List, [], ◌∷◌, Option, none, some}
use sippak.CString.{Bytes, codes}
use sippak.Uris.{Uris}
use sippak.Config.{
  Status, Outcome, ok, exit, fault, PjStr, text, Proto, tcp, udp, Header, MediaType, Config,
}
use sippak.SipHelper.Requests.{Built, create_from_hdr, create_ruri, create_contact_hdr}
use sippak.Bodies.{
  Body, no_body, text_body, content_type, add_message_body, add_event_hdr, add_body_msg,
}
use sippak.Calls.{
  Call, Method, options, message, refer, notify, mod_ping, mod_message, mod_refer, mod_notify,
  sockaddr_in_init, tcp_transport_start, udp_transport_start, tsx_layer_init, register_module,
  create_request, add_hdr, set_body, send_request, Library, Run, pure, ◌>>=◌, ◌>>◌, call, tell,
  lift, asserted,
}

abbrev pub start_call : Proto → Call
start_call tcp = tcp_transport_start
start_call udp = udp_transport_start

abbrev pub header_of : String → Bytes → Header
header_of name value = record { name = codes name; value = value }

-- `add_accept_hdr`
abbrev pub accept_hdr : Header
accept_hdr = header_of "Accept" (codes "text/plain")

abbrev pub text_plain : MediaType
text_plain = record { type = some (codes "text"); subtype = some (codes "plain") }

-- `add_referto_hdr` and `add_refersub_hdr`
abbrev pub referto_hdr : Config → Header
referto_hdr app = header_of "Refer-To" (text app.refer_to)

abbrev pub refersub_hdr : Header
refersub_hdr = header_of "Refer-Sub" (codes "false")

-- What `add_body_msg` does to the message.
abbrev pub put_body : Body → Run Unit
put_body no_body = pure tt
put_body (content_type value) = tell (add_hdr (header_of "Content-Type" value))
put_body body = tell (set_body body)

module _ (lib : Library) where
  -- `sippak_transport_init`
  unfoldable pub transport_init : Config → Run Status
  transport_init app = do
    asserted (call lib (sockaddr_in_init app.local_host app.local_port))
    call lib (start_call app.proto)

  -- `sippak_create_contact_hdr` with the address and the port that `sippak_transport_init` gives.
  abbrev pub contact_hdr : Config → Run PjStr
  contact_hdr app = lift (create_contact_hdr lib.max_url app lib.local_addr lib.local_port)

  module _ (uris : Uris) where
    unfoldable pub cmd_ping : Config → Run Status
    unfolding transport_init create_from_hdr create_ruri
    cmd_ping app = do
      asserted (transport_init app)
      cnt ← contact_hdr app
      from ← lift (create_from_hdr uris app)
      ruri ← lift (create_ruri uris app)
      asserted (call lib (create_request options ruri from app.dest (some cnt)))
      asserted (call lib tsx_layer_init)
      asserted (call lib (register_module mod_ping))
      call lib send_request

    unfoldable pub cmd_message : Config → Run Status
    unfolding transport_init create_from_hdr create_ruri add_message_body
    cmd_message app = do
      from ← lift (create_from_hdr uris app)
      ruri ← lift (create_ruri uris app)
      asserted (transport_init app)
      asserted (call lib (create_request message ruri from app.dest none))
      tell (add_hdr accept_hdr)
      let (app', body) = add_message_body app
      tell (set_body (text_body text_plain body))
      asserted (call lib tsx_layer_init)
      asserted (call lib (register_module mod_message))
      call lib send_request

    unfoldable pub cmd_refer : Config → Run Status
    unfolding transport_init create_from_hdr create_ruri
    cmd_refer app = do
      asserted (transport_init app)
      asserted (call lib tsx_layer_init)
      asserted (call lib (register_module mod_refer))
      ruri ← lift (create_ruri uris app)
      from_uri ← lift (create_from_hdr uris app)
      cnt ← contact_hdr app
      asserted (call lib (create_request refer ruri from_uri app.dest (some cnt)))
      tell (add_hdr (referto_hdr app))
      tell (add_hdr refersub_hdr)
      call lib send_request

    unfoldable pub cmd_notify : Config → Run Status
    unfolding transport_init create_from_hdr create_ruri add_event_hdr add_body_msg
    cmd_notify app = do
      asserted (transport_init app)
      cnt ← contact_hdr app
      from ← lift (create_from_hdr uris app)
      ruri ← lift (create_ruri uris app)
      asserted (call lib (create_request notify ruri from app.dest (some cnt)))
      let (app', event) = add_event_hdr app
      tell (add_hdr (header_of "Event" (text event)))
      body ← lift (add_body_msg lib.media_type_print lib.pres_created app')
      put_body body
      asserted (call lib tsx_layer_init)
      asserted (call lib (register_module mod_notify))
      call lib send_request
