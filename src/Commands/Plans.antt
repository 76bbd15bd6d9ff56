-- ===== src/Commands/Plans.antt =====
-- The calls of each command, one list for each, and that the commands make them.
use sippak.Prelude.{◌≡◌, List, [], ◌∷◌, ◌++◌, none, some}
use sippak.CString.{Bytes}
use sippak.Uris.{Uris}
use sippak.Config.{Status, ok, PjStr, text, Config}
use sippak.SipHelper.Requests.{
  Built, from_hdr, ruri, create_from_hdr, create_ruri, create_contact_hdr,
}
use sippak.SipHelper.Requests.Laws.{create_from_hdr-given, create_ruri-given}
use sippak.Bodies.{
  Body, no_body, text_body, pidf_body, xpidf_body, content_type, add_message_body, add_event_hdr,
  add_body_msg,
}
use sippak.Calls.{
  options, message, refer, notify, mod_ping, mod_message, mod_refer, mod_notify, sockaddr_in_init,
  tsx_layer_init, register_module, create_request, add_hdr, set_body, send_request, Library, Run,
  lift, ◌>>=◌, ◌>>◌,
}
use sippak.Calls.Attempt.{
  Step, must, may, Does, call-Does, call-Does_then, asserted-Does, tell-Does, lift-Does,
}
use sippak.Commands.{
  start_call, header_of, transport_init, cmd_ping, cmd_message, cmd_refer, cmd_notify, accept_hdr,
  text_plain, referto_hdr, refersub_hdr, put_body,
}

abbrev pub transport_plan : Config → List Step
transport_plan app =
    must (sockaddr_in_init app.local_host app.local_port) ∷ must (start_call app.proto) ∷ []

pub transport_init-Does :
    (lib : Library) (app : Config) → Does lib (transport_plan app) (transport_init lib app)
unfolding transport_init
transport_init-Does lib app =
    call-Does_then lib (sockaddr_in_init app.local_host app.local_port)
      (must (start_call app.proto) ∷ []) (call-Does lib (start_call app.proto))

module _ (uris : Uris) (app : Config) (cnt : PjStr) where
  abbrev pub ping_plan : List Step
  ping_plan =
      transport_plan app
      ++ (must (create_request options (ruri uris app) (from_hdr uris app) app.dest (some cnt))
          ∷ must tsx_layer_init
          ∷ must (register_module mod_ping)
          ∷ must send_request
          ∷ [])

-- The URIs of a destination that is given, in either order.
module _ (lib : Library) (uris : Uris) (app : Config) {dest : Bytes} (given : app.dest ≡ some dest)
    (ys : List Step) where
  pub from_ruri-Does :
      (k : Built → PjStr → Run Status)
      → Does lib ys (k (from_hdr uris app) (ruri uris app))
      → Does lib ys (
          lift (create_from_hdr uris app) >>= λ from.
          lift (create_ruri uris app) >>= λ srv_url. k from srv_url)
  from_ruri-Does k d =
      lift-Does lib ys _ (create_from_hdr-given uris app given)
        (lift-Does lib ys _ (create_ruri-given uris app given) d)

  pub ruri_from-Does :
      (k : PjStr → Built → Run Status)
      → Does lib ys (k (ruri uris app) (from_hdr uris app))
      → Does lib ys (
          lift (create_ruri uris app) >>= λ srv_url.
          lift (create_from_hdr uris app) >>= λ from. k srv_url from)
  ruri_from-Does k d =
      lift-Does lib ys _ (create_ruri-given uris app given)
        (lift-Does lib ys _ (create_from_hdr-given uris app given) d)

pub cmd_ping-Does :
    (lib : Library) (uris : Uris) (app : Config) {dest : Bytes} {cnt : PjStr}
    → app.dest ≡ some dest
    → create_contact_hdr lib.max_url app lib.local_addr lib.local_port ≡ ok cnt
    → Does lib (ping_plan uris app cnt) (cmd_ping lib uris app)
unfolding cmd_ping
cmd_ping-Does lib uris app given contact = asserted-Does lib _ _ (transport_init-Does lib app) (
    lift-Does lib _ _ contact (
      from_ruri-Does lib uris app given _ _ (
        call-Does_then lib _ _
          (call-Does_then lib _ _ (call-Does_then lib _ _ (call-Does lib _))))))

abbrev pub body_plan : Body → List Step
body_plan no_body = []
body_plan (content_type value) = may (add_hdr (header_of "Content-Type" value)) ∷ []
body_plan (text_body type b) = may (set_body (text_body type b)) ∷ []
body_plan (pidf_body s entity) = may (set_body (pidf_body s entity)) ∷ []
body_plan (xpidf_body s entity) = may (set_body (xpidf_body s entity)) ∷ []

module _ (uris : Uris) (app : Config) where
  abbrev pub message_plan : List Step
  message_plan =
      transport_plan app
      ++ (must (create_request message (ruri uris app) (from_hdr uris app) app.dest none)
          ∷ may (add_hdr accept_hdr)
          ∷ may (set_body (text_body text_plain (add_message_body app).1))
          ∷ must tsx_layer_init
          ∷ must (register_module mod_message)
          ∷ must send_request
          ∷ [])

  abbrev pub refer_plan : PjStr → List Step
  refer_plan cnt =
      transport_plan app
      ++ (must tsx_layer_init
          ∷ must (register_module mod_refer)
          ∷ must (create_request refer (ruri uris app) (from_hdr uris app) app.dest (some cnt))
          ∷ may (add_hdr (referto_hdr app))
          ∷ may (add_hdr refersub_hdr)
          ∷ must send_request
          ∷ [])

  abbrev pub notify_plan : PjStr → Body → List Step
  notify_plan cnt body =
      transport_plan app
      ++ (must (create_request notify (ruri uris app) (from_hdr uris app) app.dest (some cnt))
            ∷ may (add_hdr (header_of "Event" (text (add_event_hdr app).1)))
            ∷ body_plan body
          ++ (must tsx_layer_init ∷ must (register_module mod_notify) ∷ must send_request ∷ []))

put_body-Does :
    (lib : Library) (body : Body) (ys : List Step) (k : Run Status)
    → Does lib ys k
    → Does lib (body_plan body ++ ys) (put_body body >> k)
put_body-Does lib no_body ys k d = record { runs = λ h. d.runs h }
put_body-Does lib (content_type value) ys k d = tell-Does lib _ ys d
put_body-Does lib (text_body type b) ys k d = tell-Does lib _ ys d
put_body-Does lib (pidf_body s entity) ys k d = tell-Does lib _ ys d
put_body-Does lib (xpidf_body s entity) ys k d = tell-Does lib _ ys d

module _ (lib : Library) (uris : Uris) (app : Config) {dest : Bytes}
    (given : app.dest ≡ some dest) where
  pub cmd_message-Does : Does lib (message_plan uris app) (cmd_message lib uris app)
  unfolding cmd_message
  cmd_message-Does = from_ruri-Does lib uris app given _ _ (
      asserted-Does lib _ _ (transport_init-Does lib app) (
        call-Does_then lib _ _ (
          tell-Does lib _ _ (
            tell-Does lib _ _
              (call-Does_then lib _ _ (call-Does_then lib _ _ (call-Does lib _)))))))

  module _ {cnt : PjStr}
      (contact : create_contact_hdr lib.max_url app lib.local_addr lib.local_port ≡ ok cnt) where
    pub cmd_refer-Does : Does lib (refer_plan uris app cnt) (cmd_refer lib uris app)
    unfolding cmd_refer
    cmd_refer-Does = asserted-Does lib _ _ (transport_init-Does lib app) (
        call-Does_then lib _ _ (
          call-Does_then lib _ _ (
            ruri_from-Does lib uris app given _ _ (
              lift-Does lib _ _ contact (
                call-Does_then lib _ _
                  (tell-Does lib _ _ (tell-Does lib _ _ (call-Does lib _))))))))

    pub cmd_notify-Does :
        {body : Body}
        → add_body_msg lib.media_type_print lib.pres_created (add_event_hdr app).0 ≡ ok body
        → Does lib (notify_plan uris app cnt body) (cmd_notify lib uris app)
    unfolding cmd_notify
    cmd_notify-Does {body} made = asserted-Does lib _ _ (transport_init-Does lib app) (
        lift-Does lib _ _ contact (
          from_ruri-Does lib uris app given _ _ (
            call-Does_then lib _ _ (
              tell-Does lib _ _ (
                lift-Does lib _ _ made (
                  put_body-Does lib body _ _
                    (call-Does_then lib _ _ (call-Does_then lib _ _ (call-Does lib _)))))))))
