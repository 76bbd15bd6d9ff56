-- ===== src/Commands/Dialogs/Plan.antt =====
-- The calls of `sippak_cmd_subscribe` and `sippak_cmd_invite`.
use sippak.Prelude.{◌≡◌, refl, sym, List, [], ◌∷◌, ◌++◌, Option, some}
use sippak.CString.{Bytes}
use sippak.Uris.{Uris}
use sippak.Config.{ok, PjStr, Config, EvType}
use sippak.Media.{Build}
use sippak.Media.Endpoint.{register_codecs}
use sippak.Media.Endpoint.Chosen.{sdp_plan, set_media_sdp-Does}
use sippak.SipHelper.Requests.{from_hdr, ruri, create_contact_hdr, set_cred, set_proxies_list}
use sippak.Session.Subscribe.{set_sub_evtype}
use sippak.Calls.{
  mod_subscribe, mod_invite, tsx_layer_init, ua_init, rel100_init, inv_usage_init, evsub_init,
  mwi_init, pres_init, register_module, set_credentials, dlg_create_uac, dlg_set_route_set,
  mwi_create_uac, pres_create_uac, mwi_send_request, pres_send_request, mwi_initiate, pres_initiate,
  inv_create_uac, inv_invite, inv_send_msg, Library,
}
use sippak.Calls.Attempt.{Step, must, Does, call-Does, call-Does_then, asserted-Does, lift-Does}
use sippak.Commands.Plans.{transport_plan, transport_init-Does, from_ruri-Does}
use sippak.Commands.Clients.Plan.{routes_plan, put_routes-Does}
use sippak.Commands.Dialogs.{by_event, cmd_subscribe, cmd_invite}

-- The calls of the event package that `set_sub_evtype` names: of MWI, or of presence.
abbrev pub mwi_package : Config → List Step
mwi_package app =
    must (register_module mod_subscribe)
    ∷ must mwi_create_uac
    ∷ must (mwi_initiate app.expires)
    ∷ must tsx_layer_init
    ∷ must mwi_send_request
    ∷ []

abbrev pub pres_package : Config → List Step
pres_package app =
    must (register_module mod_subscribe)
    ∷ must pres_create_uac
    ∷ must (pres_initiate app.expires)
    ∷ must tsx_layer_init
    ∷ must pres_send_request
    ∷ []

abbrev pub package_plan : Config → EvType → List Step
package_plan app EvType.mwi = must mwi_init ∷ mwi_package app
package_plan app _ = must pres_init ∷ pres_package app

abbrev event_plan : Config → EvType → List Step
event_plan app e =
    must (by_event e mwi_init pres_init)
    ∷ must (register_module mod_subscribe)
    ∷ must (by_event e mwi_create_uac pres_create_uac)
    ∷ must (by_event e (mwi_initiate app.expires) (pres_initiate app.expires))
    ∷ must tsx_layer_init
    ∷ must (by_event e mwi_send_request pres_send_request)
    ∷ []

event_plan-set_sub_evtype :
    (app : Config) (e : EvType) → event_plan app e ≡ package_plan app (set_sub_evtype e)
unfolding set_sub_evtype
event_plan-set_sub_evtype app EvType.unknown = refl
event_plan-set_sub_evtype app EvType.pres = refl
event_plan-set_sub_evtype app EvType.mwi = refl
event_plan-set_sub_evtype app EvType.other = refl

module _ (uris : Uris) (app : Config) (cnt : PjStr) where
  abbrev pub subscribe_plan : EvType → List Step
  subscribe_plan evtype =
      transport_plan app
      ++ (must ua_init
          ∷ must (dlg_create_uac (from_hdr uris app) cnt (ruri uris app))
          ∷ must (set_credentials (set_cred app))
          ∷ must evsub_init
          ∷ package_plan app evtype)

  abbrev pub invite_plan : Option (List Bytes) → List Step → List Step
  invite_plan routes codecs =
      transport_plan app
      ++ (must tsx_layer_init
            ∷ must ua_init
            ∷ must rel100_init
            ∷ must inv_usage_init
            ∷ must (register_module mod_invite)
            ∷ must (dlg_create_uac (from_hdr uris app) cnt (ruri uris app))
            ∷ must (set_credentials (set_cred app))
            ∷ sdp_plan app codecs
          ++ (must inv_create_uac ∷ routes_plan dlg_set_route_set routes
              ++ (must inv_invite ∷ must inv_send_msg ∷ [])))

module _ (lib : Library) (uris : Uris) (app : Config) {cnt : PjStr} {dest : Bytes}
    (given : app.dest ≡ some dest)
    (contact : create_contact_hdr lib.max_url app lib.local_addr lib.local_port ≡ ok cnt) where
  -- If a destination is given and the Contact header fits its buffer, `sippak_cmd_subscribe` makes the calls for the transport,
  -- the dialog and the credentials and then only those of the one event package that
  -- `set_sub_evtype` names, MWI or presence, in this order, and stops at the first that fails with its
  -- status.
  pub cmd_subscribe-Does :
      Does lib
        (subscribe_plan uris app cnt (set_sub_evtype app.pres_ev))
        (cmd_subscribe lib uris app)
  unfolding cmd_subscribe
  cmd_subscribe-Does = rw (sym (event_plan-set_sub_evtype app app.pres_ev)) (
      asserted-Does lib _ _ (transport_init-Does lib app) (
        lift-Does lib _ _ contact (
          from_ruri-Does lib uris app given _ _ (
            call-Does_then lib _ _ (
              call-Does_then lib _ _ (
                call-Does_then lib _ _ (
                  call-Does_then lib _ _ (
                    call-Does_then lib _ _ (
                      call-Does_then lib _ _ (
                        call-Does_then lib _ _ (
                          call-Does_then lib _ _
                            (call-Does_then lib _ _ (call-Does lib _)))))))))))))

  pub cmd_invite-Does :
      (build : Build) {routes : Option (List Bytes)} {codecs : List Step}
      → set_proxies_list lib.parse_hdr app ≡ ok routes
      → Does lib codecs (register_codecs lib build app.media)
      → Does lib (invite_plan uris app cnt routes codecs) (cmd_invite lib uris build app)
  unfolding cmd_invite
  cmd_invite-Does build {routes} {codecs} proxies media =
      asserted-Does lib _ _ (transport_init-Does lib app) (
        call-Does_then lib _ _ (
          call-Does_then lib _ _ (
            call-Does_then lib _ _ (
              call-Does_then lib _ _ (
                call-Does_then lib _ _ (
                  lift-Does lib _ _ contact (
                    from_ruri-Does lib uris app given _ _ (
                      call-Does_then lib _ _ (
                        call-Does_then lib _ _ (
                          asserted-Does lib _ _ (set_media_sdp-Does lib build app codecs media) (
                            call-Does_then lib _ _ (
                              lift-Does lib _ _ proxies (
                                put_routes-Does lib dlg_set_route_set routes _ _
                                  (call-Does_then lib _ _ (call-Does lib _)))))))))))))))
