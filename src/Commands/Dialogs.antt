-- ===== src/Commands/Dialogs.antt =====
-- `sippak_cmd_subscribe` of mod/subscribe.c and `sippak_cmd_invite` of mod/invite.c.
pub mod Plan
use sippak.Prelude.{Bool, true, false, List, [], ◌∷◌, Option, none, some, if◌then◌else◌}
use sippak.Uris.{Uris}
use sippak.Config.{Status, Outcome, ok, exit, fault, EvType, Config}
use sippak.Media.{Build}
use sippak.Media.Endpoint.{set_media_sdp}
use sippak.SipHelper.Requests.{create_from_hdr, create_ruri, set_cred, set_proxies_list}
use sippak.Calls.{
  Call, mod_subscribe, mod_invite, tsx_layer_init, ua_init, rel100_init, inv_usage_init, evsub_init,
  mwi_init, pres_init, register_module, set_credentials, dlg_create_uac, dlg_set_route_set,
  mwi_create_uac, pres_create_uac, mwi_send_request, pres_send_request, mwi_initiate, pres_initiate,
  inv_create_uac, inv_invite, inv_send_msg, Library, Run, pure, ◌>>=◌, ◌>>◌, call, lift, asserted,
}
use sippak.Commands.{transport_init, contact_hdr}
use sippak.Commands.Clients.{put_routes}

-- `if (app->cfg.pres_ev == EVTYPE_MWI)`, around the calls of the one event package and the other.
abbrev pub by_event : EvType → Call → Call → Call
by_event EvType.mwi mwi pres = mwi
by_event _ mwi pres = pres

module _ (lib : Library) (uris : Uris) where
  -- The result of `set_sub_evtype` is not used.
  unfoldable pub cmd_subscribe : Config → Run Status
  unfolding transport_init create_from_hdr create_ruri set_cred
  cmd_subscribe app = do
    asserted (transport_init lib app)
    cnt ← contact_hdr lib app
    from ← lift (create_from_hdr uris app)
    ruri ← lift (create_ruri uris app)
    asserted (call lib ua_init)
    asserted (call lib (dlg_create_uac from cnt ruri))
    asserted (call lib (set_credentials (set_cred app)))
    asserted (call lib evsub_init)
    asserted (call lib (by_event app.pres_ev mwi_init pres_init))
    asserted (call lib (register_module mod_subscribe))
    asserted (call lib (by_event app.pres_ev mwi_create_uac pres_create_uac))
    asserted
        (call lib (by_event app.pres_ev (mwi_initiate app.expires) (pres_initiate app.expires)))
    asserted (call lib tsx_layer_init)
    call lib (by_event app.pres_ev mwi_send_request pres_send_request)

  unfoldable pub cmd_invite : Build → Config → Run Status
  unfolding transport_init create_from_hdr create_ruri set_cred set_proxies_list set_media_sdp
  cmd_invite build app = do
    asserted (transport_init lib app)
    asserted (call lib tsx_layer_init)
    asserted (call lib ua_init)
    asserted (call lib rel100_init)
    asserted (call lib inv_usage_init)
    asserted (call lib (register_module mod_invite))
    cnt ← contact_hdr lib app
    from ← lift (create_from_hdr uris app)
    ruri ← lift (create_ruri uris app)
    asserted (call lib (dlg_create_uac from cnt ruri))
    asserted (call lib (set_credentials (set_cred app)))
    asserted (set_media_sdp lib build app)
    asserted (call lib inv_create_uac)
    route_set ← lift (set_proxies_list lib.parse_hdr app)
    put_routes dlg_set_route_set route_set
    asserted (call lib inv_invite)
    call lib inv_send_msg
