-- ===== src/Commands/Clients.antt =====
-- `sippak_cmd_register` of mod/register.c and `sippak_cmd_publish` of mod/publish.c.
pub mod Plan
use sippak.Prelude.{
  ℕ, zero, suc, Bool, true, false, List, [], ◌∷◌, Option, none, some, ◌==◌, if◌then◌else◌,
}
use sippak.CString.{Bytes, codes}
use sippak.Uris.{Uris}
use sippak.Config.{Status, cli_einvarg, Outcome, ok, exit, fault, PjStr, slen, CType, Config}
use sippak.SipHelper.Requests.{
  Built, create_from_hdr, create_ruri, create_reg_ruri, set_cred, set_proxies_list,
}
use sippak.Bodies.{PresStatus}
use sippak.Calls.{
  Call, mod_register, mod_publish, tsx_layer_init, register_module, regc_create, regc_init,
  regc_set_route_set, regc_unregister_all, regc_unregister, regc_register, regc_send,
  publishc_create, publishc_init, publishc_set_route_set, publishc_publish, publishc_send,
  create_pidf, create_xpidf, set_credentials, Library, Run, pure, ◌>>=◌, ◌>>◌, call, tell, lift,
  asserted,
}
use sippak.Commands.{transport_init, contact_hdr}

-- The call that gives the route set, if there is one.
abbrev pub put_routes : (List Bytes → Call) → Option (List Bytes) → Run Unit
put_routes set_route_set none = pure tt
put_routes set_route_set (some route_set) = tell (set_route_set route_set)

-- Which registration is asked for.
abbrev pub registration : Config → Call
registration app =
    if app.cancel_all_reg
    then regc_unregister_all
    else if app.cancel
    then regc_unregister
    else regc_register

abbrev pub contact_cnt : Config → ℕ
contact_cnt app = if app.is_clist then 0 else 1

abbrev pub publish_event : Config → PjStr
publish_event app = if slen app.event == 0 then some (codes "presence") else app.event

abbrev pub publish_status : Config → PjStr → PresStatus
publish_status app pres_id = record {
  basic_open = app.pres_status_open;
  id = pres_id;
  note = app.pres_note;
  is_busy = if app.pres_status_open then false else true;
}

abbrev pub check_expires : ℕ → Outcome (Unit {0})
check_expires zero = exit cli_einvarg
check_expires (suc n) = ok tt

-- The document, by the content type; the status counts only where the type is known.
abbrev pub put_document : Library → CType → PresStatus → PjStr → Run Unit
put_document lib CType.xpidf pres_status pres_id =
    asserted (call lib (create_xpidf pres_status pres_id))
put_document lib CType.pidf pres_status pres_id =
    asserted (call lib (create_pidf pres_status pres_id))
put_document lib _ pres_status pres_id = tell (create_pidf pres_status pres_id)

module _ (lib : Library) (uris : Uris) where
  unfoldable pub cmd_register : Config → Run Status
  unfolding transport_init create_from_hdr create_ruri create_reg_ruri set_cred set_proxies_list
  cmd_register app = do
    asserted (transport_init lib app)
    asserted (call lib tsx_layer_init)
    asserted (call lib (register_module mod_register))
    asserted (call lib regc_create)
    srv_url ← lift (create_reg_ruri uris app)
    to_uri ← lift (create_ruri uris app)
    from_uri ← lift (create_from_hdr uris app)
    contact ← contact_hdr lib app
    asserted (call lib (regc_init srv_url from_uri to_uri (contact_cnt app) contact app.expires))
    asserted (call lib (set_credentials (set_cred app)))
    route_set ← lift (set_proxies_list lib.parse_hdr app)
    put_routes regc_set_route_set route_set
    asserted (call lib (registration app))
    call lib regc_send

  unfoldable pub cmd_publish : Config → Run Status
  unfolding transport_init create_from_hdr create_ruri set_cred set_proxies_list
  cmd_publish app = do
    let event = publish_event app
    lift (check_expires app.expires)
    asserted (transport_init lib app)
    target_uri ← lift (create_ruri uris app)
    from_uri ← lift (create_from_hdr uris app)
    pres_id ← contact_hdr lib app
    asserted (call lib publishc_create)
    asserted (call lib (publishc_init event target_uri from_uri app.expires))
    route_set ← lift (set_proxies_list lib.parse_hdr app)
    put_routes publishc_set_route_set route_set
    asserted (call lib (set_credentials (set_cred app)))
    asserted (call lib publishc_publish)
    put_document lib app.ctype_e (publish_status app pres_id) pres_id
    asserted (call lib tsx_layer_init)
    asserted (call lib (register_module mod_publish))
    call lib publishc_send
