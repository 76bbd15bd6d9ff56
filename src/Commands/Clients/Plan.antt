-- ===== src/Commands/Clients/Plan.antt =====
-- The calls of `sippak_cmd_register` and `sippak_cmd_publish`.
use sippak.Prelude.{ℕ, suc, ◌≡◌, refl, List, [], ◌∷◌, ◌++◌, Option, none, some}
use sippak.CString.{Bytes}
use sippak.Uris.{Uris}
use sippak.Config.{Status, success, text, ok, PjStr, CType, Config}
use sippak.SipHelper.Requests.{
  Built, from_hdr, ruri, create_reg_ruri, create_contact_hdr, set_cred, set_proxies_list,
}
use sippak.Bodies.{PresStatus}
use sippak.Calls.{
  Call, mod_register, mod_publish, tsx_layer_init, register_module, regc_create, regc_init,
  regc_set_route_set, regc_send, publishc_create, publishc_init, publishc_set_route_set,
  publishc_publish, publishc_send, create_pidf, create_xpidf, set_credentials, Library, faulted,
  Run, ◌>>◌,
}
use sippak.Calls.Attempt.{
  Step, must, may, Does, call-Does, call-Does_then, asserted-Does, tell-Does, lift-Does,
}
use sippak.SipHelper.Requests.Laws.{create_reg_ruri_null}
use sippak.Commands.Plans.{transport_plan, transport_init-Does, ruri_from-Does}
use sippak.Commands.Clients.{
  put_routes, registration, contact_cnt, cmd_register, publish_event, publish_status, check_expires,
  put_document, cmd_publish,
}

abbrev pub routes_plan : (List Bytes → Call) → Option (List Bytes) → List Step
routes_plan set_route_set none = []
routes_plan set_route_set (some routes) = may (set_route_set routes) ∷ []

pub put_routes-Does :
    (lib : Library) (set_route_set : List Bytes → Call) (routes : Option (List Bytes))
    (ys : List Step) (k : Run Status)
    → Does lib ys k
    → Does lib (routes_plan set_route_set routes ++ ys) (put_routes set_route_set routes >> k)
put_routes-Does lib set_route_set none ys k d = record { runs = λ h. d.runs h }
put_routes-Does lib set_route_set (some routes) ys k d = tell-Does lib _ ys d

abbrev pub document_plan : CType → PresStatus → PjStr → List Step
document_plan CType.xpidf s pres_id = must (create_xpidf s pres_id) ∷ []
document_plan CType.pidf s pres_id = must (create_pidf s pres_id) ∷ []
document_plan _ s pres_id = may (create_pidf s pres_id) ∷ []

put_document-Does :
    (lib : Library) (ctype_e : CType) (s : PresStatus) (pres_id : PjStr) (ys : List Step)
    (k : Run Status)
    → Does lib ys k
    → Does lib (document_plan ctype_e s pres_id ++ ys) (put_document lib ctype_e s pres_id >> k)
put_document-Does lib CType.xpidf s pres_id ys k d = call-Does_then lib _ ys d
put_document-Does lib CType.pidf s pres_id ys k d = call-Does_then lib _ ys d
put_document-Does lib CType.unknown s pres_id ys k d = tell-Does lib _ ys d
put_document-Does lib CType.mwi s pres_id ys k d = tell-Does lib _ ys d
put_document-Does lib CType.other s pres_id ys k d = tell-Does lib _ ys d

module _ (uris : Uris) (app : Config) (cnt : PjStr) (routes : Option (List Bytes)) where
  abbrev pub register_plan : Built → List Step
  register_plan srv_url =
      transport_plan app
      ++ (must tsx_layer_init
            ∷ must (register_module mod_register)
            ∷ must regc_create
            ∷ must (
                regc_init srv_url (from_hdr uris app) (ruri uris app) (contact_cnt app) cnt
                  app.expires)
            ∷ must (set_credentials (set_cred app))
            ∷ routes_plan regc_set_route_set routes
          ++ (must (registration app) ∷ must regc_send ∷ []))

  abbrev pub publish_plan : List Step
  publish_plan =
      transport_plan app
      ++ (must publishc_create
            ∷ must
                (publishc_init (publish_event app) (ruri uris app) (from_hdr uris app) app.expires)
            ∷ routes_plan publishc_set_route_set routes
          ++ (must (set_credentials (set_cred app))
                ∷ must publishc_publish
                ∷ document_plan app.ctype_e (publish_status app cnt) cnt
              ++ (must tsx_layer_init
                  ∷ must (register_module mod_publish)
                  ∷ must publishc_send
                  ∷ [])))

module _ (lib : Library) (uris : Uris) (app : Config) {cnt : PjStr} {dest : Bytes}
    {routes : Option (List Bytes)} (given : app.dest ≡ some dest)
    (contact : create_contact_hdr lib.max_url app lib.local_addr lib.local_port ≡ ok cnt)
    (proxies : set_proxies_list lib.parse_hdr app ≡ ok routes) where
  pub cmd_register-Does :
      {srv_url : Built}
      → create_reg_ruri uris app ≡ ok srv_url
      → Does lib (register_plan uris app cnt routes srv_url) (cmd_register lib uris app)
  unfolding cmd_register
  cmd_register-Does reg_ruri = asserted-Does lib _ _ (transport_init-Does lib app) (
      call-Does_then lib _ _ (
        call-Does_then lib _ _ (
          call-Does_then lib _ _ (
            lift-Does lib _ _ reg_ruri (
              ruri_from-Does lib uris app given _ _ (
                lift-Does lib _ _ contact (
                  call-Does_then lib _ _ (
                    call-Does_then lib _ _ (
                      lift-Does lib _ _ proxies (
                        put_routes-Does lib regc_set_route_set routes _ _
                          (call-Does_then lib _ _ (call-Does lib _))))))))))))

  pub cmd_publish-Does :
      {n : ℕ}
      → app.expires ≡ suc n
      → Does lib (publish_plan uris app cnt routes) (cmd_publish lib uris app)
  unfolding cmd_publish
  cmd_publish-Does {n} expires =
      let checked : check_expires app.expires ≡ ok tt = rw expires refl in
      lift-Does lib _ _ checked (
        asserted-Does lib _ _ (transport_init-Does lib app) (
          ruri_from-Does lib uris app given _ _ (
            lift-Does lib _ _ contact (
              call-Does_then lib _ _ (
                call-Does_then lib _ _ (
                  lift-Does lib _ _ proxies (
                    put_routes-Does lib publishc_set_route_set routes _ _ (
                      call-Does_then lib _ _ (
                        call-Does_then lib _ _ (
                          put_document-Does lib app.ctype_e (publish_status app cnt) cnt _ _ (
                            call-Does_then lib _ _
                              (call-Does_then lib _ _ (call-Does lib _)))))))))))))

-- With a destination that does not parse, `sippak_cmd_register` follows a null pointer once pjsip has
-- accepted the transport, the modules and the client session.
pub cmd_register_null :
    (lib : Library) (uris : Uris) (app : Config) (h : List Call)
    → ((calls : List Call) → lib.status calls ≡ success)
    → uris.parse (text app.dest) ≡ none
    → (cmd_register lib uris app h).0 ≡ faulted
unfolding cmd_register
cmd_register_null lib uris app h fine e = simp (fine, create_reg_ruri_null uris app e)
