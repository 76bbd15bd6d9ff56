-- ===== src/Main/Prepared.antt =====
-- What a request of each command takes: that its parts can be built.
use sippak.Prelude.{◌≡◌, List, [], Option, some}
use sippak.CString.{Bytes}
use sippak.Config.{ok, PjStr, Command, Config}
use sippak.Bodies.{Body, add_event_hdr, add_body_msg}
use sippak.SipHelper.Requests.{Built, create_reg_ruri, create_contact_hdr, set_proxies_list}
use sippak.Media.Endpoint.{register_codecs}
use sippak.Calls.Registrations.{modules_in}
use sippak.Calls.Attempt.{Step, Does}
use sippak.Main.{World}

module _ (world : World) (app : Config) where
  -- A destination is given.
  pub record HasDest : Type 0 where
    pub dest : Bytes
    pub given : app.dest ≡ some dest

  -- A destination is given, and the Contact header fits its buffer.
  pub record HasContact : Type 0 where
    pub dest : Bytes
    pub given : app.dest ≡ some dest
    pub cnt : PjStr
    pub contact :
        create_contact_hdr world.lib.max_url app world.lib.local_addr world.lib.local_port ≡ ok cnt

  -- The proxies stand in their array.
  pub record HasRoutes : Type 0 where
    pub routes : Option (List Bytes)
    pub proxies : set_proxies_list world.lib.parse_hdr app ≡ ok routes

  -- The request URI of REGISTER can be made.
  pub record HasServer : Type 0 where
    pub srv_url : Built
    pub reg_ruri : create_reg_ruri world.uris app ≡ ok srv_url

  -- The message summary fits its buffer.
  pub record HasBody : Type 0 where
    pub body : Body
    pub made :
        add_body_msg world.lib.media_type_print world.lib.pres_created (add_event_hdr app).0
        ≡ ok body

  -- The codecs lead to these calls, none of which registers a module.
  pub record HasCodecs : Type 0 where
    pub codecs : List Step
    pub media : Does world.lib codecs (register_codecs world.lib world.build app.media)
    pub quiet : modules_in codecs ≡ []

  abbrev pub Prepared : Command → Type 0
  Prepared Command.ping = HasContact
  Prepared Command.refer = HasContact
  Prepared Command.subscribe = HasContact
  Prepared Command.notify = HasContact × HasBody
  Prepared Command.publish = HasContact × HasRoutes
  Prepared Command.register = HasContact × HasRoutes × HasServer
  Prepared Command.invite = HasContact × HasRoutes × HasCodecs
  Prepared Command.message = HasDest
  Prepared _ = Unit
