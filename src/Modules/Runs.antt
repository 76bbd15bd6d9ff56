-- ===== src/Modules/Runs.antt =====
-- The modules that a run of src/main.c registers.
use sippak.Prelude.{
  ℕ, ◌≡◌, ◌≢◌, refl, ap, ◌∙◌, Bool, true, false, List, [], ◌∷◌, ◌++◌, Option, none, some, ◌==◌,
  arith,
}
use sippak.CString.{Bytes}
use sippak.Config.{success, ok, init, PjStr, Proto, udp, tcp, CType, EvType, Command, Config}
use sippak.Bodies.{Body, PresStatus, no_body, text_body, pidf_body, xpidf_body, content_type}
use sippak.Dns.{Server, get_ns_list}
use sippak.Getopts.Options.{getopts, settle}
use sippak.Calls.{function}
use sippak.Calls.Ends.{reached}
use sippak.Modules.{
  Priorities, PriorityLaws, Insert, InsertLaw, pjsip_module, registered, incoming, outgoing,
  with_callback, on_tx_request, logging_on_tx_msg, logging_on_rx_msg,
}
use sippak.Modules.Order.{modules-order}
use sippak.Calls.{
  Call, Module, mod_ping, mod_message, mod_refer, mod_notify, mod_publish, mod_subscribe,
  mod_register, mod_invite, msg_logger, sip_mangler, regc_set_route_set, publishc_set_route_set,
  dlg_set_route_set,
}
use sippak.Calls.Attempt.{Step}
use sippak.Calls.Registrations.{
  module_of, modules_in, in_front, registrations, registrations-onto, modules_in-quiet,
  modules_in-quiet_end, with_module,
}
use sippak.Commands.{start_call}
use sippak.Commands.Clients.{registration}
use sippak.Commands.Plans.{ping_plan, message_plan, refer_plan, notify_plan, body_plan}
use sippak.Commands.Clients.Plan.{register_plan, publish_plan, routes_plan, document_plan}
use sippak.Commands.Dialogs.Plan.{subscribe_plan, invite_plan, package_plan}
use sippak.Session.Subscribe.{set_sub_evtype}
use sippak.Media.Endpoint.Chosen.{sdp_plan}
use sippak.Main.{World, no_servers, main}
use sippak.Main.Prepared.{Prepared}
use sippak.Main.Loop.{ends_by, loop_plan}
use sippak.Main.Plan.{command_plan, main_plan, main-sends}

start_call-quiet : (p : Proto) → module_of (start_call p) ≡ none
start_call-quiet udp = refl
start_call-quiet tcp = refl

registration-quiet : (app : Config) → module_of (registration app) ≡ none
registration-quiet app = ground arith

routes_plan-quiet :
    (set_route_set : List Bytes → Call) (routes : Option (List Bytes)) (ys : List Step)
    → ((r : List Bytes) → module_of (set_route_set r) ≡ none)
    → modules_in (routes_plan set_route_set routes ++ ys) ≡ modules_in ys
routes_plan-quiet f none ys q = refl
routes_plan-quiet f (some r) ys q = rw (q r) refl

document_plan-quiet :
    (type : CType) (s : PresStatus) (id : PjStr) (ys : List Step)
    → modules_in (document_plan type s id ++ ys) ≡ modules_in ys
document_plan-quiet CType.xpidf s id ys = refl
document_plan-quiet CType.pidf s id ys = refl
document_plan-quiet CType.unknown s id ys = refl
document_plan-quiet CType.mwi s id ys = refl
document_plan-quiet CType.other s id ys = refl

body_plan-quiet : (b : Body) (ys : List Step) → modules_in (body_plan b ++ ys) ≡ modules_in ys
body_plan-quiet no_body ys = refl
body_plan-quiet (content_type v) ys = refl
body_plan-quiet (text_body t b) ys = refl
body_plan-quiet (pidf_body s e) ys = refl
body_plan-quiet (xpidf_body s e) ys = refl

package_plan-mod_subscribe :
    (app : Config) (e : EvType) → modules_in (package_plan app e) ≡ mod_subscribe ∷ []
package_plan-mod_subscribe app EvType.mwi = refl
package_plan-mod_subscribe app EvType.unknown = refl
package_plan-mod_subscribe app EvType.pres = refl
package_plan-mod_subscribe app EvType.other = refl

loop_plan-quiet : (world : World) (b : Bool) → modules_in (loop_plan world b) ≡ []
loop_plan-quiet world true = refl
loop_plan-quiet world false = refl

-- The module of a command that sends a request.
abbrev pub module_for : Command → Option Module
module_for Command.ping = some mod_ping
module_for Command.publish = some mod_publish
module_for Command.subscribe = some mod_subscribe
module_for Command.notify = some mod_notify
module_for Command.register = some mod_register
module_for Command.refer = some mod_refer
module_for Command.message = some mod_message
module_for Command.invite = some mod_invite
module_for _ = none

module _ (world : World) (app : Config) where
  abbrev looping : Command → List Step
  looping cmd = loop_plan world (ends_by world cmd app)

  without_loop :
      (cmd : Command) (steps : List Step) → modules_in (steps ++ looping cmd) ≡ modules_in steps
  without_loop cmd steps =
      modules_in-quiet_end steps (looping cmd) (loop_plan-quiet world (ends_by world cmd app))

  -- The calls of a command register its module and no other.
  command_plan-module_for :
      (cmd : Command) (p : Prepared world app cmd)
      → (cmd ≡ Command.publish → (app.expires == 0) ≡ false)
      → modules_in (command_plan world app cmd p) ≡ with_module (module_for cmd) []
  command_plan-module_for Command.help p pos = refl
  command_plan-module_for Command.version p pos = refl
  command_plan-module_for Command.unknown p pos = refl
  command_plan-module_for Command.ping p pos =
      without_loop Command.ping (ping_plan world.uris app p.cnt)
      ∙ rw (start_call-quiet app.proto) refl
  command_plan-module_for Command.message p pos =
      without_loop Command.message (message_plan world.uris app)
      ∙ rw (start_call-quiet app.proto) refl
  command_plan-module_for Command.refer p pos =
      without_loop Command.refer (refer_plan world.uris app p.cnt)
      ∙ rw (start_call-quiet app.proto) refl
  command_plan-module_for Command.notify p pos =
      without_loop Command.notify (notify_plan world.uris app p.0.cnt p.1.body)
      ∙ rw (start_call-quiet app.proto) (body_plan-quiet p.1.body _)
  command_plan-module_for Command.subscribe p pos =
      without_loop Command.subscribe
        (subscribe_plan world.uris app p.cnt (set_sub_evtype app.pres_ev))
      ∙ rw (start_call-quiet app.proto)
          (package_plan-mod_subscribe app (set_sub_evtype app.pres_ev))
  command_plan-module_for Command.register p pos =
      without_loop Command.register (register_plan world.uris app p.0.cnt p.1.routes p.2.srv_url)
      ∙ rw (start_call-quiet app.proto) (
          ap (λ ms. mod_register ∷ ms)
            (routes_plan-quiet regc_set_route_set p.1.routes _ (λ r. refl)
              ∙ rw (registration-quiet app) refl))
  command_plan-module_for Command.publish p pos = rw pos (
      without_loop Command.publish (publish_plan world.uris app p.0.cnt p.1.routes)
      ∙ rw (start_call-quiet app.proto) (
          routes_plan-quiet publishc_set_route_set p.1.routes _ (λ r. refl)
          ∙ document_plan-quiet app.ctype_e _ _ _))
  command_plan-module_for Command.invite p pos =
      without_loop Command.invite (invite_plan world.uris app p.0.cnt p.1.routes p.2.codecs)
      ∙ rw (start_call-quiet app.proto) (
          ap (λ ms. mod_invite ∷ ms)
            (modules_in-quiet (sdp_plan app p.2.codecs) _ (modules_in-quiet p.2.codecs _ p.2.quiet)
              ∙ routes_plan-quiet dlg_set_route_set p.1.routes _ (λ r. refl)))

  -- The whole run: the logger, the mangler, the module of the command.
  main_plan-module_for :
      (p : Prepared world app app.cmd) (serv_num : ℕ) (servers : List (Option Server)) {m : Module}
      → (app.cmd ≡ Command.publish → (app.expires == 0) ≡ false)
      → module_for app.cmd ≡ some m
      → modules_in (main_plan world app p serv_num servers) ≡ msg_logger ∷ sip_mangler ∷ m ∷ []
  main_plan-module_for p serv_num servers pos e =
      ap (λ ms. msg_logger ∷ sip_mangler ∷ ms)
        (command_plan-module_for app.cmd p pos ∙ ap (λ x. with_module x []) e)

module_for-ne_logger :
    (cmd : Command) {m : Module} → module_for cmd ≡ some m → (m ≢ msg_logger) × (m ≢ sip_mangler)
module_for-ne_logger cmd e = ground arith

module _ (world : World) (app : Config) (p : Prepared world app app.cmd) (argv : List Bytes)
    (app_init : Config) {serv_num : ℕ} {servers : List (Option Server)}
    (parsed : getopts world.strings world.uris world.build world.getopt_long argv (init app_init)
      ≡ ok (success, app))
    (found : settle (get_ns_list world.strings world.system app.nameservers no_servers)
      ≡ ok (serv_num, servers))
    {m : Module} (pos : app.cmd ≡ Command.publish → (app.expires == 0) ≡ false)
    (e : module_for app.cmd ≡ some m) where
  main-registrations :
      reached (function (main world argv app_init) []).0 ≡ true
      → registrations (function (main world argv app_init) []).1 ≡ m ∷ sip_mangler ∷ msg_logger ∷ []
  main-registrations r =
      ap registrations (main-sends world app p argv app_init parsed found r)
      ∙ registrations-onto (main_plan world app p serv_num servers) []
      ∙ ap (λ ms. in_front ms []) (main_plan-module_for world app p serv_num servers pos e)

  -- If a run of a command that sends a request (PUBLISH with an Expires that is not 0) ends with
  -- success, or waits in its loop, and pjsip keeps
  -- the modules that the run registered in the order of their priorities, then every request that goes
  -- out gets the headers of the command line first and is logged with them, every response that comes
  -- in is logged before the command sees it, and all other messages are logged and no more.
  pub main-order :
      {prio : Priorities} (laws : PriorityLaws prio) {insert : Insert} (law : InsertLaw prio insert)
      → reached (function (main world argv app_init) []).0 ≡ true
      → let modules =
          registered insert (registrations (function (main world argv app_init) []).1) in
        (outgoing (λ x. (pjsip_module prio x).on_tx_request) modules
          ≡ on_tx_request ∷ logging_on_tx_msg ∷ [])
        × (incoming (λ x. (pjsip_module prio x).on_rx_response) modules
            ≡ logging_on_rx_msg ∷ with_callback (pjsip_module prio m).on_rx_response [])
        × (outgoing (λ x. (pjsip_module prio x).on_tx_response) modules ≡ logging_on_tx_msg ∷ [])
        × (incoming (λ x. (pjsip_module prio x).on_rx_request) modules ≡ logging_on_rx_msg ∷ [])
  main-order laws law r =
      let (l, g) = module_for-ne_logger app.cmd e in
      rw (main-registrations r) (modules-order laws law m l g)
