-- ===== src/Main/Plan.antt =====
-- The calls of a whole run of src/main.c.
use sippak.Prelude.{
  Bool-cases, arith, ◌-◌, if◌then◌else◌, suc, refl, inl, inr, ◌==◌, ℕ, ◌≡◌, sym, List, [], ◌∷◌,
  ◌++◌, map, true, Option,
}
use sippak.CString.{Bytes}
use sippak.Config.{Status, success, einval, cli_einvarg, ok, Command, init, Config}
use sippak.Dns.{Server, get_ns_list}
use sippak.Session.Subscribe.{set_sub_evtype}
use sippak.Getopts.Options.{getopts, settle}
use sippak.Calls.{
  exited, pj_init, endpt_create, create_pool, pool_destroy, print_usage, print_version,
  create_resolver, set_resolver, set_ns, register_module, msg_logger, sip_mangler, Run, Result,
  value, function,
}
use sippak.Calls.Attempt.{
  Step, must, may, call_of, onto, Does, call-Does, call-Does_then, lift-Does, pure-Does,
}
use sippak.Calls.Ends.{
  Ends, reached, Ends-onto, call-Ends_then, asserted-Ends, at_once-Ends, tell-Ends, lift-Ends,
  pure-Ends,
}
use sippak.Commands.Plans.{
  ping_plan, message_plan, refer_plan, notify_plan, cmd_ping-Does, cmd_message-Does, cmd_refer-Does,
  cmd_notify-Does,
}
use sippak.Commands.Clients.{cmd_publish}
use sippak.Commands.Clients.Plan.{register_plan, publish_plan, cmd_register-Does, cmd_publish-Does}
use sippak.Commands.Dialogs.Plan.{subscribe_plan, invite_plan, cmd_subscribe-Does, cmd_invite-Does}
use sippak.Main.{World, no_servers, set_resolver_ns, looped, loop_ends, dispatch, main}
use sippak.Main.Prepared.{Prepared}
use sippak.Main.Loop.{ends_by, loop_ends-ends_by, loop_plan, loop_end, loop-Ends}

module _ (world : World) (app : Config) where
  abbrev then_loop : Command → List Step → List Step
  then_loop cmd steps = steps ++ loop_plan world (ends_by world cmd app)

  -- The calls behind the setup.
  abbrev pub command_plan : (cmd : Command) → Prepared world app cmd → List Step
  command_plan Command.version p = may print_version ∷ may pool_destroy ∷ []
  command_plan Command.help p = may print_usage ∷ may pool_destroy ∷ []
  command_plan Command.unknown p = may pool_destroy ∷ []
  command_plan Command.ping p = then_loop Command.ping (ping_plan world.uris app p.cnt)
  command_plan Command.publish p =
      if app.expires == 0
      then []
      else then_loop Command.publish (publish_plan world.uris app p.0.cnt p.1.routes)
  command_plan Command.subscribe p =
      then_loop Command.subscribe (subscribe_plan world.uris app p.cnt (set_sub_evtype app.pres_ev))
  command_plan Command.notify p =
      then_loop Command.notify (notify_plan world.uris app p.0.cnt p.1.body)
  command_plan Command.register p =
      then_loop Command.register (register_plan world.uris app p.0.cnt p.1.routes p.2.srv_url)
  command_plan Command.refer p = then_loop Command.refer (refer_plan world.uris app p.cnt)
  command_plan Command.message p = then_loop Command.message (message_plan world.uris app)
  command_plan Command.invite p =
      then_loop Command.invite (invite_plan world.uris app p.0.cnt p.1.routes p.2.codecs)

  -- How the run ends behind all of these calls.
  abbrev pub command_end : Command → Result Status
  command_end Command.version = value success
  command_end Command.help = value success
  command_end Command.unknown = value einval
  command_end Command.publish =
      if app.expires == 0
      then exited cli_einvarg
      else loop_end world (ends_by world Command.publish app)
  command_end cmd = loop_end world (ends_by world cmd app)

  looped-Ends :
      (cmd : Command) (steps : List Step) (command : Run Status)
      → Does world.lib steps command
      → Ends world.lib
          (steps ++ loop_plan world (ends_by world cmd app))
          (loop_end world (ends_by world cmd app))
          (looped world cmd app command)
  looped-Ends cmd steps command d =
      rw (sym (loop_ends-ends_by world cmd app))
        (asserted-Ends world.lib steps _ d (loop-Ends world (loop_ends world cmd app)))

  -- With Expires 0 the program exits.
  publish_expired-Ends :
      app.expires ≡ 0 → Ends world.lib [] (exited cli_einvarg) (dispatch world Command.publish app)
  unfolding dispatch cmd_publish
  publish_expired-Ends e = at_once-Ends world.lib _ _ (λ h. rw e refl)

  dispatch_publish-Ends :
      (p : Prepared world app Command.publish)
      → Ends world.lib
          (command_plan Command.publish p)
          (command_end Command.publish)
          (dispatch world Command.publish app)
  unfolding dispatch
  dispatch_publish-Ends p = elim (Bool-cases (app.expires == 0)) [
    | inl e ↦ rw e (publish_expired-Ends (ground arith))
    | inr e ↦
        let positive : app.expires ≡ suc (app.expires - 1) = ground arith in
        rw e (
          looped-Ends Command.publish _ _
            (cmd_publish-Does world.lib world.uris app p.0.given p.0.contact p.1.proxies positive))
  ]

  dispatch-Ends :
      (cmd : Command) (p : Prepared world app cmd)
      → Ends world.lib (command_plan cmd p) (command_end cmd) (dispatch world cmd app)
  unfolding dispatch
  dispatch-Ends Command.unknown p = tell-Ends world.lib _ _ (pure-Ends world.lib einval)
  dispatch-Ends Command.version p =
      tell-Ends world.lib _ _ (tell-Ends world.lib _ _ (pure-Ends world.lib success))
  dispatch-Ends Command.help p =
      tell-Ends world.lib _ _ (tell-Ends world.lib _ _ (pure-Ends world.lib success))
  dispatch-Ends Command.ping p =
      looped-Ends Command.ping _ _ (cmd_ping-Does world.lib world.uris app p.given p.contact)
  dispatch-Ends Command.publish p = dispatch_publish-Ends p
  dispatch-Ends Command.subscribe p =
      looped-Ends Command.subscribe _ _
        (cmd_subscribe-Does world.lib world.uris app p.given p.contact)
  dispatch-Ends Command.notify p =
      looped-Ends Command.notify _ _
        (cmd_notify-Does world.lib world.uris app p.0.given p.0.contact p.1.made)
  dispatch-Ends Command.register p =
      looped-Ends Command.register _ _
        (cmd_register-Does world.lib world.uris app p.0.given p.0.contact p.1.proxies p.2.reg_ruri)
  dispatch-Ends Command.refer p =
      looped-Ends Command.refer _ _ (cmd_refer-Does world.lib world.uris app p.given p.contact)
  dispatch-Ends Command.message p =
      looped-Ends Command.message _ _ (cmd_message-Does world.lib world.uris app p.given)
  dispatch-Ends Command.invite p = looped-Ends Command.invite _ _ (
      cmd_invite-Does world.lib world.uris app p.0.given p.0.contact world.build p.1.proxies
        p.2.media)

  -- The calls of the program, from the start.
  abbrev pub main_plan : Prepared world app app.cmd → ℕ → List (Option Server) → List Step
  main_plan p serv_num servers =
      must pj_init
      ∷ must endpt_create
      ∷ may create_pool
      ∷ must (register_module msg_logger)
      ∷ must create_resolver
      ∷ must (set_ns serv_num servers)
      ∷ must set_resolver
      ∷ must (register_module sip_mangler)
      ∷ command_plan app.cmd p

  set_resolver_ns-Does :
      {serv_num : ℕ} {servers : List (Option Server)}
      → settle (get_ns_list world.strings world.system app.nameservers no_servers)
        ≡ ok (serv_num, servers)
      → Does world.lib
          (must create_resolver ∷ must (set_ns serv_num servers) ∷ must set_resolver ∷ [])
          (set_resolver_ns world app)
  unfolding set_resolver_ns
  set_resolver_ns-Does found =
      lift-Does world.lib _ _ found
        (call-Does_then world.lib _ _ (call-Does_then world.lib _ _ (call-Does world.lib _)))

module _ (world : World) (app : Config) (p : Prepared world app app.cmd) (argv : List Bytes)
    (app_init : Config) {serv_num : ℕ} {servers : List (Option Server)}
    (parsed : getopts world.strings world.uris world.build world.getopt_long argv (init app_init)
      ≡ ok (success, app))
    (found : settle (get_ns_list world.strings world.system app.nameservers no_servers)
      ≡ ok (serv_num, servers)) where
  -- If the command line is accepted and the request of its command can be built, a run makes the calls
  -- of `main_plan` in order: the setup, the name servers, the calls of the command and its loop. It
  -- stops at the first call that has to succeed and does not, and returns that call's status. Behind
  -- the last call it returns success for help and version, an error for a command that is unknown, it
  -- exits for PUBLISH with Expires 0, and else returns success if pjsip reports what ends the loop of
  -- the command; otherwise it waits in the loop.
  pub main-Ends :
      Ends world.lib
        (main_plan world app p serv_num servers)
        (command_end world app app.cmd)
        (main world argv app_init)
  unfolding main
  main-Ends = call-Ends_then world.lib _ _ (
      call-Ends_then world.lib _ _ (
        tell-Ends world.lib _ _ (
          lift-Ends world.lib _ _ parsed (
            asserted-Ends world.lib [] _ (pure-Does world.lib) (
              call-Ends_then world.lib _ _ (
                asserted-Ends world.lib _ _ (set_resolver_ns-Does world app found)
                  (call-Ends_then world.lib _ _ (dispatch-Ends world app app.cmd p))))))))

  -- If the command line is accepted and the request of its command can be built, a run that ends with
  -- success, or that waits in its loop, has made every call of `main_plan`, in order and no other: what
  -- it was to send is sent.
  pub main-sends :
      reached (function (main world argv app_init) []).0 ≡ true
      → (function (main world argv app_init) []).1
        ≡ onto (map call_of (main_plan world app p serv_num servers)) []
  main-sends e = Ends-onto world.lib _ [] main-Ends e
