-- ===== src/Main.antt =====
-- `main` of src/main.c, with `sippak_set_resolver_ns` of app/dns.c: from the start of pjsip to the
-- end of the loop.
pub mod Prepared
pub mod Loop
pub mod Plan
pub mod Codecs
pub mod Safety
pub mod Success
pub mod Accepted
pub mod Null
use sippak.Prelude.{Bool, true, false, ℕ, List, [], ◌∷◌, Option, none, some, replicate}
use sippak.CString.{Bytes}
use sippak.Strings.{Strings}
use sippak.Uris.{Uris}
use sippak.Config.{
  Status, success, einval, Outcome, ok, exit, fault, Command, init, Config, max_ns_count,
}
use sippak.Media.{Build}
use sippak.Dns.{NsAddr, Server, Filled, get_ns_list}
use sippak.Getopts.Options.{GetoptLong, getopts, settle}
use sippak.Calls.{
  Call, pj_init, endpt_create, create_pool, pool_destroy, print_usage, print_version, main_loop,
  create_resolver, set_resolver, set_ns, register_module, msg_logger, sip_mangler, Library, Result,
  value, running, Run, pure, ◌>>=◌, ◌>>◌, call, tell, lift, asserted,
}
use sippak.Session.Watch.{Watch, begin}
use sippak.Session.Chat.{Chat, Event, started, exchange}
use sippak.Session.Publish.{PublishEvent, publish_exchange}
use sippak.Session.Subscribe.{SubscribeEvent, subscribe_exchange}
use sippak.Session.Invite.{InviteEvent, dialed, invite_exchange}
use sippak.Session.Register.{RegResult, Registering, registering, register_exchange}
use sippak.Commands.{cmd_ping, cmd_message, cmd_refer, cmd_notify}
use sippak.Commands.Clients.{cmd_register, cmd_publish}
use sippak.Commands.Dialogs.{cmd_subscribe, cmd_invite}

-- The arrays `nameservers` and `ports`.
abbrev pub no_servers : List (Option Server)
no_servers = none ∷ none ∷ none ∷ []

-- What pjsip reports in each call of `pjsip_endpt_handle_events` while the loop runs, to the callbacks
-- of each command.
pub record Reports : Type 0 where
  pub chat : List (List Event)
  pub publish : List (List PublishEvent)
  pub subscribe : List (List SubscribeEvent)
  pub invite : List (List InviteEvent)
  pub register : List (List RegResult)

-- What the program takes from elsewhere: pjsip and what it reports, its string functions and URIs,
-- its build, `pj_getopt_long`, and the system's name servers.
pub record World : Type 1 where
  pub lib : Library
  pub reports : Reports
  pub strings : Strings
  pub uris : Uris
  pub build : Build
  pub getopt_long : GetoptLong
  pub system : Option (List NsAddr)

module _ (world : World) where
  -- `sippak_set_resolver_ns`
  unfoldable pub set_resolver_ns : Config → Run Status
  unfolding get_ns_list
  set_resolver_ns app = do
    (serv_num, servers) ←
        lift (settle (get_ns_list world.strings world.system app.nameservers no_servers))
    asserted (call world.lib create_resolver)
    asserted (call world.lib (set_ns serv_num servers))
    call world.lib set_resolver

  -- The end of `main`, at the label `done`.
  abbrev pub done : Status → Run Status
  done status = do tell pool_destroy; pure status

  -- Whether the callbacks of the command end the loop.
  unfoldable pub loop_ends : Command → Config → Bool
  unfolding exchange publish_exchange subscribe_exchange invite_exchange register_exchange
  loop_ends Command.publish app = (publish_exchange world.reports.publish begin).loop_stop
  loop_ends Command.subscribe app = (subscribe_exchange world.reports.subscribe begin).loop_stop
  loop_ends Command.register app =
      (register_exchange app world.reports.register registering).loop_stop
  loop_ends Command.invite app = (invite_exchange app.cancel world.reports.invite dialed).loop_stop
  loop_ends _ app = (exchange app world.reports.chat started).loop_stop

  -- `sippak_main_loop`, behind the command.
  abbrev pub wait : Bool → Run Unit
  wait true h = (value tt, h)
  wait false h = (running, h)

  abbrev pub looped : Command → Config → Run Status → Run Status
  looped cmd app command = do
    asserted command
    tell main_loop
    wait (loop_ends cmd app)
    done success

  -- The `switch`.
  unfoldable pub dispatch : Command → Config → Run Status
  unfolding loop_ends cmd_ping cmd_message cmd_refer cmd_notify cmd_register cmd_publish
      cmd_subscribe cmd_invite
  dispatch Command.version app = do tell print_version; done success
  dispatch Command.help app = do tell print_usage; done success
  dispatch Command.ping app = looped Command.ping app (cmd_ping world.lib world.uris app)
  dispatch Command.publish app = looped Command.publish app (cmd_publish world.lib world.uris app)
  dispatch Command.subscribe app =
      looped Command.subscribe app (cmd_subscribe world.lib world.uris app)
  dispatch Command.notify app = looped Command.notify app (cmd_notify world.lib world.uris app)
  dispatch Command.register app =
      looped Command.register app (cmd_register world.lib world.uris app)
  dispatch Command.refer app = looped Command.refer app (cmd_refer world.lib world.uris app)
  dispatch Command.message app = looped Command.message app (cmd_message world.lib world.uris app)
  dispatch Command.invite app =
      looped Command.invite app (cmd_invite world.lib world.uris world.build app)
  dispatch Command.unknown app = done einval

  -- `main`, behind `sippak_getopts`.
  abbrev pub behind_getopts : Status × Config → Run Status
  behind_getopts (status, app') = do
    asserted (pure status)
    asserted (call world.lib (register_module msg_logger))
    asserted (set_resolver_ns app')
    asserted (call world.lib (register_module sip_mangler))
    dispatch app'.cmd app'

  unfoldable pub main : List Bytes → Config → Run Status
  unfolding init getopts set_resolver_ns dispatch
  main argv app = do
    asserted (call world.lib pj_init)
    asserted (call world.lib endpt_create)
    tell create_pool
    r ← lift (getopts world.strings world.uris world.build world.getopt_long argv (init app))
    behind_getopts r
