-- ===== src/Main/Loop.antt =====
-- When the loop of src/main.c ends, by what pjsip reports to the callbacks of the command.
use sippak.Prelude.{◌≡◌, refl, ap, Bool, true, false, ◌||◌, List, [], ◌∷◌, leb, if◌then◌else◌}
use sippak.Config.{Status, success, Command, Config}
use sippak.Calls.{main_loop, pool_destroy, Result, value, running, ◌>>◌, tell}
use sippak.Calls.Attempt.{Step, may}
use sippak.Calls.Ends.{Ends, tell-Ends, pure-Ends, at_once-Ends}
use sippak.Session.{concat}
use sippak.Session.Chat.Retry.{challenges, answered, exchange-stop}
use sippak.Session.Publish.{publish_ends, publish_exchange-stop}
use sippak.Session.Subscribe.{challenged, decided, subscribe_exchange-stop}
use sippak.Session.Invite.{Call, transcript, invite_exchange-transcript}
use sippak.Session.Register.{any_result, register_exchange-stop}
use sippak.Main.{World, loop_ends, wait, done}

module _ (world : World) where
  -- The loop of ping, message, refer and notify ends by a response that is no challenge or by a second
  -- challenged transaction, that of the others by what Session says of them.
  abbrev pub ends_by : Command → Config → Bool
  ends_by Command.publish app = publish_ends 0 (concat world.reports.publish)
  ends_by Command.subscribe app =
      leb 2 (challenged (concat world.reports.subscribe))
      || decided (concat world.reports.subscribe)
  ends_by Command.register app = any_result (concat world.reports.register)
  ends_by Command.invite app = (transcript app.cancel world.reports.invite []).loop_stop
  ends_by _ app =
      leb 2 (challenges (concat world.reports.chat)) || answered (concat world.reports.chat)

  pub loop_ends-ends_by : (cmd : Command) (app : Config) → loop_ends world cmd app ≡ ends_by cmd app
  unfolding loop_ends
  loop_ends-ends_by Command.publish app = publish_exchange-stop world.reports.publish
  loop_ends-ends_by Command.subscribe app = subscribe_exchange-stop world.reports.subscribe
  loop_ends-ends_by Command.register app = register_exchange-stop app world.reports.register
  loop_ends-ends_by Command.invite app =
      ap Call.loop_stop (invite_exchange-transcript app.cancel world.reports.invite)
  loop_ends-ends_by Command.unknown app = exchange-stop app world.reports.chat
  loop_ends-ends_by _ app = exchange-stop app world.reports.chat

  -- The calls of the loop, and how the run ends in it.
  abbrev pub loop_plan : Bool → List Step
  loop_plan b = may main_loop ∷ (if b then may pool_destroy ∷ [] else [])

  abbrev pub loop_end : Bool → Result Status
  loop_end b = if b then value success else running

  pub loop-Ends :
      (b : Bool)
      → Ends world.lib
          (loop_plan b)
          (loop_end b)
          (tell main_loop >> (wait world b >> done world success))
  loop-Ends true = tell-Ends world.lib _ _ (tell-Ends world.lib _ _ (pure-Ends world.lib success))
  loop-Ends false =
      tell-Ends world.lib _ _
        (at_once-Ends world.lib running (wait world false >> done world success) (λ h. refl))
