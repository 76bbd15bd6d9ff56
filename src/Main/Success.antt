-- ===== src/Main/Success.antt =====
-- Runs of src/main.c that succeed.
use sippak.Prelude.{ℕ, ◌≡◌, refl, ap, ◌∙◌, true, false, List, [], ◌∷◌, map, Option, some, ◌==◌}
use sippak.CString.{Bytes}
use sippak.Strings.{StringLaws}
use sippak.Config.{success, ok, Command, Config, init, g711}
use sippak.Media.{support_codec}
use sippak.Dns.{Server}
use sippak.Getopts.Options.{getopts}
use sippak.Getopts.Safety.{IsSized}
use sippak.Calls.{Call, Module, Library, value, function}
use sippak.Calls.Attempt.{Step, must, may, call_of, onto, attempt}
use sippak.Calls.Ends.{ends_with}
use sippak.Main.{World, main}
use sippak.Main.Prepared.{Prepared}
use sippak.Main.Loop.{ends_by}
use sippak.Main.Accepted.{Feasible, getopts-Prepared, get_ns_list-returns}
use sippak.Main.Plan.{command_end, main_plan, main-Ends}
use sippak.Modules.Runs.{module_for}

-- Where pjsip accepts every call, all of the calls are made.
attempt-success :
    (lib : Library) (steps : List Step) (h : List Call)
    → ((calls : List Call) → lib.status calls ≡ success)
    → attempt lib steps h ≡ (success, onto (map call_of steps) h)
unfolding attempt
attempt-success lib [] h fine = refl
attempt-success lib (may c ∷ steps) h fine = attempt-success lib steps (c ∷ h) fine
attempt-success lib (must c ∷ steps) h fine =
    rw (fine (c ∷ h)) (attempt-success lib steps (c ∷ h) fine)

-- The end of a command whose loop ends.
command_end-success :
    (world : World) (app : Config) (cmd : Command) {m : Module}
    → module_for cmd ≡ some m
    → (cmd ≡ Command.publish → (app.expires == 0) ≡ false)
    → ends_by world cmd app ≡ true
    → command_end world app cmd ≡ value success
command_end-success world app Command.publish e pos ends = rw (pos refl, ends) refl
command_end-success world app Command.help e pos ends = refl
command_end-success world app Command.version e pos ends = refl
command_end-success world app Command.unknown e pos ends = cc
command_end-success world app _ e pos ends = rw ends refl

module _ (world : World) (laws : StringLaws world.strings) (argv : List Bytes) (app : Config)
    {app' : Config} (z : IsSized app) (g : support_codec world.build g711 ≡ true)
    (parsed : getopts world.strings world.uris world.build world.getopt_long argv (init app)
      ≡ ok (success, app'))
    (feasible : Feasible world app' app'.cmd) {m : Module}
    (pos : app'.cmd ≡ Command.publish → (app'.expires == 0) ≡ false)
    (e : module_for app'.cmd ≡ some m) where
  -- If the command line is accepted and asks for a request, with values that `Feasible` allows and for
  -- PUBLISH an Expires that is not 0, pjsip accepts every call and reports what ends the loop of the command,
  -- then the program ends, with success, and has made all calls of `main_plan` for some name servers.
  pub main-succeeds :
      ((calls : List Call) → world.lib.status calls ≡ success)
      → ends_by world app'.cmd app' ≡ true
      → (p : Prepared world app' app'.cmd) × (serv_num : ℕ) × (servers : List (Option Server))
        × (function (main world argv app) []
            ≡ (value success, onto (map call_of (main_plan world app' p serv_num servers)) []))
  main-succeeds fine ends =
      let p = getopts-Prepared world laws argv app app'.cmd z g parsed feasible in
      let (serv_num, servers, found) = get_ns_list-returns world laws app'.nameservers in
      let steps = main_plan world app' p serv_num servers in
      (
        p,
        serv_num,
        servers,
        (main-Ends world app' p argv app parsed found).runs []
            ∙ ap (ends_with (command_end world app' app'.cmd))
                (attempt-success world.lib steps [] fine)
            ∙ ap (λ r. (r, onto (map call_of steps) []))
                (command_end-success world app' app'.cmd e pos ends),
      )
