-- ===== src/Main/Safety.antt =====
-- The pointers and the arrays in a run of src/main.c.
use sippak.Prelude.{◌≤◌, ◌≡◌, ◌≢◌, true, List, All}
use sippak.CString.{Bytes}
use sippak.Strings.{StringLaws}
use sippak.Config.{Status, success, Outcome, ok, Config, init, g711}
use sippak.Media.{support_codec}
use sippak.Getopts.Table.{optstring, long_opts}
use sippak.Getopts.Options.{getopts}
use sippak.Getopts.Safety.{ArgGiven, IsSized, headers, proxies}
use sippak.Calls.{Run, Result, faulted, lift, ◌>>=◌}
use sippak.Calls.Attempt.{Step}
use sippak.Calls.Ends.{Ends}
use sippak.Main.{World, behind_getopts}
use sippak.Main.Accepted.{Feasible}

-- A run that does some list of steps and has an end.
abbrev Defined : World → Run Status → Type 0
Defined world m =
    (steps : List Step) × (end : Result Status) × Ends world.lib steps end m × (end ≢ faulted)

module _ (world : World) (laws : StringLaws world.strings) (argv : List Bytes) (app : Config)
    (z : IsSized app) (g : support_codec world.build g711 ≡ true)
    (given : All ArgGiven (world.getopt_long optstring long_opts argv).0)
    (few_headers : headers (world.getopt_long optstring long_opts argv).0 ≤ 12)
    (few_proxies : proxies (world.getopt_long optstring long_opts argv).0 ≤ 12)
    (feasible : (app' : Config)
      → getopts world.strings world.uris world.build world.getopt_long argv (init app)
        ≡ ok (success, app')
      → Feasible world app' app'.cmd) where
  abbrev behind : Outcome (Status × Config) → Run Status
  behind o = lift o >>= behind_getopts world
