-- ===== src/Getopts/Rounds.antt =====
-- What every round of the loop over the options in app/getopts.c, and what follows the loop, keeps.
use sippak.Prelude.{◌≡◌, List, [], ◌∷◌}
use sippak.CString.{Bytes}
use sippak.Strings.{Strings}
use sippak.Strings.Loop.{next, stop}
use sippak.Uris.{Uris}
use sippak.Media.{Build}
use sippak.Config.{Command, Status, success, Outcome, ok, exit, fault, ◌>>=◌, PjStr, Config}
use sippak.Getopts.Table.{OptCode, optstring, long_opts}
use sippak.Getopts.Options.{
  Round, GetoptLong, next_round, apply_opt, parse_argv_left, post_parse_setup, opts_loop,
  finish_opts, getopts,
}

-- A round keeps this, or leaves the program.
abbrev pub Keeps : (Config → Type 0) → Round → Type 0
Keeps I fault = Unit
Keeps I (exit s) = Unit
Keeps I (ok (stop (s, app))) = I app
Keeps I (ok (next app)) = I app

Keeps-next_round :
    (I : Config → Type 0) (rest : Config → Round) (r : Round)
    → Keeps I r
    → ((app : Config) → I app → Keeps I (rest app))
    → Keeps I (next_round rest r)
Keeps-next_round I rest fault k f = tt
Keeps-next_round I rest (exit s) k f = tt
Keeps-next_round I rest (ok (stop r)) k f = k
Keeps-next_round I rest (ok (next app)) k f = f app k

module _ (lib : Strings) (uris : Uris) (build : Build) where
  pub record IsInvariant (I : Config → Type 0) : Type 0 where
    pub round :
        (c : OptCode) (arg : PjStr) (app : Config)
        → I app
        → Keeps I (apply_opt lib uris build c arg app)
    pub left :
        (args : List Bytes) (app : Config) → I app → I (parse_argv_left lib uris build args app)
    pub parsed :
        (app app' : Config) → post_parse_setup lib uris build app ≡ ok app' → I app → I app'
    pub help : (app : Config) → I app → I (record app { cmd = Command.help })

  module _ {I : Config → Type 0} (i : IsInvariant I) where
    opts_loop-Keeps :
        (opts : List (OptCode × PjStr)) (app : Config)
        → I app
        → Keeps I (opts_loop lib uris build opts app)
    unfolding opts_loop
    opts_loop-Keeps [] app c = c
    opts_loop-Keeps ((o, arg) ∷ opts) app c =
        Keeps-next_round I _ (apply_opt lib uris build o arg app) (i.round o arg app c)
          (opts_loop-Keeps opts)

    abbrev with_success : Config → Outcome (Status × Config)
    with_success app = ok (success, app)

    settled :
        (o : Outcome Config) {s : Status} {app : Config}
        → (o >>= with_success) ≡ ok (s, app)
        → o ≡ ok app
    settled (ok a) e = cc
    settled (exit s) e = cc
    settled fault e = cc

    finish_opts-Keeps :
        (args : List Bytes) (r : Round) {s : Status} {app : Config}
        → Keeps I r
        → (r >>= finish_opts lib uris build args) ≡ ok (s, app)
        → I app
    unfolding finish_opts
    finish_opts-Keeps args fault k e = cc
    finish_opts-Keeps args (exit s) k e = cc
    finish_opts-Keeps args (ok (stop (s, app))) {app = app'} k e =
        let same : app ≡ app' = cc in rw same at k
    finish_opts-Keeps args (ok (next app)) {app = app'} k e =
        i.parsed (parse_argv_left lib uris build args app) app' (settled _ e) (i.left args app k)

    -- Every return, whatever the command line.
    pub getopts-IsInvariant :
        (getopt_long : GetoptLong) (argv : List Bytes) (app : Config) {s : Status} {app' : Config}
        → I app
        → getopts lib uris build getopt_long argv app ≡ ok (s, app')
        → I app'
    unfolding getopts
    getopts-IsInvariant getopt_long (program ∷ []) app {app' = app'} k e =
        let helped : Config = record app { cmd = Command.help } in
        let same : helped ≡ app' = cc in rw same at (i.help app k)
    getopts-IsInvariant getopt_long argv app k e =
        let (opts, args) = getopt_long optstring long_opts argv in
        finish_opts-Keeps args (opts_loop lib uris build opts app) (opts_loop-Keeps opts app k) e
