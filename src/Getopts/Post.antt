-- ===== src/Getopts/Post.antt =====
-- What holds of the configuration behind `sippak_getopts` (app/getopts.c).
use sippak.Prelude.{◌≡◌, ◌≢◌, refl, true, List, [], ◌∷◌, ◌++◌, none, some, false}
use sippak.CString.{Bytes, codes}
use sippak.Strings.{Strings}
use sippak.Strings.Loop.{next, stop}
use sippak.Uris.{Uris}
use sippak.Media.{Build}
use sippak.Config.{
  Status, success, ok, exit, fault, PjStr, slen, MediaType, Config, Command, CType, EvType,
}
use sippak.Getopts.Table.{OptCode, optstring, long_opts}
use sippak.Getopts.Options.{Round, GetoptLong, next_round, apply_opt, opts_loop, getopts}

-- `application/simple-message-summary`
abbrev pub summary_type : MediaType
summary_type = record {
  type = some (codes "application");
  subtype = some (codes "simple-message-summary");
}

-- What `post_parse_setup` makes of a configuration.
pub record IsReady (uris : Uris) (app app' : Config) : Type 0 where
  pub refer_to : app'.cmd ≡ Command.refer → app'.refer_to ≢ none
  pub body : app'.cmd ≡ Command.message → app'.body ≢ none
  pub mwi_event : app.is_mwi ≡ true → app'.pres_ev ≡ EvType.mwi
  pub mwi_type : app.is_mwi ≡ true → app'.ctype_e ≡ CType.mwi
  pub mwi_media : app.is_mwi ≡ true → app'.ctype_media ≡ summary_type
  pub mwi_account : app.is_mwi ≡ true → slen app'.mwi_acc ≡ 0 → app'.mwi_acc ≡ app'.dest
  pub mwi_account_given : slen app.mwi_acc ≢ 0 → app'.mwi_acc ≡ app.mwi_acc
  pub name_given : app.username ≢ none → app'.username ≡ app.username
  pub name_of_dest :
      (dest : Bytes)
      → app.username ≡ none
      → app.dest ≡ some dest
      → (uri : uris.Uri) × (uris.parse dest ≡ some uri) × (app'.username ≡ uris.user uri)
  pub others : app.is_mwi ≡ false → app' ≡ record app { username = app'.username }

module _ (lib : Strings) (uris : Uris) (build : Build) where
  next_app : {app app' : Config} → ◌≡◌ {A = Round} (ok (next app)) (ok (next app')) → app ≡ app'
  next_app h = cc

  next_round_stop :
      (k j : Config → Round) (round : Round) {app' : Config} {r : Status × Config}
      → next_round k round ≡ ok (next app')
      → ((app : Config) → k app ≡ ok (next app') → j app ≡ ok (stop r))
      → next_round j round ≡ ok (stop r)
  next_round_stop k j fault h f = cc
  next_round_stop k j (exit s) h f = cc
  next_round_stop k j (ok (stop r)) h f = cc
  next_round_stop k j (ok (next app)) h f = f app h

  opts_loop_stop :
      (before after : List (OptCode × PjStr)) (c : OptCode) (arg : PjStr) (app : Config)
      {app' : Config} {r : Status × Config}
      → opts_loop lib uris build before app ≡ ok (next app')
      → apply_opt lib uris build c arg app' ≡ ok (stop r)
      → opts_loop lib uris build (before ++ ((c, arg) ∷ after)) app ≡ ok (stop r)
  unfolding opts_loop
  opts_loop_stop [] after c arg app h s = rw (next_app h) (rw s)
  opts_loop_stop ((d, x) ∷ before) after c arg app h s =
      next_round_stop _ _ (apply_opt lib uris build d x app) h
        (λ app2 h2. opts_loop_stop before after c arg app2 h2 s)

  -- If the options before `-h` are all taken, they take effect and the command is help, and nothing
  -- behind it matters: neither the other options, nor the words that are left, nor the checks of
  -- `post_parse_setup`.
  pub getopts-help :
      (getopt_long : GetoptLong) (program first : Bytes) (words : List Bytes)
      (before after : List (OptCode × PjStr)) (arg : PjStr) (args : List Bytes) (app : Config)
      {app' : Config}
      → getopt_long optstring long_opts (program ∷ first ∷ words)
        ≡ (before ++ ((OptCode.help, arg) ∷ after), args)
      → opts_loop lib uris build before app ≡ ok (next app')
      → getopts lib uris build getopt_long (program ∷ first ∷ words) app
        ≡ ok (success, record app' { cmd = Command.help })
  unfolding getopts
  getopts-help getopt_long program first words before after arg args app {app'} g h =
      rw (g, opts_loop_stop before after OptCode.help arg app h (unfold apply_opt in refl))
