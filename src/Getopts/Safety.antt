-- ===== src/Getopts/Safety.antt =====
-- `sippak_getopts` of app/getopts.c: its pointers and its arrays.
use sippak.Prelude.{ℕ, ◌+◌, ◌≤◌, ◌≡◌, ◌≢◌, ◌∙◌, List, [], ◌∷◌, none, some, length, All, arith}
use sippak.CString.{Bytes}
use sippak.Strings.{Strings, StringLaws}
use sippak.Strings.Loop.{next, stop}
use sippak.Uris.{Uris}
use sippak.Media.{Build}
use sippak.Media.Choice.Refines.{Implements-size, set_media_codecs_cfg-choose}
use sippak.Config.{ok, exit, fault, ◌>>=◌, PjStr, Config, num_codecs_avail}
use sippak.Getopts.Headers.Laws.{add_custom_header_room_any, add_proxy_room_any}
use sippak.Getopts.Values.{set_content_type, set_event}
use sippak.Getopts.Values.Ports.{set_port_value-ne-fault}
use sippak.Getopts.Lists.{set_mwi_list_lem}
use sippak.Getopts.Table.{
  OptCode, HasArg, required_argument, optional_argument, no_argument, optstring, long_opts, header,
  proxy, codec, mwi,
}
use sippak.Getopts.Options.{
  Round, GetoptLong, next_round, apply_opt, opts_loop, finish_opts, getopts,
}

-- The table's `has_arg` of an option.
unfoldable pub has_arg : OptCode → HasArg
has_arg OptCode.help = no_argument
has_arg OptCode.version = no_argument
has_arg OptCode.verbose = optional_argument
has_arg OptCode.quiet = no_argument
has_arg OptCode.color = no_argument
has_arg OptCode.trail = no_argument
has_arg OptCode.log_time = no_argument
has_arg OptCode.log_level = no_argument
has_arg OptCode.log_snd = no_argument
has_arg OptCode.is_clist = no_argument
has_arg OptCode.cancel_all_reg = no_argument
has_arg OptCode.cancel = no_argument
has_arg OptCode.other = no_argument
has_arg _ = required_argument

-- It is what the table says.
has_arg-long_opts : All (λ o. has_arg o.val ≡ o.has_arg) long_opts
unfolding has_arg
has_arg-long_opts = ground arith

-- `pj_getopt_long` gives an argument with every option that requires one.
abbrev pub ArgGiven : OptCode × PjStr → Type 0
ArgGiven (c, arg) = has_arg c ≡ required_argument → arg ≢ none

abbrev one_if_header : OptCode → ℕ
one_if_header OptCode.header = 1
one_if_header _ = 0

abbrev one_if_proxy : OptCode → ℕ
one_if_proxy OptCode.proxy = 1
one_if_proxy _ = 0

abbrev pub headers : List (OptCode × PjStr) → ℕ
headers [] = 0
headers ((c, arg) ∷ opts) = one_if_header c + headers opts

abbrev pub proxies : List (OptCode × PjStr) → ℕ
proxies [] = 0
proxies ((c, arg) ∷ opts) = one_if_proxy c + proxies opts

-- The arrays have the sizes that `struct sippak_app` declares.
pub record IsSized (app : Config) : Type 0 where
  pub codecs : length app.media.codec ≡ num_codecs_avail
  pub hdrs : length app.hdrs.slots ≡ 12
  pub proxy : length app.proxy.slots ≡ 12

-- What a round does to the arrays: it never faults, and counts at most these.
abbrev Fine : ℕ → ℕ → Round → Type 0
Fine h p fault = ⊥
Fine h p (exit s) = Unit
Fine h p (ok (stop r)) = Unit
Fine h p (ok (next app)) = IsSized app × (app.hdrs.cnt ≤ h) × (app.proxy.cnt ≤ p)

Fine-weaken : {h h' p p' : ℕ} (r : Round) → Fine h p r → h ≤ h' → p ≤ p' → Fine h' p' r
Fine-weaken fault f a b = f
Fine-weaken (exit s) f a b = tt
Fine-weaken (ok (stop r)) f a b = tt
Fine-weaken (ok (next app)) f a b = (f.0, omega arith, omega arith)

Fine-next_round :
    {h p : ℕ} (rest : Config → Round) (r : Round)
    → Fine h p r
    → ((app : Config)
        → IsSized app × (app.hdrs.cnt ≤ h) × (app.proxy.cnt ≤ p)
        → Fine 12 12 (rest app))
    → Fine 12 12 (next_round rest r)
Fine-next_round rest fault f k = f
Fine-next_round rest (exit s) f k = tt
Fine-next_round rest (ok (stop r)) f k = tt
Fine-next_round rest (ok (next app)) f k = k app f

module _ {lib : Strings} (laws : StringLaws lib) (uris : Uris) (build : Build) where
  header-Fine :
      (a : Bytes) (app : Config)
      → IsSized app
      → app.hdrs.cnt + 1 ≤ 12
      → Fine (app.hdrs.cnt + 1) app.proxy.cnt (apply_opt lib uris build header (some a) app)
  unfolding apply_opt
  header-Fine a app z room =
      let (s, hdrs', e, c, n) = add_custom_header_room_any lib a app.hdrs (omega arith) z.hdrs in
      rw e (ground arith)

  proxy-Fine :
      (a : Bytes) (app : Config)
      → IsSized app
      → app.proxy.cnt + 1 ≤ 12
      → Fine app.hdrs.cnt (app.proxy.cnt + 1) (apply_opt lib uris build proxy (some a) app)
  unfolding apply_opt
  proxy-Fine a app z room =
      let (proxies', e, c, n) = add_proxy_room_any lib uris a app.proxy (omega arith) z.proxy in
      rw e (record { codecs = z.codecs; hdrs = z.hdrs; proxy = n ∙ z.proxy }, omega arith, c)

  mwi-Fine :
      (a : Bytes) (app : Config)
      → IsSized app
      → Fine app.hdrs.cnt app.proxy.cnt (apply_opt lib uris build mwi (some a) app)
  unfolding apply_opt
  mwi-Fine a app z =
      rw (set_mwi_list_lem laws a)
        (record { codecs = z.codecs; hdrs = z.hdrs; proxy = z.proxy }, omega arith, omega arith)

  codec-Fine :
      (a : Bytes) (app : Config)
      → IsSized app
      → Fine app.hdrs.cnt app.proxy.cnt (apply_opt lib uris build codec (some a) app)
  unfolding apply_opt
  codec-Fine a app z =
      let (r, e, i) = set_media_codecs_cfg-choose laws build app.media a z.codecs in
      let (s, media', returns, size) = Implements-size app.media _ i in
      rw (e, returns) (ground arith)

  -- A round over an option with its argument.
  apply_opt-Fine :
      (c : OptCode) (arg : PjStr) (app : Config)
      → ArgGiven (c, arg)
      → IsSized app
      → app.hdrs.cnt + one_if_header c ≤ 12
      → app.proxy.cnt + one_if_proxy c ≤ 12
      → Fine
          (app.hdrs.cnt + one_if_header c)
          (app.proxy.cnt + one_if_proxy c)
          (apply_opt lib uris build c arg app)
  unfolding apply_opt has_arg set_content_type set_event
  apply_opt-Fine header (some a) app g z h p =
      Fine-weaken _ (header-Fine a app z h) (omega arith) (omega arith)
  apply_opt-Fine proxy (some a) app g z h p =
      Fine-weaken _ (proxy-Fine a app z p) (omega arith) (omega arith)
  apply_opt-Fine mwi (some a) app g z h p =
      Fine-weaken _ (mwi-Fine a app z) (omega arith) (omega arith)
  apply_opt-Fine codec (some a) app g z h p =
      Fine-weaken _ (codec-Fine a app z) (omega arith) (omega arith)
  apply_opt-Fine OptCode.verbose none app g z h p = ground arith
  apply_opt-Fine _ none app g z h p = ground arith
  apply_opt-Fine _ (some a) app g z h p = ground (arith, set_port_value-ne-fault lib a)

  opts_loop-Fine :
      (opts : List (OptCode × PjStr)) (app : Config)
      → All ArgGiven opts
      → IsSized app
      → app.hdrs.cnt + headers opts ≤ 12
      → app.proxy.cnt + proxies opts ≤ 12
      → Fine 12 12 (opts_loop lib uris build opts app)
  unfolding opts_loop
  opts_loop-Fine [] app g z h p = (z, omega arith, omega arith)
  opts_loop-Fine ((c, arg) ∷ opts) app g z h p =
      Fine-next_round _ (apply_opt lib uris build c arg app)
        (apply_opt-Fine c arg app g.0 z (omega arith) (omega arith))
        (λ app' f. opts_loop-Fine opts app' g.1 f.0 (omega arith) (omega arith))

  finish_opts-ne-fault :
      (args : List Bytes) (r : Round)
      → Fine 12 12 r
      → (r >>= finish_opts lib uris build args) ≢ fault
  unfolding finish_opts
  finish_opts-ne-fault args fault f e = f
  finish_opts-ne-fault args (exit s) f e = cc
  finish_opts-ne-fault args (ok (stop r)) f e = cc
  finish_opts-ne-fault args (ok (next app)) f e = ground arith

  -- `sippak_getopts` returns or leaves the program, with no null pointer followed and no array
  -- overrun, if the arrays have the sizes they are declared with, `pj_getopt_long` gives the
  -- arguments that the table asks for, and the headers and the proxies, those stored and those
  -- on the command line, are at most twelve each.
  pub getopts-ne-fault :
      (getopt_long : GetoptLong) (argv : List Bytes) (app : Config)
      → All ArgGiven (getopt_long optstring long_opts argv).0
      → IsSized app
      → app.hdrs.cnt + headers (getopt_long optstring long_opts argv).0 ≤ 12
      → app.proxy.cnt + proxies (getopt_long optstring long_opts argv).0 ≤ 12
      → getopts lib uris build getopt_long argv app ≢ fault
  unfolding getopts
  getopts-ne-fault getopt_long (program ∷ []) app g z h p e = cc
  getopts-ne-fault getopt_long argv app g z h p e =
      let (opts, args) = getopt_long optstring long_opts argv in
      finish_opts-ne-fault args (opts_loop lib uris build opts app)
        (opts_loop-Fine opts app g z h p) e
