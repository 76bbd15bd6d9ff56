-- ===== src/Getopts/Options.antt =====
-- `sippak_getopts` of app/getopts.c: the option table, the `switch`, and what follows the loop.
-- `pj_getopt_long` is pjlib-util's; it is a parameter.
use sippak.Prelude.{
  Bool, true, false, not, ◌&&◌, List, [], ◌∷◌, Option, none, some, ◌==◌, if◌then◌else◌, String,
}
use sippak.Prelude.Int.{ℤ, pos, ◌+ℤ◌, to_int, to_u16, to_u32}
use sippak.CString.{Bytes, codes}
use sippak.Strings.{Strings}
use sippak.Strings.Loop.{Flow, next, stop}
use sippak.Uris.{Uris}
use sippak.Media.{Build, set_media_codecs_cfg}
use sippak.Config.{
  Status, success, cli_einvarg, Outcome, ok, exit, fault, ◌>>=◌, PjStr, slen, is_null, Command,
  EvType, CType, Config, Media, Array, Header,
}
use sippak.Getopts.Table.{
  OptCode, LongOpt, long_opts, optstring, help, version, ns, verbose, quiet, color, trail, log_time,
  log_level, log_snd, local_port, local_host, username, password, from_name, proto, expires,
  pres_status, pres_note, content_type, event, mwi, mwi_acc, is_clist, cancel_all_reg, cancel,
  contact, refer_to, body, codec, rtp_port, user_agent, header, proxy, other,
}
use sippak.Getopts.Values.{
  atoi, parse_command_str, transport_proto, is_string_numeric, set_port_value, pjstr_trimmed,
  set_content_type, set_event,
}
use sippak.Getopts.Values
use sippak.Getopts.Headers.{add_custom_header, add_proxy}
use sippak.Getopts.Lists.{set_mwi_list}

-- The calls of `pj_getopt_long` up to the one that gives -1, each with `pj_optarg`, and then
-- `argv` from `pj_optind` on.
abbrev pub GetoptLong : Type 0
GetoptLong = String → List LongOpt → List Bytes → List (OptCode × PjStr) × List Bytes

-- One round of the loop: the next round, or the function's return.
abbrev pub Round : Type 0
Round = Outcome (Flow Config (Status × Config))

abbrev go_on : Config → Round
go_on app = ok (next app)

abbrev return : Status → Config → Round
return s app = ok (stop (s, app))

-- The rest of the loop behind a round.
abbrev pub next_round : (Config → Round) → Round → Round
next_round rest (ok (next app)) = rest app
next_round rest (ok (stop r)) = ok (stop r)
next_round rest (exit s) = exit s
next_round rest fault = fault

-- A case that reads `pj_optarg`, which must not be null.
abbrev with_arg : PjStr → (Bytes → Round) → Round
with_arg none f = fault
with_arg (some optarg) f = f optarg

-- The loops over tokens always end (Strings/Loop); out of fuel is no behaviour of the program.
abbrev pub settle {ℓ} : {A : Type ℓ} → Option (Outcome A) → Outcome A
settle none = fault
settle (some r) = r

abbrev pub is_refer : Command → Bool
is_refer Command.refer = true
is_refer _ = false

abbrev pub is_message : Command → Bool
is_message Command.message = true
is_message _ = false

module _ (lib : Strings) (uris : Uris) (build : Build) where
  -- `case OPT_CODEC`
  codec_case : Config → Status × Media → Round
  codec_case app (success, media) = go_on (record app { media = media })
  codec_case app (status, media) = exit cli_einvarg

  -- `case 'H'`
  header_case : Config → Status × Array Header → Round
  header_case app (success, hdrs) = go_on (record app { hdrs = hdrs })
  header_case app (status, hdrs) = return cli_einvarg (record app { hdrs = hdrs })

  mwi_case : Config → List ℤ → Round
  mwi_case app counts = go_on (record app { mwi = counts; is_mwi = true })

  expires_case : Config → Bytes → Round
  expires_case app optarg =
      if not (is_string_numeric lib optarg)
      then exit cli_einvarg
      else go_on (record app { expires = to_u32 (atoi lib optarg) })

  verbose_case : Config → PjStr → Round
  verbose_case app none = go_on (record app { log_level = to_int (app.log_level +ℤ pos 1) })
  verbose_case app (some optarg) =
      go_on (record app { log_level = to_int (app.log_level +ℤ atoi lib optarg) })

  -- The `switch` of the loop.
  unfoldable pub apply_opt : OptCode → PjStr → Config → Round
  unfolding codec_case header_case mwi_case expires_case verbose_case
  apply_opt help arg app = return success (record app { cmd = Command.help })
  apply_opt version arg app = return success (record app { cmd = Command.version })
  apply_opt ns arg app = go_on (record app { nameservers = arg })
  apply_opt color arg app =
      go_on (record app { log_decor = record (app.log_decor) { color = true } })
  apply_opt trail arg app = go_on (record app { trail_dot = true })
  apply_opt log_time arg app =
      go_on (record app { log_decor = record (app.log_decor) { time = true; micro_sec = true } })
  apply_opt log_level arg app =
      go_on (record app { log_decor = record (app.log_decor) { level_text = true } })
  apply_opt log_snd arg app =
      go_on (record app { log_decor = record (app.log_decor) { sender = true } })
  apply_opt local_port arg app =
      with_arg arg
        λ a. do port ← set_port_value lib a; go_on (record app { local_port = to_u16 port })
  apply_opt local_host arg app =
      with_arg arg λ a. go_on (record app { local_host = pjstr_trimmed lib a })
  apply_opt username arg app =
      with_arg arg λ a. go_on (record app { username = pjstr_trimmed lib a })
  apply_opt password arg app =
      with_arg arg λ a. go_on (record app { password = pjstr_trimmed lib a })
  apply_opt from_name arg app =
      with_arg arg λ a. go_on (record app { from_name = pjstr_trimmed lib a })
  apply_opt proto arg app = with_arg arg λ a. go_on (record app { proto = transport_proto lib a })
  apply_opt verbose arg app = verbose_case app arg
  apply_opt quiet arg app = go_on (record app { log_level = pos 0 })
  apply_opt expires arg app = with_arg arg λ a. expires_case app a
  apply_opt pres_status arg app =
      with_arg arg λ a. go_on (record app { pres_status_open = Values.pres_status_open lib a })
  apply_opt pres_note arg app =
      with_arg arg λ a. go_on (record app { pres_note = Values.pres_note lib a })
  apply_opt content_type arg app = with_arg arg λ a. go_on (set_content_type lib app a)
  apply_opt event arg app = with_arg arg λ a. go_on (set_event lib app a)
  apply_opt mwi arg app = with_arg arg λ a. settle (set_mwi_list lib a) >>= mwi_case app
  apply_opt mwi_acc arg app = with_arg arg λ a. go_on (record app { mwi_acc = pjstr_trimmed lib a })
  apply_opt is_clist arg app = go_on (record app { is_clist = true })
  apply_opt cancel_all_reg arg app = go_on (record app { cancel_all_reg = true })
  apply_opt cancel arg app = go_on (record app { cancel = true })
  apply_opt contact arg app = with_arg arg λ a. go_on (record app { contact = pjstr_trimmed lib a })
  apply_opt refer_to arg app =
      with_arg arg λ a. go_on (record app { refer_to = pjstr_trimmed lib a })
  apply_opt body arg app = with_arg arg λ a. go_on (record app { body = pjstr_trimmed lib a })
  apply_opt codec arg app =
      with_arg arg λ a. settle (set_media_codecs_cfg lib build app.media a) >>= codec_case app
  apply_opt rtp_port arg app = with_arg arg λ a. do
    port ← set_port_value lib a
    go_on (record app { media = record (app.media) { rtp_port = to_u16 port } })
  apply_opt user_agent arg app =
      with_arg arg λ a. go_on (record app { user_agent = pjstr_trimmed lib a })
  apply_opt header arg app = with_arg arg λ a. add_custom_header lib a app.hdrs >>= header_case app
  apply_opt proxy arg app =
      with_arg arg
        λ a. do proxies ← add_proxy lib uris a app.proxy; go_on (record app { proxy = proxies })
  apply_opt other arg app = go_on app

  -- `sippak_parse_argv_left`
  unfoldable pub parse_argv_left : List Bytes → Config → Config
  parse_argv_left [] app = app
  parse_argv_left (dest ∷ []) app = record app { dest = some dest }
  parse_argv_left (cmd ∷ dest ∷ extra) app = record app {
    cmd = parse_command_str lib cmd;
    dest = some dest;
  }

  -- The MWI routine of `post_parse_setup`.
  unfoldable pub follow_mwi : Config → Config
  follow_mwi app =
      if app.is_mwi
      then record app {
        pres_ev = EvType.mwi;
        ctype_media = record {
          type = some (codes "application");
          subtype = some (codes "simple-message-summary");
        };
        ctype_e = CType.mwi;
        mwi_acc = if slen app.mwi_acc == 0 then app.dest else app.mwi_acc;
      }
      else app

  set_user : Config → Option uris.Uri → Outcome Config
  set_user app none = exit cli_einvarg
  set_user app (some dest_uri) = ok (record app { username = uris.user dest_uri })

  -- The user name that `post_parse_setup` takes from the destination.
  unfoldable pub default_username : PjStr → PjStr → Config → Outcome Config
  unfolding set_user
  default_username none (some dest) app = set_user app (uris.parse dest)
  default_username _ _ app = ok app

  -- `post_parse_setup`, without its two calls that set up logging.
  unfoldable pub post_parse_setup : Config → Outcome Config
  unfolding follow_mwi default_username
  post_parse_setup app =
      if is_refer app.cmd && is_null app.refer_to
      then exit cli_einvarg
      else if is_message app.cmd && is_null app.body
      then exit cli_einvarg
      else (let app' = follow_mwi app in default_username app'.username app'.dest app')

  -- The `while` loop.
  unfoldable pub opts_loop : List (OptCode × PjStr) → Config → Round
  unfolding apply_opt
  opts_loop [] app = go_on app
  opts_loop ((c, optarg) ∷ opts) app =
      next_round (λ app'. opts_loop opts app') (apply_opt c optarg app)

  -- What follows the loop.
  unfoldable pub finish_opts :
      List Bytes → Flow Config (Status × Config) → Outcome (Status × Config)
  unfolding parse_argv_left post_parse_setup
  finish_opts args (stop r) = ok r
  finish_opts args (next app) = do
    app' ← post_parse_setup (parse_argv_left args app)
    ok (success, app')

  -- `sippak_getopts`
  unfoldable pub getopts : GetoptLong → List Bytes → Config → Outcome (Status × Config)
  unfolding opts_loop finish_opts
  getopts getopt_long (program ∷ []) app = ok (success, record app { cmd = Command.help })
  getopts getopt_long argv app =
      let (opts, args) = getopt_long optstring long_opts argv in
      opts_loop opts app >>= finish_opts args
