-- ===== src/Tests/Options.antt =====
-- The command line at concrete words.
use sippak.Prelude.{ℕ, ◌≡◌, ◌≢◌, refl, true, List, [], ◌∷◌, ◌++◌, map, none, some, arith, ◌≤◌, take}
use sippak.Prelude.Int.{pos, to_u16, to_int}
use sippak.CString.{codes, Bytes, decimal_from, cut_at, drop_spaces, signed_decimal}
use sippak.Strings.Reference.{reference, reference-StringLaws, trim_end}
use sippak.Strings.Tokens.{tokens}
use sippak.Config.{
  success, cli_einvarg, ok, exit, fault, Config, Array, Command, CType, EvType, PjStr,
}
use sippak.Getopts.Values.{is_string_numeric, atoi, set_port_value}
use sippak.Getopts.Values.Ports.{set_port_value-range, set_port_value-digits}
use sippak.Getopts.Headers.{skip_spaces, add_custom_header, parse_header}
use sippak.Getopts.Headers.Laws.{Holds, add_custom_header_overrun, parse_header-print}
use sippak.Getopts.Lists.{set_mwi_list, mwi_zero, set_mwi_list_lem}
use sippak.Getopts.Table.{OptCode, required_argument}
use sippak.Getopts.Options.{GetoptLong, opts_loop, getopts}
use sippak.Getopts.Post.{getopts-help}
use sippak.Getopts.Safety.{has_arg, getopts-ne-fault}
use sippak.Getopts.Table.{long_opts}
use sippak.Getopts.Values.{parse_command_str}
use sippak.Media.{codec_str_parse}
use sippak.Usage.{help_lines, codec_list}
use sippak.Usage.Words.{
  keep_some, command_word, option_of, option_entry, has_all, commands, codecs,
  help_lines-understood,
}
use sippak.Tests.{app0, uris0, build0, subject}

abbrev options : List (OptCode × PjStr)
options =
    (OptCode.header, some (codes "X-A: 1"))
    ∷ (OptCode.local_port, some (codes "5062"))
    ∷ (OptCode.help, none)
    ∷ (OptCode.codec, some (codes "gsm"))
    ∷ []

-- What `pj_getopt_long` gives for "sippak -H 'X-A: 1' -P 5062 -h -c gsm".
abbrev getopt0 : GetoptLong
getopt0 = λ short long argv. (options, [])

abbrev words0 : List Bytes
words0 = codes "sippak" ∷ codes "-H" ∷ []

no_argument_help : has_arg OptCode.help ≢ required_argument
unfolding has_arg
no_argument_help h = cc

getopts-ne-fault_example : getopts reference uris0 build0 getopt0 words0 app0 ≢ fault
getopts-ne-fault_example =
    getopts-ne-fault reference-StringLaws uris0 build0 getopt0 words0 app0
      ((λ h. λ e. cc), ((λ h. λ e. cc), ((λ h. absurd (no_argument_help h)), ((λ h. λ e. cc), tt))))
      (record { codecs = refl; hdrs = refl; proxy = refl }) (omega arith) (omega arith)

getopts-help_example :
    getopts reference uris0 build0
      (λ short long argv. ((OptCode.help, none) ∷ options, []))
      words0
      app0
    ≡ ok (success, record app0 { cmd = Command.help })
unfolding opts_loop
getopts-help_example =
    getopts-help reference uris0 build0 (λ short long argv. ((OptCode.help, none) ∷ options, []))
      (codes "sippak") (codes "-H") [] [] options none [] app0 refl refl

abbrev twelve : {A : Type 0} → A → List A
twelve a = a ∷ a ∷ a ∷ a ∷ a ∷ a ∷ a ∷ a ∷ a ∷ a ∷ a ∷ a ∷ []

abbrev full : {A : Type 0} → A → Array A
full a = record { cnt = 12; slots = twelve (some a) }

full-Holds : {A : Type 0} (a : A) → Holds (full a) (twelve a)
full-Holds a = record { rest = []; slots = refl; cnt = refl; size = refl }

add_custom_header_overrun_example :
    add_custom_header reference (codes "X-A: 1") (full subject) ≡ fault
unfolding parse_header skip_spaces cut_at
add_custom_header_overrun_example =
    add_custom_header_overrun reference (codes "X-A: 1") (full-Holds subject) refl
      (record { name = codes "X-A"; value = codes "1" }) refl

parse_header-print_example :
    parse_header reference (codes " X-A: 1")
    ≡ some (record { name = codes "X-A"; value = codes "1" })
parse_header-print_example =
    parse_header-print reference-StringLaws (codes " ") (codes "X-A") (codes " ") (codes "1")
      (refl, tt) refl (ground arith) (refl, tt) refl

set_port_value-digits_example : set_port_value reference (codes " 65536 ") ≡ exit cli_einvarg
unfolding decimal_from
set_port_value-digits_example =
    set_port_value-digits reference-StringLaws (codes " ") (codes "65536") (codes " ") (refl, tt)
      (λ e. cc) refl (refl, tt) (omega arith)

set_port_value-range_example :
    (n : ℕ) × (pos 5060 ≡ pos n) × (1 ≤ n) × (n ≤ 65535) × (to_u16 (pos 5060) ≡ n)
unfolding set_port_value is_string_numeric atoi decimal_from trim_end drop_spaces signed_decimal
set_port_value-range_example = set_port_value-range reference (codes "5060") refl

set_mwi_list_lem_example :
    set_mwi_list reference (codes "2,8")
    ≡ some (
        ok (
          take 4 (
            map (λ t. to_int (reference.strtol t)) (tokens b',' (codes "2,8"))
            ++ mwi_zero reference)))
set_mwi_list_lem_example = set_mwi_list_lem reference-StringLaws (codes "2,8")

abbrev notify_app : Config
notify_app = record app0 { cmd = Command.notify; is_mwi = true }

abbrev notify_ready : Config
notify_ready = record notify_app {
  pres_ev = EvType.mwi;
  ctype_media = record {
    type = some (codes "application");
    subtype = some (codes "simple-message-summary");
  };
  ctype_e = CType.mwi;
  mwi_acc = some (codes "bob");
}

help_lines-understood_example :
    (map (parse_command_str reference) (keep_some command_word help_lines) ≡ commands)
    × (map (codec_str_parse reference) (tokens b',' codec_list) ≡ map some codecs)
    × (has_all (map option_entry long_opts) (keep_some option_of help_lines) ≡ true)
    × (has_all (keep_some option_of help_lines) (map option_entry long_opts) ≡ true)
help_lines-understood_example = help_lines-understood reference-StringLaws
