-- ===== src/Getopts/Table.antt =====
-- The options of app/getopts.c: their codes, and the table for `pj_getopt_long`.
use sippak.Prelude.{List, [], ◌∷◌, String}

-- The values that `pj_getopt_long` gives: the characters of the short options, `opts_enum_t`, and
-- any other.
pub data OptCode : Type 0 where
  help version ns verbose quiet color trail log_time log_level log_snd local_port : OptCode
  local_host username password from_name proto expires pres_status pres_note : OptCode
  content_type event mwi mwi_acc is_clist cancel_all_reg cancel contact refer_to body : OptCode
  codec rtp_port user_agent header proxy other : OptCode

-- `has_arg` of `struct pj_getopt_option`: 0, 1 and 2.
pub data HasArg : Type 0 where
  no_argument required_argument optional_argument : HasArg

pub record LongOpt : Type 0 where
  pub name : String
  pub has_arg : HasArg
  pub val : OptCode

abbrev opt : String → HasArg → OptCode → LongOpt
opt name has_arg val = record { name = name; has_arg = has_arg; val = val }

-- `sippak_long_opts`, without the terminator.
abbrev pub long_opts : List LongOpt
long_opts =
    opt "help" no_argument help
    ∷ opt "version" no_argument version
    ∷ opt "ns" required_argument ns
    ∷ opt "verbose" optional_argument verbose
    ∷ opt "quiet" no_argument quiet
    ∷ opt "color" no_argument color
    ∷ opt "trail-dot" no_argument trail
    ∷ opt "log-time" no_argument log_time
    ∷ opt "log-level" no_argument log_level
    ∷ opt "log-snd" no_argument log_snd
    ∷ opt "local-port" required_argument local_port
    ∷ opt "local-host" required_argument local_host
    ∷ opt "username" required_argument username
    ∷ opt "password" required_argument password
    ∷ opt "from-name" required_argument from_name
    ∷ opt "proto" required_argument proto
    ∷ opt "expires" required_argument expires
    ∷ opt "pres-status" required_argument pres_status
    ∷ opt "pres-note" required_argument pres_note
    ∷ opt "content-type" required_argument content_type
    ∷ opt "event" required_argument event
    ∷ opt "mwi" required_argument mwi
    ∷ opt "mwi-acc" required_argument mwi_acc
    ∷ opt "clist" no_argument is_clist
    ∷ opt "cancel-all" no_argument cancel_all_reg
    ∷ opt "cancel" no_argument cancel
    ∷ opt "contact" required_argument contact
    ∷ opt "to" required_argument refer_to
    ∷ opt "body" required_argument body
    ∷ opt "codec" required_argument codec
    ∷ opt "rtp-port" required_argument rtp_port
    ∷ opt "user-agent" required_argument user_agent
    ∷ opt "header" required_argument header
    ∷ opt "proxy" required_argument proxy
    ∷ []

abbrev pub optstring : String
optstring = "hVvqP:u:p:t:l:F:X:E:C:M:c:A:H:R:"
