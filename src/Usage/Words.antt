-- ===== src/Usage/Words.antt =====
-- What the help text of app/usage.c names, and what the command line understands.
use sippak.Prelude.{
  arith, ◌≢◌, All, take, length, ◌≡◌, refl, ap, ◌∙◌, Bool, true, false, ◌&&◌, ◌||◌, not, List, [],
  ◌∷◌, map, Option, none, some, drop, ◌==◌, if◌then◌else◌,
}
use sippak.CString.{Bytes, codes, lower}
use sippak.Strings.{Strings, StringLaws}
use sippak.Strings.Tokens.{tokens}
use sippak.Config.{
  Command, ping, publish, subscribe, notify, register, refer, message, invite, Codec, g7221, speex,
  ilbc, gsm, g711, g722, ipp, l16, ocamr, silk, opus, bcg729, all,
}
use sippak.Media.{codec_str_parse}
use sippak.Media.Parse.{codec_name, has_name, strnicmp-has_name, codec_str_parse-codec_name}
use sippak.Getopts.Values.{parse_command_str}
use sippak.Getopts.Table.{HasArg, required_argument, LongOpt, long_opts}
use sippak.Usage.{help_lines, codec_list}
use sippak.SipHelper.Requests.{print_decimal}

abbrev is_prefix : Bytes → Bytes → Bool
is_prefix [] ys = true
is_prefix (x ∷ xs) [] = false
is_prefix (x ∷ xs) (y ∷ ys) = x == y && is_prefix xs ys

-- What stands behind the first "--".
abbrev behind_dashes : Bytes → Option Bytes
behind_dashes [] = none
behind_dashes (c ∷ cs) = elim (is_prefix (codes "--") (c ∷ cs)) [
  | true ↦ some (drop 2 (c ∷ cs))
  | false ↦ behind_dashes cs
]

-- A word up to a space or "=", and whether "=" follows.
abbrev word : Bytes → Bytes × Bool
word [] = ([], false)
word (c ∷ cs) = elim (c == b'=') [
  | true ↦ ([], true)
  | false ↦ elim (c == b' ') [ true ↦ ([], false) | false ↦ (c ∷ (word cs).0, (word cs).1) ]
]

-- The long option that a line of the help documents, and whether with a value.
abbrev pub option_of : Bytes → Option (Bytes × Bool)
option_of line = elim (is_prefix (codes "    -") line) [
  | true ↦ elim (behind_dashes (drop 4 line)) [ none ↦ none | some text ↦ some (word text) ]
  | false ↦ none
]

-- The command: the first word, in the column of the commands.
abbrev pub command_word : Bytes → Option Bytes
command_word line =
    if is_prefix (codes "    ") line
      && not (is_prefix (codes "     ") line || is_prefix (codes "    -") line)
    then some (word (drop 4 line)).0
    else none

abbrev pub keep_some : {A : Type 0} → (Bytes → Option A) → List Bytes → List A
keep_some f [] = []
keep_some f (l ∷ ls) = elim (f l) [ none ↦ keep_some f ls | some a ↦ a ∷ keep_some f ls ]

-- The option as the table has it.
abbrev requires : HasArg → Bool
requires required_argument = true
requires _ = false

abbrev pub option_entry : LongOpt → Bytes × Bool
option_entry o = (codes o.name, requires o.has_arg)

abbrev same_bool : Bool → Bool → Bool
same_bool true b = b
same_bool false b = not b

abbrev same_text : Bytes → Bytes → Bool
same_text [] [] = true
same_text (x ∷ xs) (y ∷ ys) = x == y && same_text xs ys
same_text _ _ = false

abbrev has_entry : Bytes × Bool → List (Bytes × Bool) → Bool
has_entry e [] = false
has_entry (n, b) ((m, c) ∷ es) = (same_text n m && same_bool b c) || has_entry (n, b) es

abbrev pub has_all : List (Bytes × Bool) → List (Bytes × Bool) → Bool
has_all [] es = true
has_all (x ∷ xs) es = has_entry x es && has_all xs es

map-ext : {A B : Type 0} (f g : A → B) → ((x : A) → f x ≡ g x) → (xs : List A) → map f xs ≡ map g xs
map-ext f g h [] = refl
map-ext f g h (x ∷ xs) = rw (h x, map-ext f g h xs) refl

-- The command that a word begins with, whatever its case.
command_of : Bytes → Command
command_of t =
    if has_name (codes "ping") t
    then ping
    else if has_name (codes "publish") t
    then publish
    else if has_name (codes "subscribe") t
    then subscribe
    else if has_name (codes "notify") t
    then notify
    else if has_name (codes "register") t
    then register
    else if has_name (codes "refer") t
    then refer
    else if has_name (codes "message") t
    then message
    else if has_name (codes "invite") t
    then invite
    else Command.unknown

abbrev pub commands : List Command
commands = ping ∷ publish ∷ subscribe ∷ notify ∷ register ∷ refer ∷ message ∷ invite ∷ []

abbrev pub codecs : List Codec
codecs = speex ∷ ilbc ∷ gsm ∷ g711 ∷ g722 ∷ ipp ∷ l16 ∷ ocamr ∷ silk ∷ opus ∷ bcg729 ∷ all ∷ []

options_documented :
    (has_all (map option_entry long_opts) (keep_some option_of help_lines) ≡ true)
    × (has_all (keep_some option_of help_lines) (map option_entry long_opts) ≡ true)
unfolding print_decimal
options_documented = (refl, refl)

codec_name_whole :
    (c : Codec) → map lower (take (length (codec_name c)) (codec_name c)) ≡ codec_name c
unfolding lower
codec_name_whole speex = refl
codec_name_whole _ = refl

codec_list-tokens : tokens b',' codec_list ≡ map codec_name codecs
unfolding tokens
codec_list-tokens = refl

module _ {lib : Strings} (laws : StringLaws lib) where
  parse_command_str-command_of : (t : Bytes) → parse_command_str lib t ≡ command_of t
  unfolding parse_command_str command_of lower
  parse_command_str-command_of t = rw (
    strnicmp-has_name laws (codes "ping") t refl,
    strnicmp-has_name laws (codes "publish") t refl,
    strnicmp-has_name laws (codes "subscribe") t refl,
    strnicmp-has_name laws (codes "notify") t refl,
    strnicmp-has_name laws (codes "register") t refl,
    strnicmp-has_name laws (codes "refer") t refl,
    strnicmp-has_name laws (codes "message") t refl,
    strnicmp-has_name laws (codes "invite") t refl,
  )

  commands_documented : map (parse_command_str lib) (keep_some command_word help_lines) ≡ commands
  unfolding command_of has_name lower print_decimal
  commands_documented =
      map-ext (parse_command_str lib) command_of parse_command_str-command_of
        (keep_some command_word help_lines)
      ∙ refl

  codec_names_parse :
      (cs : List Codec)
      → All (λ c. c ≢ g7221) cs
      → map (codec_str_parse lib) (map codec_name cs) ≡ map some cs
  codec_names_parse [] h = refl
  codec_names_parse (c ∷ cs) h =
      rw
        (
          codec_str_parse-codec_name laws c (codec_name c) h.0 (codec_name_whole c),
          codec_names_parse cs h.1,
        )
        refl

  codecs_documented : map (codec_str_parse lib) (tokens b',' codec_list) ≡ map some codecs
  codecs_documented =
      ap (map (codec_str_parse lib)) codec_list-tokens ∙ codec_names_parse codecs (ground arith)

  -- The help text agrees with the command line: the words in its column of commands are understood as
  -- the eight commands, its list of codec names as all codecs but G.722.1, and the long options in its
  -- column of options are those of the option table, no more and no fewer, with a value where the table
  -- requires one.
  pub help_lines-understood :
      (map (parse_command_str lib) (keep_some command_word help_lines) ≡ commands)
      × (map (codec_str_parse lib) (tokens b',' codec_list) ≡ map some codecs)
      × (has_all (map option_entry long_opts) (keep_some option_of help_lines) ≡ true)
      × (has_all (keep_some option_of help_lines) (map option_entry long_opts) ≡ true)
  help_lines-understood =
      (commands_documented, codecs_documented, options_documented.0, options_documented.1)
