-- ===== src/Tests.antt =====
-- A configuration, URIs, messages and an option parser at which the theorems are applied.
pub mod Options
pub mod Wire
pub mod Callbacks
pub mod Notify
pub mod Runs
pub mod Order
pub mod Logs
use sippak.Prelude.{
  ℕ, ◌+◌, ◌≡◌, refl, Bool, true, false, ◌||◌, List, [], ◌∷◌, ◌++◌, map, Option, none, some,
  if◌then◌else◌, Bool-cases, inl, inr, replicate, length, ◌≤◌,
}
use sippak.Prelude.Int.{pos}
use sippak.CString.{Bytes, codes}
use sippak.Strings.Reference.{same, same_complete, begins}
use sippak.Uris.{Uris}
use sippak.Media.{Build}
use sippak.Config.{
  Command, Proto, EvType, CType, Codec, Header, Array, Media, Config, PjStr, gsm, g711,
}
use sippak.Getopts.Headers.Laws.{Holds}
use sippak.SipHelper.Mangler.{Messages, MessageLaws}

abbrev pub empty_slots {ℓ} : {A : Type ℓ} → List (Option A)
empty_slots = none ∷ none ∷ none ∷ none ∷ none ∷ none ∷ none ∷ none ∷ none ∷ none ∷ none ∷ none ∷ []

abbrev pub media0 : Media
media0 = record { cnt = 1; codec = empty_slots; rtp_port = 4000 }

abbrev pub subject : Header
subject = record { name = codes "Subject"; value = codes "hi" }

abbrev pub one_header : Array Header
one_header = record {
  cnt = 1;
  slots =
      some subject
      ∷ none
      ∷ none
      ∷ none
      ∷ none
      ∷ none
      ∷ none
      ∷ none
      ∷ none
      ∷ none
      ∷ none
      ∷ none
      ∷ [];
}

-- `sippak_init`, with a user agent and one header.
abbrev pub app0 : Config
app0 = record {
  cmd = Command.ping;
  log_level = pos 3;
  log_decor = record {
    newline = true;
    indent = true;
    color = false;
    time = false;
    micro_sec = false;
    level_text = false;
    sender = false;
  };
  trail_dot = false;
  dest = some (codes "bob");
  nameservers = none;
  local_port = 0;
  local_host = none;
  username = some (codes "alice");
  password = some (codes "secret");
  from_name = none;
  proto = Proto.udp;
  expires = 3600;
  pres_status_open = true;
  pres_note = none;
  pres_ev = EvType.unknown;
  event = none;
  ctype_e = CType.unknown;
  ctype_media = record { type = none; subtype = none };
  is_mwi = false;
  mwi = [];
  mwi_acc = none;
  is_clist = false;
  cancel_all_reg = false;
  cancel = false;
  contact = none;
  refer_to = none;
  body = none;
  media = media0;
  user_agent = some (codes "sippak");
  hdrs = one_header;
  proxy = record { cnt = 0; slots = empty_slots };
}

-- A URI is its own text, if that begins with "sip:".
abbrev pub uris0 : Uris
uris0 = record {
  Uri = Bytes;
  parse = λ t. if begins (codes "sip:") t then some t else none;
  user = λ u. none;
  set_user = λ name u. u;
  set_lr = λ u. u ++ codes ";lr";
  set_transport = λ proto u. u ++ (codes ";transport=" ++ proto);
  print_routing = λ u. some u;
  print_req = λ u. some u;
  print_fromto = λ u. some u;
  print_name = λ name u. some u;
}

abbrev pub build0 : Build
build0 = record {
  speex = true;
  ilbc = true;
  gsm = true;
  g711 = true;
  g722 = true;
  ipp = false;
  g7221 = true;
  l16 = true;
  amrnb = false;
  amrwb = true;
  silk = false;
  opus = true;
  bcg729 = false;
}

-- A message is its headers.
abbrev pub has_header : List Header → Bytes → Bool
has_header [] name = false
has_header (h ∷ hs) name = same h.name name || has_header hs name

abbrev pub messages : Messages
messages = record { Msg = List Header; find = has_header; add = λ m h. h ∷ m }

or-right : (a b : Bool) → b ≡ true → (a || b) ≡ true
or-right true b h = refl
or-right false b h = h

pub messages_lem : MessageLaws messages
messages_lem = record {
  find-add_self = λ m h. rw (same_complete h.name) refl;
  find-add = λ m h name found. or-right (same h.name name) (has_header m name) found;
}

pub one_header-Holds : Holds one_header (subject ∷ [])
one_header-Holds = record {
  rest = none ∷ none ∷ none ∷ none ∷ none ∷ none ∷ none ∷ none ∷ none ∷ none ∷ none ∷ [];
  slots = refl;
  cnt = refl;
  size = refl;
}
