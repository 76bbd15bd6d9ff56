-- ===== src/Config.antt =====
-- `struct sippak_app` of include/sippak.h.in, and `sippak_init` of app/getopts.c.
use sippak.Prelude.{ℕ, zero, suc, Bool, true, false, List, [], ◌∷◌, Option, none, some, set, length}
use sippak.Prelude.Int.{ℤ, pos}
use sippak.CString.{Bytes}

-- `pj_status_t`: the codes that the program names itself, and any other that a library call gives.
pub data Status : Type 0 where
  success einval cli_einvarg : Status
  failure : ℕ → Status

-- How a call ends: it returns, it calls `exit`, or its behaviour is undefined (a null pointer is
-- followed, an array is written out of its bounds).
pub data Outcome {ℓ} (A : Type ℓ) : Type ℓ where
  ok : A → Outcome A
  exit : Status → Outcome A
  fault : Outcome A

infixl 5 ◌>>=◌
abbrev pub ◌>>=◌ {ℓ κ} : {A : Type ℓ} {B : Type κ} → Outcome A → (A → Outcome B) → Outcome B
ok a >>= f = f a
exit s >>= f = exit s
fault >>= f = fault

-- `pj_str_t`; `none` is the one with a null pointer.
abbrev pub PjStr : Type 0
PjStr = Option Bytes

abbrev pub slen : PjStr → ℕ
slen none = 0
slen (some b) = length b

-- The bytes that a `%.*s` prints.
abbrev pub text : PjStr → Bytes
text none = []
text (some b) = b

abbrev pub is_null : PjStr → Bool
is_null none = true
is_null (some b) = false

-- `app_command`
pub data Command : Type 0 where
  unknown help version ping publish subscribe notify register refer message invite : Command

pub data Proto : Type 0 where
  udp tcp : Proto

-- `sippak_evtype_e`
pub data EvType : Type 0 where
  unknown pres mwi other : EvType

-- `sippak_ctype_e`
pub data CType : Type 0 where
  unknown pidf xpidf mwi other : CType

-- `codec_e`
pub data Codec : Type 0 where
  speex ilbc gsm g711 g722 ipp g7221 l16 ocamr silk opus bcg729 all : Codec

-- The `PJ_LOG_HAS_...` bits of `log_decor` that the program sets.
pub record LogDecor : Type 0 where
  pub newline : Bool
  pub indent : Bool
  pub color : Bool
  pub time : Bool
  pub micro_sec : Bool
  pub level_text : Bool
  pub sender : Bool

pub record MediaType : Type 0 where
  pub type : PjStr
  pub subtype : PjStr

-- `codec` is an array of `NUM_CODECS_AVAIL`; `none` is the value 0, which is no codec.
pub record Media : Type 0 where
  pub cnt : ℕ
  pub codec : List (Option Codec)
  pub rtp_port : ℕ

-- `pjsip_generic_string_hdr`
pub record Header : Type 0 where
  pub name : Bytes
  pub value : Bytes

-- An array of pointers with its count.
pub record Array (A : Type 0) : Type 0 where
  pub cnt : ℕ
  pub slots : List (Option A)

pub record Config : Type 0 where
  pub cmd : Command
  pub log_level : ℤ
  pub log_decor : LogDecor
  pub trail_dot : Bool
  pub dest : PjStr
  pub nameservers : PjStr
  pub local_port : ℕ
  pub local_host : PjStr
  pub username : PjStr
  pub password : PjStr
  pub from_name : PjStr
  pub proto : Proto
  pub expires : ℕ
  pub pres_status_open : Bool
  pub pres_note : PjStr
  pub pres_ev : EvType
  pub event : PjStr
  pub ctype_e : CType
  pub ctype_media : MediaType
  pub is_mwi : Bool
  pub mwi : List ℤ
  pub mwi_acc : PjStr
  pub is_clist : Bool
  pub cancel_all_reg : Bool
  pub cancel : Bool
  pub contact : PjStr
  pub refer_to : PjStr
  pub body : PjStr
  pub media : Media
  pub user_agent : PjStr
  pub hdrs : Array Header
  pub proxy : Array Bytes

-- Constants of include/sippak.h.in.
abbrev pub max_ns_count : ℕ
max_ns_count = 3

abbrev pub min_log_level : ℕ
min_log_level = 3

abbrev pub max_len_pres_note : ℕ
max_len_pres_note = 64

abbrev pub sipmsg_body_len : ℕ
sipmsg_body_len = 2048

abbrev pub msg_body_len : ℕ
msg_body_len = 128

abbrev pub num_codecs_avail : ℕ
num_codecs_avail = 12

abbrev pub default_rtp_port : ℕ
default_rtp_port = 4000

abbrev pub max_custom_headers : ℕ
max_custom_headers = 12

abbrev pub max_proxy_headers : ℕ
max_proxy_headers = 12

-- `sippak_init`: what it does not name (the media type, the voice mail counts, the slots behind a
-- count) stays as it was.
unfoldable pub init : Config → Config
init app = record app {
  dest = none;
  log_level = pos min_log_level;
  cmd = ping;
  nameservers = none;
  log_decor = record {
    newline = true;
    indent = true;
    color = false;
    time = false;
    micro_sec = false;
    level_text = false;
    sender = false;
  };
  trail_dot = false;
  local_port = 0;
  local_host = none;
  username = none;
  password = none;
  from_name = none;
  proto = udp;
  expires = 3600;
  pres_status_open = true;
  pres_note = none;
  ctype_e = CType.unknown;
  pres_ev = EvType.unknown;
  event = none;
  mwi_acc = none;
  is_mwi = false;
  is_clist = false;
  cancel_all_reg = false;
  cancel = false;
  contact = none;
  refer_to = none;
  body = none;
  media = record {
    cnt = 1;
    codec = set app.media.codec 0 (some g711);
    rtp_port = default_rtp_port;
  };
  user_agent = none;
  hdrs = record { cnt = 0; slots = app.hdrs.slots };
  proxy = record { cnt = 0; slots = app.proxy.slots };
}

-- A write `a[i] = v`: undefined out of the array's bounds.
unfoldable pub write {ℓ} : {A : Type ℓ} → List A → ℕ → A → Outcome (List A)
write [] i v = fault
write (x ∷ xs) zero v = ok (v ∷ xs)
write (x ∷ xs) (suc i) v = do ys ← write xs i v; ok (x ∷ ys)
