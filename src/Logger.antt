-- ===== src/Logger.antt =====
-- mod/logger.c and mod/logger.h: the module that shows each SIP message on the terminal.
pub mod Colors
pub mod Lines
pub mod Headers
pub mod Transcript
use sippak.Prelude.{
  ℕ, zero, suc, ◌+◌, ◌-◌, Bool, true, false, not, ◌&&◌, ◌||◌, List, [], ◌∷◌, ◌++◌, Option, none,
  some, length, drop, replicate, leb, ◌==◌, if◌then◌else◌,
}
use sippak.Prelude.Int.{ℤ, pos, negsuc, sub_ℕ}
use sippak.CString.{Bytes, codes}
use sippak.Config.{
  Status, success, Outcome, ok, exit, fault, ◌>>=◌, PjStr, slen, text, MediaType, LogDecor, Config,
  sipmsg_body_len,
}
use sippak.SipHelper.Requests.{print_decimal}
use sippak.Bodies.{print_int}

pub data Color : Type 0 where
  bright_white blue cyan green red yellow bright_blue : Color

-- What goes to the terminal: a change of the colour, back to the default (`pj_log_get_color(77)`), a
-- text, and a line for `PJ_LOG` at its level.
pub data Output : Type 0 where
  set_color : Color → Output
  default_color : Output
  printed : Bytes → Output
  logged : ℕ → Bytes → Output

-- `ENABLE_COLORS` and `PRINT_TRAIL_CHR`, and pjlib's `PJ_TERM_HAS_COLOR`.
pub record Terminal : Type 0 where
  pub enable_colors : Bool
  pub print_trail : Bool
  pub has_color : Bool

-- What the module takes from pjsip. `print_on` and `print_uri` write to the buffer that they get and
-- give a length or -1; `content_length` and `content_type` are names of `pjsip_hdr_names`.
pub record Sip : Type 1 where
  pub Hdr : Type 0
  pub Uri : Type 0
  pub print_on : Hdr → Bytes → Bytes × ℤ
  pub print_uri : Uri → Bytes → Bytes × ℤ
  pub content_length : Bytes
  pub content_type : Bytes

-- A header is of type `PJSIP_H_CALL_ID`, with its name and value, or another.
pub data Field (Hdr : Type 0) : Type 0 where
  call_id : (name id : Bytes) → Field Hdr
  other : Hdr → Field Hdr

pub data StartLine (Uri : Type 0) : Type 0 where
  response : (code : ℤ) → (reason : Bytes) → StartLine Uri
  request : (method : Bytes) → Uri → StartLine Uri

-- `pjsip_msg_body`; `content` is what its `print_body` writes to a buffer of `SIPMSG_BODY_LEN`,
-- `none` where it gives -1.
pub record MsgBody : Type 0 where
  pub type : MediaType
  pub content : Option Bytes

pub record Msg (sip : Sip) : Type 0 where
  pub line : StartLine sip.Uri
  pub hdrs : List (Field sip.Hdr)
  pub body : Option MsgBody

-- `rdata` or `tdata`: the number of bytes, `pjsip_..._get_info`, and the other end.
pub record Packet : Type 0 where
  pub len : ℤ
  pub info : Bytes
  pub type_name : Bytes
  pub name : Bytes
  pub port : ℤ

-- `%.*s` reads up to this many bytes, or to a NUL; a text that goes on past its array is read out of
-- bounds.
abbrev pub consed : ℕ → Outcome Bytes → Outcome Bytes
consed c (ok b) = ok (c ∷ b)
consed c (exit s) = exit s
consed c fault = fault

unfoldable pub read : ℕ → Bytes → Outcome Bytes
read zero b = ok []
read (suc n) [] = fault
read (suc n) (c ∷ cs) = if c == 0 then ok [] else consed c (read n cs)

-- `%s`
abbrev pub read_all : Bytes → Outcome Bytes
read_all b = read (suc (length b)) b

-- With a precision: a negative one counts as none.
abbrev pub read_prec : ℤ → Bytes → Outcome Bytes
read_prec (pos n) b = read n b
read_prec (negsuc n) b = read_all b

-- `strchr(header, ':')`, as an index.
abbrev pub later : Outcome (Option ℕ) → Outcome (Option ℕ)
later (ok (some i)) = ok (some (suc i))
later (ok none) = ok none
later (exit s) = exit s
later fault = fault

unfoldable pub find_colon : Bytes → Outcome (Option ℕ)
find_colon [] = fault
find_colon (c ∷ cs) =
    let rest = find_colon cs in
    if c == b':' then ok (some 0) else if c == 0 then ok none else later rest

-- `len - n`
abbrev pub less : ℤ → ℕ → ℤ
less (pos n) k = sub_ℕ n k
less (negsuc n) k = negsuc (n + k)

module _ (t : Terminal) where
  unfoldable pub term_set_color : Color → List Output
  term_set_color level =
      if not t.enable_colors then [] else if t.has_color then set_color level ∷ [] else []

  unfoldable pub term_restore_color : List Output
  term_restore_color =
      if not t.enable_colors then [] else if t.has_color then default_color ∷ [] else []

  -- `PRINT_COLOR`
  abbrev pub print_color : Color → Bytes → List Output
  print_color color b = term_set_color color ++ (printed b ∷ [])

  unfoldable pub print_trail_chr : List Output
  unfolding term_set_color
  print_trail_chr =
      (if t.print_trail then print_color bright_white (b'.' ∷ []) else [])
      ++ (printed (10 ∷ []) ∷ [])

  -- `print_generic_header` behind its `strchr`.
  unfoldable pub print_split : Bytes → ℤ → Option ℕ → Outcome (List Output)
  unfolding read print_trail_chr term_restore_color term_set_color
  print_split header len none =
      read_all header >>= λ h. ok (logged 1 (codes "Invalid SIP header: " ++ h) ∷ [])
  print_split header len (some hname_len) = do
    hname ← read hname_len header
    hval ← read_prec (less len (suc hname_len)) (drop (suc hname_len) header)
    ok (
        print_color green hname
        ++ (print_color red (codes ":")
            ++ (print_color yellow hval ++ (print_trail_chr ++ term_restore_color))))

  unfoldable pub print_generic_header : Bytes → ℤ → Outcome (List Output)
  unfolding find_colon print_split
  print_generic_header header len = find_colon header >>= print_split header len

  unfoldable pub print_hdr_clid : Option (Bytes × Bytes) → List Output
  unfolding print_trail_chr term_restore_color term_set_color
  print_hdr_clid none = logged 1 (codes "Failed to extract Call-ID header!") ∷ []
  print_hdr_clid (some (name, id)) =
      print_color green name
      ++ (print_color red (codes ": ")
          ++ (print_color bright_blue id ++ (print_trail_chr ++ term_restore_color)))

module _ (sip : Sip) where
  -- `PJSIP_MSG_CID_HDR`: the first header of that type.
  abbrev pub find_cid : List (Field sip.Hdr) → Option (Bytes × Bytes)
  find_cid [] = none
  find_cid (call_id name id ∷ hs) = some (name, id)
  find_cid (other h ∷ hs) = find_cid hs

  -- The loop of `print_sipmsg_headers`, with its buffer `value`.
  unfoldable pub headers_from :
      Terminal → Option (Bytes × Bytes) → Bytes → List (Field sip.Hdr) → Outcome (List Output)
  unfolding print_generic_header print_hdr_clid
  headers_from t cid value [] = ok []
  headers_from t cid value (call_id name id ∷ hs) = do
    rest ← headers_from t cid value hs
    ok (print_hdr_clid t cid ++ rest)
  headers_from t cid value (other h ∷ hs) = do
    shown ← print_generic_header t (sip.print_on h value).0 (sip.print_on h value).1
    rest ← headers_from t cid (sip.print_on h value).0 hs
    ok (shown ++ rest)

  unfoldable pub print_sipmsg_headers : Terminal → Msg sip → Outcome (List Output)
  unfolding headers_from
  print_sipmsg_headers t msg = headers_from t (find_cid msg.hdrs) (replicate 512 0) msg.hdrs

  -- The two branches of `print_sipmsg_head`.
  unfoldable pub print_line : Terminal → StartLine sip.Uri → Outcome (List Output)
  unfolding term_set_color read print_int
  print_line t (response code reason) = ok (
      print_color t blue (codes "SIP/2.0 ")
      ++ (print_color t cyan (print_int code ++ codes " ") ++ print_color t green reason))
  print_line t (request method uri) = do
    let (uri_buf, uri_len) = sip.print_uri uri (replicate 128 0)
    uri_text ← read_prec uri_len uri_buf
    ok (
        print_color t blue (method ++ codes " ")
        ++ (print_color t cyan (uri_text ++ codes " ") ++ print_color t green (codes "SIP/2.0")))

  unfoldable pub print_sipmsg_head : Terminal → Msg sip → Outcome (List Output)
  unfolding print_line term_restore_color print_trail_chr
  print_sipmsg_head t msg = do
    line ← print_line t msg.line
    ok (line ++ (print_trail_chr t ++ term_restore_color t))

  -- A text that `pj_strcat` put together in a holder of 512 zero bytes.
  unfoldable pub print_holder : Terminal → Bytes → Outcome (List Output)
  unfolding print_generic_header
  print_holder t str_hdr =
      if leb (length str_hdr) 512
      then print_generic_header t (str_hdr ++ replicate (512 - length str_hdr) 0)
          (pos (length str_hdr))
      else fault

  abbrev pub content_len_text : ℕ → Bytes
  content_len_text len = sip.content_length ++ (codes ": " ++ print_decimal len)

  abbrev pub content_type_text : MediaType → Bytes
  content_type_text type =
      sip.content_type ++ (codes ": " ++ (text type.type ++ (codes "/" ++ text type.subtype)))

  unfoldable pub print_content_len_hdr : Terminal → ℕ → Outcome (List Output)
  unfolding print_holder print_decimal
  print_content_len_hdr t len = print_holder t (content_len_text len)

  unfoldable pub print_content_type_hdr : Terminal → MediaType → Outcome (List Output)
  unfolding print_holder
  print_content_type_hdr t type =
      if slen type.type == 0 || slen type.subtype == 0
      then ok []
      else print_holder t (content_type_text type)

  -- The body that `print_body` gives, and its type.
  unfoldable pub print_content : Terminal → MediaType → Option Bytes → Bool → Outcome (List Output)
  unfolding print_content_len_hdr print_content_type_hdr read term_set_color term_restore_color
  print_content t type none is_tx = ok (
      logged 1 (
        codes "ERROR in logger.c: Message body buffer is too short ("
        ++ (print_decimal sipmsg_body_len ++ codes ")."))
      ∷ [])
  print_content t type (some buf) is_tx = do
    content_type ← if is_tx then print_content_type_hdr t type else ok []
    content_len ← if is_tx then print_content_len_hdr t (length buf) else ok []
    shown ← read (length buf) buf
    ok (
        content_type
        ++ (content_len
            ++ (print_color t cyan (10 ∷ (shown ++ (10 ∷ []))) ++ term_restore_color t)))

  unfoldable pub print_sipmsg_body : Terminal → Option MsgBody → Bool → Outcome (List Output)
  unfolding print_content_len_hdr print_content
  print_sipmsg_body t none is_tx = if is_tx then print_content_len_hdr t 0 else ok []
  print_sipmsg_body t (some body) is_tx = print_content t body.type body.content is_tx

  -- The line in front of a message.
  abbrev pub packet_line : Bytes → Bytes → Packet → Output
  packet_line way preposition p = logged 3 (
      way
      ++ (print_int p.len
          ++ (codes " bytes "
              ++ (p.info
                  ++ (preposition
                      ++ (p.type_name
                          ++ (codes " "
                              ++ (p.name ++ (codes ":" ++ (print_int p.port ++ codes ":\n"))))))))))

  -- What the two callbacks do with the message between that line and their result.
  abbrev pub show : Terminal → Output → Msg sip → Bool → Outcome (List Output)
  show t front msg is_tx = do
    head ← print_sipmsg_head t msg
    headers ← print_sipmsg_headers t msg
    body ← print_sipmsg_body t msg.body is_tx
    ok (front ∷ (head ++ (headers ++ (body ++ (printed (10 ∷ []) ∷ [])))))

  -- The result `PJ_FALSE`: pjsip goes on with the other modules.
  unfoldable pub logging_on_rx_msg : Terminal → Packet → Msg sip → Outcome (Bool × List Output)
  unfolding print_sipmsg_head print_sipmsg_headers print_sipmsg_body
  logging_on_rx_msg t rdata msg = do
    out ← show t (packet_line (codes "RX ") (codes " from ") rdata) msg false
    ok (false, out)

  unfoldable pub logging_on_tx_msg : Terminal → Packet → Msg sip → Outcome (Status × List Output)
  unfolding print_sipmsg_head print_sipmsg_headers print_sipmsg_body
  logging_on_tx_msg t tdata msg = do
    out ← show t (packet_line (codes "TX ") (codes " to ") tdata) msg true
    ok (success, out)

-- What `sippak_mod_logger_register` keeps of the configuration.
unfoldable pub mod_logger_register : (has_color : Bool) → Config → Terminal
mod_logger_register has_color app = record {
  enable_colors = app.log_decor.color;
  print_trail = app.trail_dot;
  has_color = has_color;
}
