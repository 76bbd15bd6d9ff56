-- ===== src/Logger/Transcript.antt =====
-- Whole messages, as the callbacks of mod/logger.c show them.
use sippak.Prelude.{
  ℕ, zero, suc, ◌+◌, ◌-◌, ◌/◌, ◌%◌, ◌≡◌, refl, Bool, true, false, ◌||◌, List, [], ◌∷◌, ◌++◌,
  append-nil, append_assoc, Option, none, some, replicate, length, length-append, All, leb, ◌==◌,
  if◌then◌else◌, Bool-cases, inl, inr, arith,
}
use sippak.Prelude.Int.{pos}
use sippak.CString.{Bytes, codes}
use sippak.Config.{success, Outcome, ok, MediaType, slen, text}
use sippak.Bodies.{print_int}
use sippak.SipHelper.Requests.{digits_onto, print_decimal}
use sippak.Logger.{
  blue, cyan, green, Output, Terminal, Sip, StartLine, response, request, Msg, MsgBody, Packet,
  read, find_cid, print_line, print_sipmsg_head, print_holder, content_len_text, content_type_text,
  print_content_len_hdr, print_content_type_hdr, print_content, print_sipmsg_body, packet_line,
  show, logging_on_rx_msg, logging_on_tx_msg,
}
use sippak.Logger.Lines.{
  Shows, nothing, then_text, Shows-append, ShowsAs, NotNul, NameByte, read-append, end_line,
  print_color-Shows, print_color-Shows_last, print_color-Shows_restored, ends-Shows,
  print_generic_header-ShowsAs,
}
use sippak.Logger.Headers.{
  Printable, header_lines, both-ShowsAs, ok-ShowsAs, print_sipmsg_headers-lines,
}

All-append : (P : ℕ → Type 0) (xs ys : Bytes) → All P xs → All P ys → All P (xs ++ ys)
All-append P [] ys p q = q
All-append P (x ∷ xs) ys p q = (p.0, All-append P xs ys p.1 q)

NotNul-digits_onto : (f n : ℕ) (out : Bytes) → All NotNul out → All NotNul (digits_onto f n out)
unfolding digits_onto
NotNul-digits_onto zero n out h = h
NotNul-digits_onto (suc f) n out h = elim (Bool-cases (n / 10 == 0)) [
  | inl e ↦ rw e (digit, h)
  | inr e ↦ rw e (NotNul-digits_onto f (n / 10) _ (digit, h))
]
  where
    digit : NotNul (b'0' + n % 10)
    digit = ground arith

NotNul-print_decimal : (n : ℕ) → All NotNul (print_decimal n)
unfolding print_decimal
NotNul-print_decimal n = NotNul-digits_onto (suc n) n [] tt

module _ (sip : Sip) (t : Terminal) where
  -- The URI of a request fits its buffer of 128 bytes.
  pub record UriPrints (uri : sip.Uri) : Type 0 where
    pub text : Bytes
    pub in_text : All NotNul text
    pub behind : Bytes
    pub written : sip.print_uri uri (replicate 128 0) ≡ (text ++ behind, pos (length text))

  abbrev pub LinePrints : StartLine sip.Uri → Type 0
  LinePrints (response code reason) = Unit
  LinePrints (request method uri) = UriPrints uri

  abbrev pub start_line : (line : StartLine sip.Uri) → LinePrints line → Bytes
  start_line (response code reason) p =
      codes "SIP/2.0 " ++ ((print_int code ++ codes " ") ++ reason)
  start_line (request method uri) p =
      (method ++ codes " ") ++ ((p.text ++ codes " ") ++ codes "SIP/2.0")

  print_line-ShowsAs :
      (line : StartLine sip.Uri) (p : LinePrints line)
      → ShowsAs (print_line sip t line) (start_line line p)
  unfolding print_line
  print_line-ShowsAs (response code reason) p = ok-ShowsAs (
      print_color-Shows t blue (codes "SIP/2.0 ") (
        print_color-Shows t cyan (print_int code ++ codes " ")
          (print_color-Shows_last t green reason)))
  print_line-ShowsAs (request method uri) p = record {
    out = _;
    runs = rw (p.written, read-append p.text p.behind p.in_text) refl;
    shows = print_color-Shows t blue (method ++ codes " ") (
        print_color-Shows t cyan (p.text ++ codes " ")
          (print_color-Shows_last t green (codes "SIP/2.0")));
  }

  print_sipmsg_head-ShowsAs :
      (msg : Msg sip) (p : LinePrints msg.line)
      → ShowsAs (print_sipmsg_head sip t msg) (start_line msg.line p ++ end_line t)
  unfolding print_sipmsg_head
  print_sipmsg_head-ShowsAs msg p =
      both-ShowsAs (print_line-ShowsAs msg.line p) (ok-ShowsAs (ends-Shows t))

  print_holder-ShowsAs :
      (name value : Bytes)
      → All NameByte name
      → All NotNul value
      → leb (length (name ++ (b':' ∷ value))) 512 ≡ true
      → ShowsAs
          (print_holder sip t (name ++ (b':' ∷ value)))
          (name ++ (b':' ∷ (value ++ end_line t)))
  unfolding print_holder
  print_holder-ShowsAs name value in_name in_value fits =
      let zeros = replicate (512 - (length name + suc (length value))) 0 in
      let shown = print_generic_header-ShowsAs t name value zeros in_name in_value in
      let whole : (name ++ (b':' ∷ value)) ++ zeros ≡ name ++ (b':' ∷ (value ++ zeros)) =
        append_assoc name (b':' ∷ value) zeros in
      rw (fits, length-append name (b':' ∷ value), whole) shown

  -- The lines that the module adds: Content-Type, if the body has one, and Content-Length.
  abbrev pub len_line : ℕ → Bytes
  len_line n = sip.content_length ++ (b':' ∷ ((32 ∷ print_decimal n) ++ end_line t))

  abbrev pub type_line : MediaType → Bytes
  type_line type =
      if slen type.type == 0 || slen type.subtype == 0
      then []
      else sip.content_type
        ++ (b':' ∷ ((32 ∷ (text type.type ++ (codes "/" ++ text type.subtype))) ++ end_line t))

  -- They fit the holder of 512 bytes, and hold no NUL.
  pub record Fits (type : MediaType) (n : ℕ) : Type 0 where
    pub len_name : All NameByte sip.content_length
    pub type_name : All NameByte sip.content_type
    pub in_type : All NotNul (text type.type)
    pub in_subtype : All NotNul (text type.subtype)
    pub len_fits : leb (length (content_len_text sip n)) 512 ≡ true
    pub type_fits : leb (length (content_type_text sip type)) 512 ≡ true

  print_content_len_hdr-ShowsAs :
      {type : MediaType} (n : ℕ)
      → Fits type n
      → ShowsAs (print_content_len_hdr sip t n) (len_line n)
  unfolding print_content_len_hdr
  print_content_len_hdr-ShowsAs n p =
      print_holder-ShowsAs sip.content_length (32 ∷ print_decimal n) p.len_name
        (refl, NotNul-print_decimal n) p.len_fits

  print_content_type_hdr-ShowsAs :
      (type : MediaType) {n : ℕ}
      → Fits type n
      → ShowsAs (print_content_type_hdr sip t type) (type_line type)
  unfolding print_content_type_hdr
  print_content_type_hdr-ShowsAs type p =
      elim (Bool-cases (slen type.type == 0 || slen type.subtype == 0)) [
        | inl e ↦ rw e (ok-ShowsAs nothing)
        | inr e ↦ rw e (
            print_holder-ShowsAs sip.content_type
              (32 ∷ (text type.type ++ (codes "/" ++ text type.subtype))) p.type_name
              (refl, All-append NotNul (text type.type) _ p.in_type (refl, p.in_subtype))
              p.type_fits)
      ]

  if-ShowsAs :
      (b : Bool) {o : Outcome (List Output)} {a : Bytes}
      → ShowsAs o a
      → ShowsAs (if b then o else ok []) (if b then a else [])
  if-ShowsAs true p = p
  if-ShowsAs false p = ok-ShowsAs nothing

  -- A message without a body, or with one that `print_body` puts into its buffer.
  pub record ContentPrints (body : MsgBody) : Type 0 where
    pub content : Bytes
    pub given : body.content ≡ some content
    pub in_content : All NotNul content
    pub fits : Fits body.type (length content)

  abbrev no_type : MediaType
  no_type = record { type = none; subtype = none }

  abbrev pub BodyPrints : Option MsgBody → Type 0
  BodyPrints none = Fits no_type 0
  BodyPrints (some body) = ContentPrints body

  abbrev pub body_lines : (body : Option MsgBody) → BodyPrints body → Bool → Bytes
  body_lines none p is_tx = if is_tx then len_line 0 else []
  body_lines (some body) p is_tx =
      (if is_tx then type_line body.type else [])
      ++ ((if is_tx then len_line (length p.content) else []) ++ (10 ∷ (p.content ++ (10 ∷ []))))

  print_sipmsg_body-ShowsAs :
      (body : Option MsgBody) (p : BodyPrints body) (is_tx : Bool)
      → ShowsAs (print_sipmsg_body sip t body is_tx) (body_lines body p is_tx)
  unfolding print_sipmsg_body print_content
  print_sipmsg_body-ShowsAs none p is_tx = if-ShowsAs is_tx (print_content_len_hdr-ShowsAs 0 p)
  print_sipmsg_body-ShowsAs (some body) p is_tx =
      let type = if-ShowsAs is_tx (print_content_type_hdr-ShowsAs body.type p.fits) in
      let len = if-ShowsAs is_tx (print_content_len_hdr-ShowsAs (length p.content) p.fits) in
      let whole : read (length p.content) p.content ≡ ok p.content =
        rw (append-nil p.content) at (read-append p.content [] p.in_content) in
      record {
        out = _;
        runs = rw (p.given, type.runs, len.runs, whole) refl;
        shows = Shows-append type.shows (
            Shows-append len.shows
              (print_color-Shows_restored t cyan (10 ∷ (p.content ++ (10 ∷ [])))));
      }

  -- A message that pjsip can print to the module's buffers.
  pub record MsgPrints (msg : Msg sip) : Type 0 where
    pub line : LinePrints msg.line
    pub cid : Bytes × Bytes
    pub has_cid : find_cid sip msg.hdrs ≡ some cid
    pub hdrs : All (Printable sip) msg.hdrs
    pub body : BodyPrints msg.body

  -- The start line, the headers, the body with its headers, and an empty line.
  abbrev pub transcript : (msg : Msg sip) → MsgPrints msg → Bool → Bytes
  transcript msg p is_tx =
      (start_line msg.line p.line ++ end_line t)
      ++ (header_lines sip t p.cid msg.hdrs p.hdrs
          ++ (body_lines msg.body p.body is_tx ++ (10 ∷ [])))

  show-transcript :
      (front : Output) (msg : Msg sip) (p : MsgPrints msg) (is_tx : Bool)
      → (out : List Output) × (show sip t front msg is_tx ≡ ok (front ∷ out))
        × Shows out (transcript msg p is_tx)
  show-transcript front msg p is_tx =
      let head = print_sipmsg_head-ShowsAs msg p.line in
      let headers = print_sipmsg_headers-lines sip t p.cid msg p.hdrs p.has_cid in
      let body = print_sipmsg_body-ShowsAs msg.body p.body is_tx in
      (
        _,
        rw (head.runs, headers.runs, body.runs) refl,
        Shows-append head.shows
            (Shows-append headers.shows (Shows-append body.shows (then_text (10 ∷ []) nothing))),
      )

  -- If the message has a Call-ID, and its URI, its body and each other header fit the buffers of the
  -- module, the headers with a colon behind the name, all without a NUL, both callbacks let the message
  -- pass, write one line about the packet to the log, and then show the start line, each header on its
  -- line and the body, then an empty line. A message that is sent, and no other, also gets the lines
  -- Content-Type, where its body has a type, and Content-Length with the number of bytes of the body.
  pub logging-transcript :
      (packet : Packet) (msg : Msg sip) (p : MsgPrints msg)
      → ((out : List Output) × (logging_on_rx_msg sip t packet msg
            ≡ ok (false, packet_line sip (codes "RX ") (codes " from ") packet ∷ out))
          × Shows out (transcript msg p false))
        × ((out : List Output) × (logging_on_tx_msg sip t packet msg
              ≡ ok (success, packet_line sip (codes "TX ") (codes " to ") packet ∷ out))
            × Shows out (transcript msg p true))
  unfolding logging_on_rx_msg logging_on_tx_msg
  logging-transcript packet msg p =
      let (rx, rx_runs, rx_shows) =
        show-transcript (packet_line sip (codes "RX ") (codes " from ") packet) msg p false in
      let (tx, tx_runs, tx_shows) =
        show-transcript (packet_line sip (codes "TX ") (codes " to ") packet) msg p true in
      ((rx, rw rx_runs refl, rx_shows), (tx, rw tx_runs refl, tx_shows))
