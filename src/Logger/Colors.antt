-- ===== src/Logger/Colors.antt =====
-- The colours of the log of mod/logger.c.
use sippak.Prelude.{
  ℕ, suc, ◌-◌, ◌≡◌, refl, ap, ◌∙◌, Bool, true, false, List, [], ◌∷◌, ◌++◌, append-nil, Option, none,
  some, drop, replicate, if◌then◌else◌, not, length, leb, ◌==◌, ◌||◌,
}
use sippak.Prelude.Int.{ℤ, pos}
use sippak.CString.{Bytes, codes}
use sippak.Config.{Outcome, ok, exit, fault, ◌>>=◌, MediaType, slen}
use sippak.Logger.{
  Color, Output, set_color, default_color, printed, logged, Terminal, Sip, Field, call_id, other,
  StartLine, print_line, response, request, Msg, MsgBody, Packet, read, read_all, read_prec,
  find_colon, less, term_set_color, term_restore_color, print_split, print_generic_header,
  print_hdr_clid, headers_from, find_cid, print_sipmsg_headers, print_sipmsg_head, print_holder,
  print_content_len_hdr, print_content_type_hdr, print_sipmsg_body, packet_line, show,
  content_len_text, content_type_text, print_content, logging_on_rx_msg, logging_on_tx_msg,
}

-- The same without the changes of the colour.
abbrev pub no_color : List Output → List Output
no_color [] = []
no_color (set_color c ∷ os) = no_color os
no_color (default_color ∷ os) = no_color os
no_color (printed b ∷ os) = printed b ∷ no_color os
no_color (logged level b ∷ os) = logged level b ∷ no_color os

no_color-append : (xs ys : List Output) → no_color (xs ++ ys) ≡ no_color xs ++ no_color ys
no_color-append [] ys = refl
no_color-append (set_color c ∷ xs) ys = no_color-append xs ys
no_color-append (default_color ∷ xs) ys = no_color-append xs ys
no_color-append (printed b ∷ xs) ys = ap (◌∷◌ (printed b)) (no_color-append xs ys)
no_color-append (logged level b ∷ xs) ys = ap (◌∷◌ (logged level b)) (no_color-append xs ys)

abbrev pub map_outcome : {A B : Type 0} → (A → B) → Outcome A → Outcome B
map_outcome f (ok a) = ok (f a)
map_outcome f (exit s) = exit s
map_outcome f fault = fault

abbrev pub uncolor : Outcome (List Output) → Outcome (List Output)
uncolor = map_outcome no_color

-- Behind a computation that is the same in both runs, and behind one that is the same but for its
-- colours.
map_outcome-bind :
    {A B C : Type 0} (h : B → C) (r : Outcome A) (f : A → Outcome B) (g : A → Outcome C)
    → ((a : A) → map_outcome h (f a) ≡ g a)
    → map_outcome h (r >>= f) ≡ (r >>= g)
map_outcome-bind h (ok a) f g e = e a
map_outcome-bind h (exit s) f g e = refl
map_outcome-bind h fault f g e = refl

map_outcome-bind_map :
    {A B C D : Type 0} (k : A → D) (h : B → C) (o : Outcome A) {p : Outcome D} (f : A → Outcome B)
    (g : D → Outcome C)
    → map_outcome k o ≡ p
    → ((a : A) → map_outcome h (f a) ≡ g (k a))
    → map_outcome h (o >>= f) ≡ (p >>= g)
map_outcome-bind_map k h (ok a) f g same e = e a ∙ ap (λ o. o >>= g) same
map_outcome-bind_map k h (exit s) f g same e = ap (λ o. o >>= g) same
map_outcome-bind_map k h fault f g same e = ap (λ o. o >>= g) same

no_color-ite :
    (disabled has : Bool) (o : Output)
    → no_color (o ∷ []) ≡ []
    → no_color (if disabled then [] else if has then o ∷ [] else []) ≡ []
no_color-ite true has o e = refl
no_color-ite false true o e = e
no_color-ite false false o e = refl

no_color-if :
    (b : Bool) (xs : List Output)
    → no_color (if b then xs else []) ≡ (if b then no_color xs else [])
no_color-if true xs = refl
no_color-if false xs = refl

uncolor-if :
    (b : Bool) (xs ys : Outcome (List Output)) {xs' ys' : Outcome (List Output)}
    → uncolor xs ≡ xs'
    → uncolor ys ≡ ys'
    → uncolor (if b then xs else ys) ≡ (if b then xs' else ys')
uncolor-if true xs ys e f = e
uncolor-if false xs ys e f = f

module _ (t : Terminal) where
  -- The same with `ENABLE_COLORS` off.
  abbrev pub plain : Terminal
  plain = record t { enable_colors = false }

  no_color-set : (c : Color) → no_color (term_set_color t c) ≡ []
  unfolding term_set_color
  no_color-set c = no_color-ite (not t.enable_colors) t.has_color (set_color c) refl

  no_color-restore : no_color (term_restore_color t) ≡ term_restore_color plain
  unfolding term_restore_color
  no_color-restore = no_color-ite (not t.enable_colors) t.has_color default_color refl

ruleset colors = (no_color-append, no_color-set, no_color-restore, no_color-if, append-nil)

module _ (t : Terminal) where
  uncolor-print_split :
      (header : Bytes) (len : ℤ) (hname_len : Option ℕ)
      → uncolor (print_split t header len hname_len) ≡ print_split (plain t) header len hname_len
  unfolding print_split
  uncolor-print_split header len none = map_outcome-bind no_color (read_all header) _ _ λ h. refl
  uncolor-print_split header len (some hname_len) =
      map_outcome-bind no_color (read hname_len header) _ _ λ hname.
        map_outcome-bind no_color
          (read_prec (less len (suc hname_len)) (drop (suc hname_len) header)) _ _
          λ hval. ap ok (simp colors)

  uncolor-print_generic_header :
      (header : Bytes) (len : ℤ)
      → uncolor (print_generic_header t header len) ≡ print_generic_header (plain t) header len
  unfolding print_generic_header
  uncolor-print_generic_header header len =
      map_outcome-bind no_color (find_colon header) _ _ (uncolor-print_split header len)

  no_color-print_hdr_clid :
      (cid : Option (Bytes × Bytes))
      → no_color (print_hdr_clid t cid) ≡ print_hdr_clid (plain t) cid
  unfolding print_hdr_clid
  no_color-print_hdr_clid none = refl
  no_color-print_hdr_clid (some (name, id)) = simp colors

module _ (sip : Sip) (t : Terminal) where
  uncolor-headers_from :
      (cid : Option (Bytes × Bytes)) (value : Bytes) (hs : List (Field sip.Hdr))
      → uncolor (headers_from sip t cid value hs) ≡ headers_from sip (plain t) cid value hs
  unfolding headers_from
  uncolor-headers_from cid value [] = refl
  uncolor-headers_from cid value (call_id name id ∷ hs) =
      map_outcome-bind_map no_color no_color (headers_from sip t cid value hs) _ _
        (uncolor-headers_from cid value hs)
        λ rest. ap ok (
          no_color-append (print_hdr_clid t cid) rest
          ∙ ap (λ xs. xs ++ no_color rest) (no_color-print_hdr_clid t cid))
  uncolor-headers_from cid value (other h ∷ hs) =
      let (value', len) = sip.print_on h value in
      map_outcome-bind_map no_color no_color (print_generic_header t value' len) _ _
        (uncolor-print_generic_header t value' len)
        λ shown.
          map_outcome-bind_map no_color no_color (headers_from sip t cid value' hs) _ _
            (uncolor-headers_from cid value' hs) λ rest. ap ok (no_color-append shown rest)

  uncolor-print_line :
      (line : StartLine sip.Uri) → uncolor (print_line sip t line) ≡ print_line sip (plain t) line
  unfolding print_line
  uncolor-print_line (response code reason) = ap ok (simp colors)
  uncolor-print_line (request method uri) =
      let (uri_buf, uri_len) = sip.print_uri uri (replicate 128 0) in
      map_outcome-bind no_color (read_prec uri_len uri_buf) _ _ λ uri_text. ap ok (simp colors)

  uncolor-print_sipmsg_head :
      (msg : Msg sip) → uncolor (print_sipmsg_head sip t msg) ≡ print_sipmsg_head sip (plain t) msg
  unfolding print_sipmsg_head
  uncolor-print_sipmsg_head msg =
      map_outcome-bind_map no_color no_color (print_line sip t msg.line) _ _
        (uncolor-print_line msg.line) λ line. ap ok (simp colors)

  uncolor-print_holder : (b : Bytes) → uncolor (print_holder sip t b) ≡ print_holder sip (plain t) b
  unfolding print_holder
  uncolor-print_holder b =
      uncolor-if (leb (length b) 512) _ fault
        (uncolor-print_generic_header t (b ++ replicate (512 - length b) 0) (pos (length b))) refl

  uncolor-print_content_len_hdr :
      (len : ℕ)
      → uncolor (print_content_len_hdr sip t len) ≡ print_content_len_hdr sip (plain t) len
  unfolding print_content_len_hdr
  uncolor-print_content_len_hdr len = uncolor-print_holder (content_len_text sip len)

  uncolor-print_content_type_hdr :
      (type : MediaType)
      → uncolor (print_content_type_hdr sip t type) ≡ print_content_type_hdr sip (plain t) type
  unfolding print_content_type_hdr
  uncolor-print_content_type_hdr type =
      uncolor-if (slen type.type == 0 || slen type.subtype == 0) (ok []) _ refl
        (uncolor-print_holder (content_type_text sip type))

  uncolor-print_content :
      (type : MediaType) (content : Option Bytes) (is_tx : Bool)
      → uncolor (print_content sip t type content is_tx)
        ≡ print_content sip (plain t) type content is_tx
  unfolding print_content
  uncolor-print_content type none is_tx = refl
  uncolor-print_content type (some buf) is_tx =
      map_outcome-bind_map no_color no_color
        (if is_tx then print_content_type_hdr sip t type else ok []) _ _
        (uncolor-if is_tx _ (ok []) (uncolor-print_content_type_hdr type) refl)
        λ content_type.
          map_outcome-bind_map no_color no_color
            (if is_tx then print_content_len_hdr sip t (length buf) else ok []) _ _
            (uncolor-if is_tx _ (ok []) (uncolor-print_content_len_hdr (length buf)) refl)
            λ content_len.
              map_outcome-bind no_color (read (length buf) buf) _ _ λ shown. ap ok (simp colors)

  uncolor-print_sipmsg_body :
      (body : Option MsgBody) (is_tx : Bool)
      → uncolor (print_sipmsg_body sip t body is_tx) ≡ print_sipmsg_body sip (plain t) body is_tx
  unfolding print_sipmsg_body
  uncolor-print_sipmsg_body none is_tx =
      uncolor-if is_tx _ (ok []) (uncolor-print_content_len_hdr 0) refl
  uncolor-print_sipmsg_body (some body) is_tx = uncolor-print_content body.type body.content is_tx

  uncolor-show :
      (way preposition : Bytes) (p : Packet) (msg : Msg sip) (is_tx : Bool)
      → uncolor (show sip t (packet_line sip way preposition p) msg is_tx)
        ≡ show sip (plain t) (packet_line sip way preposition p) msg is_tx
  unfolding print_sipmsg_headers
  uncolor-show way preposition p msg is_tx =
      map_outcome-bind_map no_color no_color (print_sipmsg_head sip t msg) _ _
        (uncolor-print_sipmsg_head msg)
        λ head.
          map_outcome-bind_map no_color no_color (print_sipmsg_headers sip t msg) _ _
            (uncolor-headers_from (find_cid sip msg.hdrs) (replicate 512 0) msg.hdrs)
            λ headers.
              map_outcome-bind_map no_color no_color (print_sipmsg_body sip t msg.body is_tx) _ _
                (uncolor-print_sipmsg_body msg.body is_tx) λ body. ap ok (simp colors)

  -- Whether the log is in colour changes nothing else: without the changes of the colour, what is
  -- shown of a received and of a sent message, its result and its end are those of a terminal with
  -- the colours off.
  pub logging-no_color :
      (p : Packet) (msg : Msg sip)
      → (map_outcome (λ r. (r.0, no_color r.1)) (logging_on_rx_msg sip t p msg)
          ≡ logging_on_rx_msg sip (plain t) p msg)
        × (map_outcome (λ r. (r.0, no_color r.1)) (logging_on_tx_msg sip t p msg)
            ≡ logging_on_tx_msg sip (plain t) p msg)
  unfolding logging_on_rx_msg logging_on_tx_msg
  logging-no_color p msg = (
    map_outcome-bind_map no_color _
        (show sip t (packet_line sip (codes "RX ") (codes " from ") p) msg false) _ _
        (uncolor-show (codes "RX ") (codes " from ") p msg false) (λ out. refl),
    map_outcome-bind_map no_color _
        (show sip t (packet_line sip (codes "TX ") (codes " to ") p) msg true) _ _
        (uncolor-show (codes "TX ") (codes " to ") p msg true) (λ out. refl),
  )
