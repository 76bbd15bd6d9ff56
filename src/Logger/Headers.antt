-- ===== src/Logger/Headers.antt =====
-- The headers of a message, as `print_sipmsg_headers` of mod/logger.c shows them.
use sippak.Prelude.{suc, ◌+◌, ◌≡◌, refl, List, [], ◌∷◌, ◌++◌, some, replicate, length, All}
use sippak.Prelude.Int.{pos}
use sippak.CString.{Bytes, codes}
use sippak.Config.{Outcome, ok, ◌>>=◌}
use sippak.Logger.{
  Output, Terminal, Sip, Field, call_id, other, Msg, headers_from, find_cid, print_sipmsg_headers,
}
use sippak.Logger.Lines.{
  Shows, nothing, Shows-append, ShowsAs, NotNul, NameByte, end_line, print_generic_header-ShowsAs,
  print_hdr_clid-Shows,
}

-- pjsip prints the header to the front of the 512 bytes, as its name, a colon and the rest, and gives
-- its length.
pub record Prints (sip : Sip) (h : sip.Hdr) : Type 0 where
  pub name : Bytes
  pub value : Bytes
  pub in_name : All NameByte name
  pub in_value : All NotNul value
  pub behind : Bytes → Bytes
  pub written :
      (b : Bytes)
      → length b ≡ 512
      → sip.print_on h b
        ≡ (name ++ (b':' ∷ (value ++ behind b)), pos (length name + suc (length value)))
  pub size : (b : Bytes) → length b ≡ 512 → length (name ++ (b':' ∷ (value ++ behind b))) ≡ 512

abbrev pub Printable : (sip : Sip) → Field sip.Hdr → Type 0
Printable sip (call_id name id) = Unit
Printable sip (other h) = Prints sip h

-- One line for each header, in order; for a Call-ID, the first one of the message.
abbrev pub header_lines :
    (sip : Sip)
    → Terminal
    → Bytes × Bytes
    → (hs : List (Field sip.Hdr)) → All (Printable sip) hs
    → Bytes
header_lines sip t cid [] ps = []
header_lines sip t cid (call_id name id ∷ hs) ps =
    (cid.0 ++ (codes ": " ++ (cid.1 ++ end_line t))) ++ header_lines sip t cid hs ps.1
header_lines sip t cid (other h ∷ hs) ps =
    (ps.0.name ++ (b':' ∷ (ps.0.value ++ end_line t))) ++ header_lines sip t cid hs ps.1

-- One computation behind another.
pub both-ShowsAs :
    {o p : Outcome (List Output)} {a b : Bytes}
    → ShowsAs o a
    → ShowsAs p b
    → ShowsAs (o >>= λ xs. p >>= λ ys. ok (xs ++ ys)) (a ++ b)
both-ShowsAs x y = record {
  out = x.out ++ y.out;
  runs = rw (x.runs, y.runs) refl;
  shows = Shows-append x.shows y.shows;
}

pub ok-ShowsAs : {out : List Output} {b : Bytes} → Shows out b → ShowsAs (ok out) b
ok-ShowsAs {out} p = record { out = out; runs = refl; shows = p }

module _ (sip : Sip) (t : Terminal) (cid : Bytes × Bytes) where
  headers_from-ShowsAs :
      (hs : List (Field sip.Hdr)) (ps : All (Printable sip) hs) (value : Bytes)
      → length value ≡ 512
      → ShowsAs (headers_from sip t (some cid) value hs) (header_lines sip t cid hs ps)
  unfolding headers_from
  headers_from-ShowsAs [] ps value size = ok-ShowsAs nothing
  headers_from-ShowsAs (call_id name id ∷ hs) ps value size =
      both-ShowsAs (ok-ShowsAs (print_hdr_clid-Shows t cid.0 cid.1))
        (headers_from-ShowsAs hs ps.1 value size)
  headers_from-ShowsAs (other h ∷ hs) ps value size = rw (ps.0.written value size) (
      both-ShowsAs
        (print_generic_header-ShowsAs t ps.0.name ps.0.value (ps.0.behind value) ps.0.in_name
          ps.0.in_value)
        (headers_from-ShowsAs hs ps.1 _ (ps.0.size value size)))

  -- If the message has a Call-ID and pjsip prints each other header to the buffer with a colon behind
  -- its name, the log of the headers is one line for each of them, in their order, with the name, the
  -- value and the end of the line, whatever the colours and whatever an earlier header left in the
  -- buffer.
  pub print_sipmsg_headers-lines :
      (msg : Msg sip) (ps : All (Printable sip) msg.hdrs)
      → find_cid sip msg.hdrs ≡ some cid
      → ShowsAs (print_sipmsg_headers sip t msg) (header_lines sip t cid msg.hdrs ps)
  unfolding print_sipmsg_headers
  print_sipmsg_headers-lines msg ps found =
      rw found (headers_from-ShowsAs msg.hdrs ps (replicate 512 0) refl)
