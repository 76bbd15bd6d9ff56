-- ===== src/Tests/Logs.antt =====
-- What is logged, at concrete messages.
use sippak.Prelude.{
  ◌≡◌, refl, true, false, List, [], ◌∷◌, ◌++◌, some, replicate, drop, length, length-drop, leb,
  arith,
}
use sippak.Prelude.Int.{ℤ, pos}
use sippak.CString.{Bytes, codes}
use sippak.Config.{success, ok}
use sippak.SipHelper.Requests.{print_decimal, digits_onto}
use sippak.Logger.{
  Output, Terminal, Sip, call_id, other, request, Msg, Packet, content_len_text, packet_line,
  logging_on_rx_msg, logging_on_tx_msg,
}
use sippak.Logger.Colors.{plain, no_color, map_outcome, logging-no_color}
use sippak.Logger.Lines.{Shows}
use sippak.Logger.Headers.{Prints}
use sippak.Logger.Transcript.{MsgPrints, transcript, logging-transcript}

-- A header that fits the buffer.
data Hdr0 : Type 0 where
  via : Hdr0

abbrev behind0 : Bytes → Bytes
behind0 b = 0 ∷ drop 7 b

abbrev print_on0 : Hdr0 → Bytes → Bytes × ℤ
print_on0 via b = (codes "Via: x" ++ behind0 b, pos 6)

abbrev sip0 : Sip
sip0 = record {
  Hdr = Hdr0;
  Uri = Bytes;
  print_on = print_on0;
  print_uri = λ u b. (u ++ replicate 121 0, pos 7);
  content_length = codes "Content-Length";
  content_type = codes "Content-Type";
}

size0 : (b : Bytes) → length b ≡ 512 → length (codes "Via: x" ++ behind0 b) ≡ 512
size0 b size = omega (arith, length-drop 7 b)

abbrev via-Prints : Prints sip0 via
via-Prints = record {
  name = codes "Via";
  value = codes " x";
  in_name = ((refl, refl), ((refl, refl), ((refl, refl), tt)));
  in_value = (refl, (refl, tt));
  behind = behind0;
  written = λ b size. refl;
  size = size0;
}

abbrev terminal0 : Terminal
terminal0 = record { enable_colors = true; print_trail = true; has_color = true }

abbrev msg0 : Msg sip0
msg0 = record {
  line = request (codes "MESSAGE") (codes "sip:bob");
  hdrs = call_id (codes "Call-ID") (codes "7") ∷ other via ∷ [];
  body = some (record {
    type = record { type = some (codes "text"); subtype = some (codes "plain") };
    content = some (codes "hi");
  });
}

abbrev packet0 : Packet
packet0 = record {
  len = pos 99;
  info = codes "Request msg MESSAGE";
  type_name = codes "UDP";
  name = codes "10.0.0.2";
  port = pos 5060;
}

logging-no_color_example :
    (map_outcome (λ r. (r.0, no_color r.1)) (logging_on_rx_msg sip0 terminal0 packet0 msg0)
      ≡ logging_on_rx_msg sip0 (plain terminal0) packet0 msg0)
    × (map_outcome (λ r. (r.0, no_color r.1)) (logging_on_tx_msg sip0 terminal0 packet0 msg0)
        ≡ logging_on_tx_msg sip0 (plain terminal0) packet0 msg0)
logging-no_color_example = logging-no_color sip0 terminal0 packet0 msg0

len_fits0 : leb (length (content_len_text sip0 2)) 512 ≡ true
unfolding print_decimal digits_onto
len_fits0 = refl

abbrev printed0 : MsgPrints sip0 terminal0 msg0
printed0 = record {
  line = record {
    text = codes "sip:bob";
    in_text = (refl, (refl, (refl, (refl, (refl, (refl, (refl, tt)))))));
    behind = replicate 121 0;
    written = refl;
  };
  cid = (codes "Call-ID", codes "7");
  has_cid = refl;
  hdrs = (tt, (via-Prints, tt));
  body = record {
    content = codes "hi";
    given = refl;
    in_content = (refl, (refl, tt));
    fits = record {
      len_name = (
        (refl, refl),
        (
          (refl, refl),
          (
            (refl, refl),
            (
              (refl, refl),
              (
                (refl, refl),
                (
                  (refl, refl),
                  (
                    (refl, refl),
                    (
                      (refl, refl),
                      (
                        (refl, refl),
                        (
                          (refl, refl),
                          ((refl, refl), ((refl, refl), ((refl, refl), ((refl, refl), tt)))),
                        ),
                      ),
                    ),
                  ),
                ),
              ),
            ),
          ),
        ),
      );
      type_name = (
        (refl, refl),
        (
          (refl, refl),
          (
            (refl, refl),
            (
              (refl, refl),
              (
                (refl, refl),
                (
                  (refl, refl),
                  (
                    (refl, refl),
                    (
                      (refl, refl),
                      ((refl, refl), ((refl, refl), ((refl, refl), ((refl, refl), tt)))),
                    ),
                  ),
                ),
              ),
            ),
          ),
        ),
      );
      in_type = (refl, (refl, (refl, (refl, tt))));
      in_subtype = (refl, (refl, (refl, (refl, (refl, tt)))));
      len_fits = len_fits0;
      type_fits = refl;
    };
  };
}

logging-transcript_example :
    ((out : List Output) × (logging_on_rx_msg sip0 terminal0 packet0 msg0
        ≡ ok (false, packet_line sip0 (codes "RX ") (codes " from ") packet0 ∷ out))
      × Shows out (transcript sip0 terminal0 msg0 printed0 false))
    × ((out : List Output) × (logging_on_tx_msg sip0 terminal0 packet0 msg0
          ≡ ok (success, packet_line sip0 (codes "TX ") (codes " to ") packet0 ∷ out))
        × Shows out (transcript sip0 terminal0 msg0 printed0 true))
logging-transcript_example = logging-transcript sip0 terminal0 packet0 msg0 printed0
