-- ===== src/Tests/Wire.antt =====
-- Codecs, name servers and requests at concrete texts.
use sippak.Prelude.{◌≡◌, ◌≢◌, refl, true, false, [], ◌∷◌, map, none, some}
use sippak.CString.{codes, lower}
use sippak.Strings.Reference.{reference, reference-StringLaws}
use sippak.Strings.Tokens.{tokens}
use sippak.Config.{Outcome, Media, Codec, gsm, g7221}
use sippak.Media.{support_codec, codec_str_parse}
use sippak.Media.Choice.Distinct.{Distinct}
use sippak.Media.Support.{built, support_codec-built}
use sippak.Media.Parse.{codec_str_parse-codec_name, codec_str_parse-ne-g7221}
use sippak.Dns.{server_of, Filled, parse_nameservers_string}
use sippak.Dns.{NsAddr, system_resolv_ns}
use sippak.Dns.System.{inet_servers, system_resolv_ns-Stored}
use sippak.Dns.Arrays.{Stored, parse_nameservers_string-Stored}
use sippak.Tests.{build0}

support_codec-built_example : support_codec build0 Codec.ocamr ≡ true
unfolding built
support_codec-built_example = support_codec-built build0 Codec.ocamr

codec_str_parse-codec_name_example : codec_str_parse reference (codes "GSM") ≡ some gsm
unfolding lower
codec_str_parse-codec_name_example =
    codec_str_parse-codec_name reference-StringLaws gsm (codes "GSM") (cc) refl

codec_str_parse-ne-g7221_example : codec_str_parse reference (codes "g722.1") ≢ some g7221
codec_str_parse-ne-g7221_example = codec_str_parse-ne-g7221 reference-StringLaws (codes "g722.1")

parse_nameservers_string-Stored_example :
    (r : Outcome Filled) × (parse_nameservers_string reference
        (codes "a:5,b,c,d")
        (none ∷ none ∷ none ∷ [])
      ≡ some r)
    × Stored (map (server_of reference) (tokens b',' (codes "a:5,b,c,d"))) r
parse_nameservers_string-Stored_example =
    parse_nameservers_string-Stored reference-StringLaws (codes "a:5,b,c,d") none none none

abbrev local : NsAddr
local = record { is_inet = true; addr_str = codes "127.0.0.1"; sin_port = 53 }

abbrev local6 : NsAddr
local6 = record { is_inet = false; addr_str = codes "::1"; sin_port = 53 }

system_resolv_ns-Stored_example :
    Stored
      (inet_servers (local6 ∷ local ∷ []))
      (system_resolv_ns (some (local6 ∷ local ∷ [])) (none ∷ none ∷ none ∷ []))
system_resolv_ns-Stored_example = system_resolv_ns-Stored (local6 ∷ local ∷ []) none none none
