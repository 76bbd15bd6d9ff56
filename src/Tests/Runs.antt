-- ===== src/Tests/Runs.antt =====
-- Whole runs of the program, at a concrete pjsip.
use sippak.Prelude.{
  inl, inr, set, inr, arith, ℕ, ◌≡◌, refl, ap, true, List, [], ◌∷◌, map, Option, none, some, take,
  length,
}
use sippak.CString.{Bytes, codes, lower}
use sippak.Strings.Reference.{reference, reference-StringLaws, begins, same}
use sippak.Config.{success, ok, Config, Command, EvType, Codec, g711, Media, init}
use sippak.SipHelper.Requests.{
  str, contact_text, create_contact_hdr, create_reg_ruri, create_ruri, print_decimal,
  set_proxies_list,
}
use sippak.Dns.{Server, get_ns_list, system_resolv_ns}
use sippak.Getopts.Values.{parse_command_str}
use sippak.Getopts.Options.{getopts}
use sippak.Calls.{Library, value, faulted, function}
use sippak.Calls.Attempt.{call_of, onto, attempt, Does}
use sippak.Calls.Ends.{Ends, reached}
use sippak.Main.{World, no_servers, main}
use sippak.Main.Accepted.{DestGiven, ContactFits, DestParses, getopts-Prepared}
use sippak.Main.Success.{main-succeeds}
use sippak.Getopts.Safety.{IsSized}
use sippak.Main.Codecs.{getopts-register_codecs}
use sippak.Main.Prepared.{Prepared}
use sippak.Main.Plan.{main_plan, command_end, main-Ends}
use sippak.Session.Register.{RegResult}
use sippak.Media.Endpoint.{register_codecs}
use sippak.Media.Endpoint.Chosen.{register_plan}
use sippak.Media.{support_codec}
use sippak.Media.Choice.Distinct.{Distinct}
use sippak.Session.Subscribe.{set_sub_evtype}
use sippak.Commands.Dialogs.{cmd_subscribe}
use sippak.Commands.Clients.{cmd_register}
use sippak.Commands.Clients.Plan.{cmd_register_null}
use sippak.Commands.Dialogs.Plan.{subscribe_plan, cmd_subscribe-Does}
use sippak.Config.{Header, write}
use sippak.CString.{cut_at}
use sippak.Getopts.Table.{OptCode}
use sippak.Getopts.Options.{GetoptLong}
use sippak.Getopts.Headers.{add_custom_header, parse_header}
use sippak.Getopts.Headers.Laws.{Holds}
use sippak.Getopts.Sent.{getopts-on_tx_request}
use sippak.SipHelper.Mangler.{on_tx_request, Present, wanted}
use sippak.Tests.{messages, messages_lem, app0, uris0, build0, one_header}

abbrev lib0 : Library
lib0 = record {
  status = λ h. success;
  local_addr = codes "10.0.0.1";
  local_port = 5060;
  max_url = 256;
  parse_hdr = λ b. some b;
  media_type_print = λ t. none;
  pres_created = true;
}

-- "sippak REGISTER sip:bob"
abbrev pub argv0 : List Bytes
argv0 = codes "sippak" ∷ codes "REGISTER" ∷ codes "sip:bob" ∷ []

-- 200 OK
abbrev result0 : RegResult
result0 = record { code = 200; reason = codes "OK"; contact = [] }

abbrev pub world0 : World
world0 = record {
  lib = lib0;
  reports = record {
    chat = [];
    publish = [];
    subscribe = [];
    invite = [];
    register = (result0 ∷ []) ∷ [];
  };
  strings = reference;
  uris = uris0;
  build = build0;
  getopt_long = λ short long argv. ([], codes "REGISTER" ∷ codes "sip:bob" ∷ []);
  system = some [];
}

abbrev media1 : Media
media1 = record {
  cnt = 1;
  codec =
      some g711 ∷ none ∷ none ∷ none ∷ none ∷ none ∷ none ∷ none ∷ none ∷ none ∷ none ∷ none ∷ [];
  rtp_port = 4000;
}

-- What the command line leads to.
abbrev pub app1 : Config
app1 = record app0 {
  cmd = Command.register;
  dest = some (codes "sip:bob");
  username = none;
  password = none;
  media = media1;
  user_agent = none;
  hdrs = record { cnt = 0; slots = one_header.slots };
}

pub parsed1 :
    getopts reference uris0 build0 world0.getopt_long argv0 (init app0) ≡ ok (success, app1)
unfolding getopts init begins same lower parse_command_str
parsed1 = refl

pub contact1 :
    create_contact_hdr 256 app1 (codes "10.0.0.1") 5060
    ≡ ok (some (contact_text none (codes "10.0.0.1") 5060))
unfolding create_contact_hdr
contact1 = refl

pub reg_ruri1 : create_reg_ruri uris0 app1 ≡ ok (str (some (codes "sip:bob")))
unfolding create_reg_ruri begins
reg_ruri1 = refl

pub proxies1 : set_proxies_list lib0.parse_hdr app1 ≡ ok none
unfolding set_proxies_list
proxies1 = refl

abbrev pub prepared1 : Prepared world0 app1 Command.register
prepared1 = (
  record {
    dest = codes "sip:bob";
    given = refl;
    cnt = some (contact_text none (codes "10.0.0.1") 5060);
    contact = contact1;
  },
  record { routes = none; proxies = proxies1 },
  record { srv_url = str (some (codes "sip:bob")); reg_ruri = reg_ruri1 },
)

-- pjsip without the system's name servers.
abbrev no_ns : List (Option Server)
no_ns = no_servers

main-Ends_example :
    Ends lib0
      (main_plan world0 app1 prepared1 0 no_ns)
      (command_end world0 app1 Command.register)
      (main world0 argv0 app0)
unfolding get_ns_list system_resolv_ns
main-Ends_example = main-Ends world0 app1 prepared1 argv0 app0 parsed1 refl

pub reached1 : reached (function (main world0 argv0 app0) []).0 ≡ true
unfolding get_ns_list system_resolv_ns attempt
reached1 = ap (λ r. reached r.0) ((main-Ends world0 app1 prepared1 argv0 app0 parsed1 refl).runs [])

abbrev watcher : Config
watcher = record app1 { cmd = Command.subscribe; pres_ev = EvType.mwi }

contact2 :
    create_contact_hdr 256 watcher (codes "10.0.0.1") 5060
    ≡ ok (some (contact_text none (codes "10.0.0.1") 5060))
unfolding create_contact_hdr
contact2 = refl

cmd_subscribe-Does_example :
    Does lib0
      (subscribe_plan uris0 watcher (some (contact_text none (codes "10.0.0.1") 5060)) EvType.mwi)
      (cmd_subscribe lib0 uris0 watcher)
unfolding set_sub_evtype
cmd_subscribe-Does_example = cmd_subscribe-Does lib0 uris0 watcher refl contact2

cmd_register_null_example : (cmd_register lib0 uris0 app0 []).0 ≡ faulted
unfolding begins
cmd_register_null_example = cmd_register_null lib0 uris0 app0 [] (λ calls. refl) refl

has_g711 : support_codec build0 g711 ≡ true
unfolding support_codec
has_g711 = refl

getopts-register_codecs_example :
    (cs : List Codec) × Distinct cs
    × (take (length cs) media1.codec ≡ map some cs)
    × Does lib0 (register_plan 1 cs) (register_codecs lib0 build0 media1)
getopts-register_codecs_example =
    getopts-register_codecs world0 reference-StringLaws argv0 app0 refl has_g711 parsed1

contact_fits1 : ContactFits world0 app1
unfolding print_decimal
contact_fits1 = inr (omega arith)

dest_given1 : DestGiven world0 app1
dest_given1 = (codes "sip:bob", refl)

dest_parses1 : DestParses world0 app1
unfolding create_ruri begins
dest_parses1 = (_, refl)

abbrev sized0 : IsSized app0
sized0 = record { codecs = refl; hdrs = refl; proxy = refl }

getopts-Prepared_example : Prepared world0 app1 Command.register
getopts-Prepared_example =
    getopts-Prepared world0 reference-StringLaws argv0 app0 Command.register sized0 has_g711 parsed1
      (dest_given1, contact_fits1, dest_parses1)

main-succeeds_example :
    (p : Prepared world0 app1 Command.register) × (serv_num : ℕ) × (servers : List (Option Server))
    × (function (main world0 argv0 app0) []
        ≡ (value success, onto (map call_of (main_plan world0 app1 p serv_num servers)) []))
main-succeeds_example =
    main-succeeds world0 reference-StringLaws argv0 app0 sized0 has_g711 parsed1
      (dest_given1, contact_fits1, dest_parses1) (λ e. refl) refl (λ calls. refl) refl

-- "sippak -H 'X-A: 1' REGISTER sip:bob"
abbrev getopt2 : GetoptLong
getopt2 = λ short long argv.
    ((OptCode.header, some (codes "X-A: 1")) ∷ [], codes "REGISTER" ∷ codes "sip:bob" ∷ [])

abbrev app2 : Config
app2 = record app1 {
  hdrs = record {
    cnt = 1;
    slots = set one_header.slots 0 (some (record { name = codes "X-A"; value = codes "1" }));
  };
}

parsed2 : getopts reference uris0 build0 getopt2 argv0 (init app0) ≡ ok (success, app2)
unfolding getopts init begins same lower parse_command_str add_custom_header cut_at parse_header
    write
parsed2 = refl

-- What is kept for the header on the command line.
abbrev headers2 : List Header
headers2 = record { name = codes "X-A"; value = codes "1" } ∷ []

getopts-on_tx_request_example :
    Holds app2.hdrs headers2
    × (msg' : List Header) × (on_tx_request messages app2 [] ≡ ok (success, msg'))
    × Present messages_lem (wanted messages_lem app2 headers2) msg'
    × (on_tx_request messages app2 msg' ≡ ok (success, msg'))
unfolding parse_header cut_at
getopts-on_tx_request_example =
    getopts-on_tx_request reference uris0 build0 messages_lem getopt2 argv0 app0 refl parsed2
      (λ h. elim h [ inl e ↦ cc | inr e ↦ cc ]) []

-- "sippak -v"
abbrev nowhere : Config
nowhere = record app0 { cmd = Command.ping; dest = none }
