-- ===== src/Main/Accepted.antt =====
-- The requests behind a command line that app/getopts.c accepts.
use sippak.Prelude.{
  ap, ◌∙◌, ◌-◌, take, ℕ, ◌+◌, ◌≤◌, ◌<◌, ◌≡◌, refl, Bool, true, false, List, [], ◌∷◌, ◌++◌, Option,
  none, some, length, map, ltb, leb, ◌==◌, ◌⊎◌, inl, inr, Bool-cases, arith,
}
use sippak.Prelude.Int.{ℤ}
use sippak.CString.{Bytes}
use sippak.Strings.{StringLaws}
use sippak.Config.{
  Status, MediaType, ok, ◌>>=◌, PjStr, slen, text, Command, Config, init, g711, sipmsg_body_len,
}
use sippak.Bodies.{
  body_of, Body, add_event_hdr, add_body_msg, summary_text, through_buffer, text_body,
}
use sippak.SipHelper.Requests.{
  print_decimal, ruri, create_contact_hdr, routes_loop, push_back, set_proxies_list,
}
use sippak.SipHelper.Requests.Laws.{create_contact_hdr-fits, create_reg_ruri-given}
use sippak.Media.{support_codec}
use sippak.Media.Endpoint.Chosen.{register_plan-quiet}
use sippak.Dns.{NsAddr, Server, get_ns_list, system_resolv_ns}
use sippak.Dns.Arrays.{parse_nameservers_string-Stored}
use sippak.Dns.System.{system_resolv_ns-Stored}
use sippak.Getopts.Options.{getopts, settle}
use sippak.Getopts.Safety.{IsSized}
use sippak.Getopts.Arrays.{HasProxies, HasCounts, getopts-HasProxies, getopts-HasCounts}
use sippak.Main.{World, no_servers}
use sippak.Main.Codecs.{getopts-register_codecs}
use sippak.Main.Prepared.{HasContact, HasRoutes, HasServer, HasBody, HasCodecs, Prepared}

module _ (world : World) (app : Config) where
  -- There is a destination on the command line.
  abbrev pub DestGiven : Type 0
  DestGiven = (dest : Bytes) × (app.dest ≡ some dest)

  -- The Contact header is on the command line, or the one that is made fits its buffer with a NUL.
  abbrev pub ContactFits : Type 0
  ContactFits =
      (0 < slen app.contact)
      ⊎ (6
            + slen app.username
            + length world.lib.local_addr
            + length (print_decimal world.lib.local_port)
          < world.lib.max_url)

  -- The request URI of the destination parses.
  abbrev pub DestParses : Type 0
  DestParses = (uri : world.uris.Uri) × (world.uris.parse (text (ruri world.uris app)) ≡ some uri)

  -- The summary of the voice mail counts is no longer than its buffer.
  abbrev pub SummaryFits : Type 0
  SummaryFits =
      (new old urgent_new urgent_old : ℤ)
      → app.mwi ≡ new ∷ old ∷ urgent_new ∷ urgent_old ∷ []
      → length (summary_text app.mwi_acc new old urgent_new urgent_old) ≤ sipmsg_body_len

  -- What is asked of the values on the command line, by the command.
  abbrev pub Feasible : Command → Type 0
  Feasible Command.ping = DestGiven × ContactFits
  Feasible Command.refer = DestGiven × ContactFits
  Feasible Command.subscribe = DestGiven × ContactFits
  Feasible Command.notify = DestGiven × ContactFits × SummaryFits
  Feasible Command.publish = DestGiven × ContactFits
  Feasible Command.register = DestGiven × ContactFits × DestParses
  Feasible Command.invite = DestGiven × ContactFits
  Feasible Command.message = DestGiven
  Feasible _ = Unit

  ContactFits-HasContact : DestGiven → ContactFits → HasContact world app
  unfolding create_contact_hdr
  ContactFits-HasContact (dest, given) fits = elim (Bool-cases (ltb 0 (slen app.contact))) [
    | inl on_line ↦ record {
      dest = dest;
      given = given;
      cnt = app.contact;
      contact = rw on_line refl;
    }
    | inr not_given ↦
        let none_given : slen app.contact ≡ 0 = ground arith in
        let short : ltb
              (6
                + slen app.username
                + length world.lib.local_addr
                + length (print_decimal world.lib.local_port))
              world.lib.max_url
            ≡ true =
          ground arith in
        record {
          dest = dest;
          given = given;
          cnt = _;
          contact = rw short at (
              create_contact_hdr-fits world.lib.max_url app world.lib.local_addr
                world.lib.local_port none_given);
        }
  ]

  DestParses-HasServer : DestGiven → DestParses → HasServer world app
  DestParses-HasServer (dest, given) (uri, e) = record {
    srv_url = _;
    reg_ruri = create_reg_ruri-given world.uris app given e;
  }

routes_loop-map :
    {Route : Type 0} (parse_hdr : Bytes → Option Route) (proxies : List Bytes)
    (rest : List (Option Bytes))
    → (routes : List Route) × (routes_loop parse_hdr (length proxies) (map some proxies ++ rest)
        ≡ ok routes)
unfolding routes_loop
routes_loop-map parse_hdr [] rest = ([], refl)
routes_loop-map parse_hdr (p ∷ ps) rest =
    let (routes, e) = routes_loop-map parse_hdr ps rest in
    (_, ap (λ o. o >>= λ routes. ok (push_back parse_hdr (parse_hdr p) routes)) e)

HasProxies-HasRoutes : (world : World) (app : Config) → HasProxies app → HasRoutes world app
unfolding set_proxies_list
HasProxies-HasRoutes world app (proxies, h) = elim (Bool-cases (app.proxy.cnt == 0)) [
  | inl e ↦ record { routes = none; proxies = rw e refl }
  | inr e ↦
      let (routes, r) = routes_loop-map world.lib.parse_hdr proxies h.rest in
      record {
        routes = some routes;
        proxies = rw (e, h.slots, h.cnt) (ap (λ o. o >>= λ routes. ok (some routes)) r);
      }
]

event_counts :
    (app : Config)
    → let app' = (add_event_hdr app).0 in
      (app'.is_mwi ≡ app.is_mwi) × (app'.mwi ≡ app.mwi) × (app'.mwi_acc ≡ app.mwi_acc)
unfolding add_event_hdr
event_counts app = ground arith

through_buffer-ok :
    (printed : Bytes)
    → length printed ≤ sipmsg_body_len
    → (b : Bytes) × (through_buffer printed ≡ ok b)
unfolding through_buffer
through_buffer-ok printed h = elim (Bool-cases (ltb (length printed) sipmsg_body_len)) [
  | inl e ↦ (printed, rw e refl)
  | inr e ↦
      let e' : leb (length printed) sipmsg_body_len ≡ true = ground arith in
      (take (sipmsg_body_len - 1) printed ++ (0 ∷ []), rw (e, e') refl)
]

module _ (media_type_print : MediaType → Option Bytes) (created : Bool) (app : Config) where
  without_counts :
      app.is_mwi ≡ false → (body : Body) × (add_body_msg media_type_print created app ≡ ok body)
  unfolding add_body_msg
  without_counts e = (body_of media_type_print created app app.ctype_e, rw e refl)

  with_counts :
      {new old urgent_new urgent_old : ℤ}
      → app.is_mwi ≡ true
      → app.mwi ≡ new ∷ old ∷ urgent_new ∷ urgent_old ∷ []
      → length (summary_text app.mwi_acc new old urgent_new urgent_old) ≤ sipmsg_body_len
      → (body : Body) × (add_body_msg media_type_print created app ≡ ok body)
  unfolding add_body_msg
  with_counts {new} {old} {urgent_new} {urgent_old} given counts fits =
      let (b, printed) =
        through_buffer-ok (summary_text app.mwi_acc new old urgent_new urgent_old) fits in
      (text_body app.ctype_media b, rw (given, counts, printed) refl)

SummaryFits-HasBody :
    (world : World) (app : Config) → HasCounts app → SummaryFits world app → HasBody world app
SummaryFits-HasBody world app counted fits =
    let (is_mwi, mwi, mwi_acc) = event_counts app in
    let (body, made) : (body : Body) × (add_body_msg world.lib.media_type_print
            world.lib.pres_created (add_event_hdr app).0
          ≡ ok body) =
      elim (Bool-cases app.is_mwi) [
        | inl e ↦
            let (a, b, c, d, counts) = counted e in
            with_counts _ _ _ (is_mwi ∙ e) (mwi ∙ counts) (rw mwi_acc (fits a b c d counts))
        | inr e ↦ without_counts _ _ _ (is_mwi ∙ e)
      ] in
    record { body = body; made = made }

-- The name servers of the command line or of the system.
pub get_ns_list-returns :
    (world : World) (laws : StringLaws world.strings) (nameservers : PjStr)
    → (serv_num : ℕ) × (servers : List (Option Server)) × (settle
          (get_ns_list world.strings world.system nameservers no_servers)
        ≡ ok (serv_num, servers))
unfolding get_ns_list system_resolv_ns
get_ns_list-returns world laws none = from_system world.system
  where
    from_system :
        (system : Option (List NsAddr))
        → (serv_num : ℕ) × (servers : List (Option Server)) × (system_resolv_ns system no_servers
            ≡ ok (serv_num, servers))
    from_system none = (0, no_servers, refl)
    from_system (some addrs) =
        let stored = system_resolv_ns-Stored addrs none none none in
        (stored.ns_idx, stored.slots, stored.returns)
get_ns_list-returns world laws (some nameservers) =
    let (r, e, stored) = parse_nameservers_string-Stored laws nameservers none none none in
    (stored.ns_idx, stored.slots, ap settle e ∙ stored.returns)

-- If the arrays have their sizes, the build has G.711 and the string functions do what they are
-- documented to, then every command line that `sippak_getopts` accepts, with values that meet
-- `Feasible`, leads to a request that can be built, whichever the command: the proxies stand in their array with their count, the voice mail
-- counts are four and every codec is one of the build. What is asked of the values is `Feasible`: for
-- a command with a request that a destination is given, for all of these but MESSAGE that the Contact
-- header fits its buffer, for NOTIFY that the summary of any voice mail counts fits its own, and for
-- REGISTER that the destination parses.
pub getopts-Prepared :
    (world : World) (laws : StringLaws world.strings) (argv : List Bytes) (app : Config)
    {s : Status} {app' : Config} (cmd : Command)
    → IsSized app
    → support_codec world.build g711 ≡ true
    → getopts world.strings world.uris world.build world.getopt_long argv (init app) ≡ ok (s, app')
    → Feasible world app' cmd
    → Prepared world app' cmd
getopts-Prepared world laws argv app {app' = app'} cmd z g parsed feasible = by_command cmd feasible
  where
    routes : HasRoutes world app'
    routes =
        HasProxies-HasRoutes world app'
          (getopts-HasProxies laws world.uris world.build world.getopt_long argv app parsed z.proxy)

    codecs : HasCodecs world app'
    codecs =
        let (cs, distinct, slots, does) =
          getopts-register_codecs world laws argv app z.codecs g parsed in
        record { codecs = _; media = does; quiet = register_plan-quiet app'.media.cnt cs }

    by_command : (cmd : Command) → Feasible world app' cmd → Prepared world app' cmd
    by_command Command.ping f = ContactFits-HasContact world app' f.0 f.1
    by_command Command.refer f = ContactFits-HasContact world app' f.0 f.1
    by_command Command.subscribe f = ContactFits-HasContact world app' f.0 f.1
    by_command Command.notify f = (
      ContactFits-HasContact world app' f.0 f.1,
      SummaryFits-HasBody world app'
          (getopts-HasCounts laws world.uris world.build world.getopt_long argv app parsed) f.2,
    )
    by_command Command.publish f = (ContactFits-HasContact world app' f.0 f.1, routes)
    by_command Command.register f =
        (ContactFits-HasContact world app' f.0 f.1, routes, DestParses-HasServer world app' f.0 f.2)
    by_command Command.invite f = (ContactFits-HasContact world app' f.0 f.1, routes, codecs)
    by_command Command.message f = record { dest = f.0; given = f.1 }
    by_command Command.help f = tt
    by_command Command.version f = tt
    by_command Command.unknown f = tt
