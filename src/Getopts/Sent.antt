-- ===== src/Getopts/Sent.antt =====
-- The headers of the command line (app/getopts.c) in the requests (mod/sip_mangler.c).
use mathlib.Core.Path.{subst}
use sippak.Prelude.{
  ◌+◌, ◌≡◌, refl, sym, ap, ◌∙◌, ◌⊎◌, List, [], ◌∷◌, ◌++◌, Option, none, some, length, ltb, Bool,
  true, false, if◌then◌else◌, Bool-cases, Option-cases, inl, inr, arith,
}
use sippak.CString.{Bytes}
use sippak.Strings.{Strings}
use sippak.Uris.{Uris}
use sippak.Media.{Build}
use sippak.Strings.Loop.{next, stop}
use sippak.Config.{
  Status, Command, success, exit, ◌>>=◌, Outcome, ok, fault, PjStr, Header, Config, init,
  max_custom_headers,
}
use sippak.Getopts.Values.{set_content_type, set_event}
use sippak.Getopts.Headers.{push, parse_header, add_custom_header}
use sippak.Getopts.Headers.Laws.{Holds, push_room, push_full}
use sippak.Getopts.Table.{OptCode, header, optstring, long_opts}
use sippak.Getopts.Options.{
  Round, next_round, opts_loop, finish_opts, GetoptLong, apply_opt, parse_argv_left,
  post_parse_setup, follow_mwi, default_username, getopts,
}
use sippak.SipHelper.Mangler.{
  Messages, MessageLaws, on_tx_request, Present, wanted, on_tx_request-idempotent,
}

-- The headers that an option adds, and those of all options, in order.
abbrev to_list : Option Header → List Header
to_list none = []
to_list (some hdr) = hdr ∷ []

abbrev is_header : OptCode → Bool
is_header header = true
is_header _ = false

abbrev pub header_option : Strings → OptCode × PjStr → List Header
header_option lib (c, none) = []
header_option lib (c, some a) = if is_header c then to_list (parse_header lib a) else []

abbrev pub header_options : Strings → List (OptCode × PjStr) → List Header
header_options lib [] = []
header_options lib (o ∷ opts) = header_option lib o ++ header_options lib opts

abbrev pub Informs : Config → Type 0
Informs app = (app.cmd ≡ Command.help) ⊎ (app.cmd ≡ Command.version)

-- A round leaves these headers in the array, or ends the loop for help or version, or with an error.
abbrev Stores : List Header → Round → Type 0
Stores hs fault = Unit
Stores hs (exit s) = Unit
Stores hs (ok (stop (s, app))) = s ≡ success → Informs app
Stores hs (ok (next app)) = Holds app.hdrs hs

append_nil : (hs : List Header) → hs ++ [] ≡ hs
append_nil [] = refl
append_nil (h ∷ hs) = ap (◌∷◌ h) (append_nil hs)

append_assoc : (xs ys zs : List Header) → (xs ++ ys) ++ zs ≡ xs ++ (ys ++ zs)
append_assoc [] ys zs = refl
append_assoc (x ∷ xs) ys zs = ap (◌∷◌ x) (append_assoc xs ys zs)

module _ (lib : Strings) (uris : Uris) (build : Build) where
  header-Stores :
      (a : Bytes) (app : Config) (hs : List Header)
      → Holds app.hdrs hs
      → Stores (hs ++ to_list (parse_header lib a)) (apply_opt lib uris build header (some a) app)
  unfolding apply_opt add_custom_header
  header-Stores a app hs h = elim (Bool-cases (ltb max_custom_headers app.hdrs.cnt)) [
    | inl full ↦
        let at_most : length hs + length h.rest ≡ 12 = h.size in
        let cnt : app.hdrs.cnt ≡ length hs = h.cnt in absurd (ground arith)
    | inr guard ↦ elim (Option-cases (parse_header lib a)) [
      | inl e ↦ rw (guard, e) (λ s. cc)
      | inr (hdr, e) ↦ elim (Bool-cases (ltb (length hs) 12)) [
        | inl room ↦
            let (hdrs', stored, h') = push_room hdr h (ground arith) in rw (guard, e, stored) h'
        | inr full ↦
            let at_most : length hs + length h.rest ≡ 12 = h.size in
            let over : push hdr app.hdrs ≡ fault = push_full hdr h (ground arith) in
            rw (guard, e, over) tt
      ]
    ]
  ]

  -- An option that adds nothing.
  unchanged :
      (c : OptCode) (arg : PjStr) (app : Config) (hs : List Header)
      → Holds app.hdrs hs
      → header_option lib (c, arg) ≡ []
      → Stores hs (apply_opt lib uris build c arg app)
  unfolding apply_opt set_content_type set_event
  unchanged header (some a) app hs h e =
      subst (λ l. Stores l (apply_opt lib uris build header (some a) app))
        (ap (λ l. hs ++ l) e ∙ append_nil hs) (header-Stores a app hs h)
  unchanged OptCode.help arg app hs h e = λ s. inl refl
  unchanged OptCode.version arg app hs h e = λ s. inr refl
  unchanged OptCode.verbose none app hs h e = h
  unchanged _ none app hs h e = ground arith
  unchanged _ (some a) app hs h e = ground arith

  header_or_not :
      (c : OptCode) (arg : PjStr)
      → ((a : Bytes) × ◌≡◌ {A = OptCode × PjStr} (header, some a) (c, arg))
        ⊎ (header_option lib (c, arg) ≡ [])
  header_or_not header (some a) = inl (a, refl)
  header_or_not _ none = inr refl
  header_or_not _ (some a) = inr refl

  apply_opt-Stores :
      (c : OptCode) (arg : PjStr) (app : Config) (hs : List Header)
      → Holds app.hdrs hs
      → Stores (hs ++ header_option lib (c, arg)) (apply_opt lib uris build c arg app)
  apply_opt-Stores c arg app hs h = elim (header_or_not c arg) [
    | inl (a, same) ↦
        subst (λ o. Stores (hs ++ header_option lib o) (apply_opt lib uris build o.0 o.1 app)) same
          (header-Stores a app hs h)
    | inr e ↦
        subst (λ l. Stores l (apply_opt lib uris build c arg app))
          (sym (ap (λ l. hs ++ l) e ∙ append_nil hs)) (unchanged c arg app hs h e)
  ]

  next_round-Stores :
      (rest : Config → Round) (hs hs' : List Header) (r : Round)
      → Stores hs r
      → ((app : Config) → Holds app.hdrs hs → Stores hs' (rest app))
      → Stores hs' (next_round rest r)
  next_round-Stores rest hs hs' fault k f = tt
  next_round-Stores rest hs hs' (exit s) k f = tt
  next_round-Stores rest hs hs' (ok (stop r)) k f = k
  next_round-Stores rest hs hs' (ok (next app)) k f = f app k

  opts_loop-Stores :
      (opts : List (OptCode × PjStr)) (app : Config) (hs : List Header)
      → Holds app.hdrs hs
      → Stores (hs ++ header_options lib opts) (opts_loop lib uris build opts app)
  unfolding opts_loop
  opts_loop-Stores [] app hs h = rw (append_nil hs) h
  opts_loop-Stores ((c, arg) ∷ opts) app hs h =
      let added = hs ++ header_option lib (c, arg) in
      rw⁻¹ (append_assoc hs (header_option lib (c, arg)) (header_options lib opts)) (
        next_round-Stores _ added _ (apply_opt lib uris build c arg app)
          (apply_opt-Stores c arg app hs h) (λ app' h'. opts_loop-Stores opts app' added h'))

  left_over :
      (args : List Bytes) (app : Config) → (parse_argv_left lib uris build args app).hdrs ≡ app.hdrs
  unfolding parse_argv_left
  left_over [] app = refl
  left_over (a ∷ []) app = refl
  left_over (a ∷ b ∷ args) app = refl

  setup : (app app' : Config) → post_parse_setup lib uris build app ≡ ok app' → app'.hdrs ≡ app.hdrs
  unfolding post_parse_setup follow_mwi default_username
  setup app app' e = ground arith

  abbrev with_success : Config → Outcome (Status × Config)
  with_success app = ok (success, app)

  settled :
      (o : Outcome Config) {app : Config} → (o >>= with_success) ≡ ok (success, app) → o ≡ ok app
  settled (ok a) e = cc
  settled (exit s) e = cc
  settled fault e = cc

  finish_opts-Stores :
      (args : List Bytes) (r : Round) (hs : List Header) {app' : Config}
      → Stores hs r
      → (r >>= finish_opts lib uris build args) ≡ ok (success, app')
      → ¬ Informs app'
      → Holds app'.hdrs hs
  unfolding finish_opts
  finish_opts-Stores args fault hs k e n = cc
  finish_opts-Stores args (exit s) hs k e n = cc
  finish_opts-Stores args (ok (stop (s, app))) hs {app'} k e n =
      let same : app ≡ app' = cc in
      let fine : s ≡ success = cc in absurd (n (subst Informs same (k fine)))
  finish_opts-Stores args (ok (next app)) hs {app'} k e n =
      subst (λ hdrs. Holds hdrs hs)
        (sym (
          setup (parse_argv_left lib uris build args app) app'
            (settled (post_parse_setup lib uris build (parse_argv_left lib uris build args app)) e)
          ∙ left_over args app))
        k

  getopts-Holds :
      (getopt_long : GetoptLong) (argv : List Bytes) (app : Config) (hs : List Header)
      {app' : Config}
      → Holds app.hdrs hs
      → getopts lib uris build getopt_long argv app ≡ ok (success, app')
      → ¬ Informs app'
      → Holds app'.hdrs (hs ++ header_options lib (getopt_long optstring long_opts argv).0)
  unfolding getopts
  getopts-Holds getopt_long (program ∷ []) app hs {app'} h e n =
      let helped : Config = record app { cmd = Command.help } in
      let same : helped ≡ app' = cc in absurd (n (subst Informs same (inl refl)))
  getopts-Holds getopt_long argv app hs h e n =
      let (opts, args) = getopt_long optstring long_opts argv in
      finish_opts-Stores args (opts_loop lib uris build opts app) _ (opts_loop-Stores opts app hs h)
        e n

  -- After a command line that `sippak_getopts` returns from with success and that asks for neither help
  -- nor version, the array holds the headers of the `-H` options, all of them in order, and
  -- `on_tx_request` returns with success for every request that is about to be sent: the request then
  -- has a header of the name of each of them and, if a user agent is set, User-Agent, and doing the
  -- same to it again changes nothing.
  pub getopts-on_tx_request :
      {messages : Messages} (laws : MessageLaws messages) (getopt_long : GetoptLong)
      (argv : List Bytes) (app : Config) {app' : Config}
      → length app.hdrs.slots ≡ 12
      → getopts lib uris build getopt_long argv (init app) ≡ ok (success, app')
      → ¬ Informs app'
      → (msg : messages.Msg)
      → let headers = header_options lib (getopt_long optstring long_opts argv).0 in
        Holds app'.hdrs headers
        × (msg' : messages.Msg) × (on_tx_request messages app' msg ≡ ok (success, msg'))
        × Present laws (wanted laws app' headers) msg'
        × (on_tx_request messages app' msg' ≡ ok (success, msg'))
  unfolding init
  getopts-on_tx_request laws getopt_long argv app {app' = app'} size parsed request msg =
      let none_yet : Holds (init app).hdrs [] = record {
        rest = app.hdrs.slots;
        slots = refl;
        cnt = refl;
        size = omega (arith, size);
      } in
      let h = getopts-Holds getopt_long argv (init app) [] none_yet parsed request in
      let (msg', first, present, again) = on_tx_request-idempotent laws app' _ msg h in
      (h, msg', first, present, again)
