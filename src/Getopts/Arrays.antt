-- ===== src/Getopts/Arrays.antt =====
-- The proxies and the voice mail counts behind the parse of the command line in app/getopts.c.
use sippak.Prelude.{
  ◌+◌, ◌≡◌, refl, true, List, [], ◌∷◌, ◌++◌, Option, none, some, length, map, take, ltb, Bool-cases,
  inl, inr, arith,
}
use sippak.Prelude.Int.{ℤ, to_int}
use sippak.CString.{Bytes}
use sippak.Strings.{Strings, StringLaws}
use sippak.Strings.Loop.{next}
use sippak.Strings.Tokens.{tokens}
use sippak.Uris.{Uris}
use sippak.Media.{Build}
use sippak.Config.{Status, ok, fault, ◌>>=◌, PjStr, Config, init, max_proxy_headers}
use sippak.Getopts.Values.{set_content_type, set_event}
use sippak.Getopts.Headers.{push, skip_spaces, proxy_uri, add_proxy}
use sippak.Getopts.Headers.Laws.{Holds, push_room, push_full}
use sippak.Getopts.Lists.{set_mwi_list_lem}
use sippak.Getopts.Table.{OptCode, proxy, mwi}
use sippak.Getopts.Options.{
  GetoptLong, apply_opt, parse_argv_left, post_parse_setup, follow_mwi, default_username, getopts,
}
use sippak.Getopts.Rounds.{Keeps, IsInvariant, getopts-IsInvariant}

-- The first slots of the array hold the proxies.
abbrev pub HasProxies : Config → Type 0
HasProxies app = (proxies : List Bytes) × Holds app.proxy proxies

-- With `--mwi`, there are four counts.
abbrev pub HasCounts : Config → Type 0
HasCounts app =
    app.is_mwi ≡ true
    → (new old urgent_new urgent_old : ℤ) × (app.mwi ≡ new ∷ old ∷ urgent_new ∷ urgent_old ∷ [])

take_four :
    {A : Type 0} (xs : List A) (a b c d : A)
    → (p q r s : A) × (take 4 (xs ++ (a ∷ b ∷ c ∷ d ∷ [])) ≡ p ∷ q ∷ r ∷ s ∷ [])
take_four [] a b c d = (a, b, c, d, refl)
take_four (x ∷ []) a b c d = (x, a, b, c, refl)
take_four (x ∷ y ∷ []) a b c d = (x, y, a, b, refl)
take_four (x ∷ y ∷ z ∷ []) a b c d = (x, y, z, a, refl)
take_four (x ∷ y ∷ z ∷ w ∷ xs) a b c d = (x, y, z, w, refl)

module _ {lib : Strings} (laws : StringLaws lib) (uris : Uris) (build : Build) where
  -- Room or not, the array holds what is pushed, or the program is not defined.
  push-Keeps :
      (app : Config) (uri : Bytes)
      → HasProxies app
      → Keeps HasProxies
          (push uri app.proxy >>= λ proxies. ok (next (record app { proxy = proxies })))
  push-Keeps app uri (ps, h) = elim (Bool-cases (ltb (length ps) 12)) [
    | inl room ↦
        let (proxies', e, h') = push_room uri h (ground arith) in rw e (ps ++ (uri ∷ []), h')
    | inr full ↦
        let at_most : length ps + length h.rest ≡ 12 = h.size in
        let e : push uri app.proxy ≡ fault = push_full uri h (ground arith) in rw e tt
  ]

  stored-Keeps :
      (app : Config) (uri : Option Bytes)
      → HasProxies app
      → Keeps HasProxies (
          (elim uri [ none ↦ ok app.proxy | some u ↦ push u app.proxy ]) >>= λ proxies.
          ok (next (record app { proxy = proxies })))
  stored-Keeps app none k = k
  stored-Keeps app (some uri) k = push-Keeps app uri k

  proxy-Keeps :
      (a : Bytes) (app : Config)
      → HasProxies app
      → Keeps HasProxies (apply_opt lib uris build proxy (some a) app)
  unfolding apply_opt add_proxy
  proxy-Keeps a app k = elim (Bool-cases (ltb max_proxy_headers app.proxy.cnt)) [
    | inl full ↦ rw full k
    | inr room ↦ rw room (stored-Keeps app (proxy_uri lib uris app.proxy.cnt (skip_spaces lib a)) k)
  ]

  proxies-Keeps :
      (c : OptCode) (arg : PjStr) (app : Config)
      → HasProxies app
      → Keeps HasProxies (apply_opt lib uris build c arg app)
  unfolding apply_opt set_content_type set_event
  proxies-Keeps proxy (some a) app k = proxy-Keeps a app k
  proxies-Keeps OptCode.verbose none app k = ground arith
  proxies-Keeps _ none app k = ground arith
  proxies-Keeps _ (some a) app k = ground arith

  content_type-counts :
      (a : Bytes) (app : Config)
      → ((set_content_type lib app a).is_mwi ≡ app.is_mwi)
        × ((set_content_type lib app a).mwi ≡ app.mwi)
  unfolding set_content_type
  content_type-counts a app = ground arith

  counts-Keeps :
      (c : OptCode) (arg : PjStr) (app : Config)
      → HasCounts app
      → Keeps HasCounts (apply_opt lib uris build c arg app)
  unfolding apply_opt set_content_type set_event
  counts-Keeps mwi (some a) app k =
      let ts = map (λ t. to_int (lib.strtol t)) (tokens b',' a) in
      rw (set_mwi_list_lem laws a) (λ given. take_four ts _ _ _ _)
  counts-Keeps OptCode.content_type (some a) app k =
      rw ((content_type-counts a app).0, (content_type-counts a app).1) k
  counts-Keeps OptCode.verbose none app k = ground arith
  counts-Keeps _ none app k = ground arith
  counts-Keeps _ (some a) app k = ground arith

  left_over :
      (args : List Bytes) (app : Config)
      → let app' = parse_argv_left lib uris build args app in
        (app'.proxy ≡ app.proxy) × (app'.is_mwi ≡ app.is_mwi) × (app'.mwi ≡ app.mwi)
  unfolding parse_argv_left
  left_over [] app = (refl, refl, refl)
  left_over (a ∷ []) app = (refl, refl, refl)
  left_over (a ∷ b ∷ args) app = (refl, refl, refl)

  setup :
      (app app' : Config)
      → post_parse_setup lib uris build app ≡ ok app'
      → (app'.proxy ≡ app.proxy) × (app'.is_mwi ≡ app.is_mwi) × (app'.mwi ≡ app.mwi)
  unfolding post_parse_setup follow_mwi default_username
  setup app app' e = ground arith

  proxies-IsInvariant : IsInvariant lib uris build HasProxies
  proxies-IsInvariant = record {
    round = proxies-Keeps;
    left = λ args app k. rw ((left_over args app).0) k;
    parsed = λ app app' e k. rw ((setup app app' e).0) k;
    help = λ app k. k;
  }

  counts-IsInvariant : IsInvariant lib uris build HasCounts
  counts-IsInvariant = record {
    round = counts-Keeps;
    left = λ args app k. rw ((left_over args app).1, (left_over args app).2) k;
    parsed = λ app app' e k. rw ((setup app app' e).1, (setup app app' e).2) k;
    help = λ app k. k;
  }

  module _ (getopt_long : GetoptLong) (argv : List Bytes) (app : Config) {s : Status}
      {app' : Config}
      (parsed : getopts lib uris build getopt_long argv (init app) ≡ ok (s, app')) where
    -- The proxies stand in the array of twelve.
    pub getopts-HasProxies : length app.proxy.slots ≡ 12 → HasProxies app'
    unfolding init
    getopts-HasProxies size =
        getopts-IsInvariant lib uris build proxies-IsInvariant getopt_long argv (init app)
          (
            [],
            record { rest = app.proxy.slots; slots = refl; cnt = refl; size = omega (arith, size) },
          )
          parsed

    pub getopts-HasCounts : HasCounts app'
    unfolding init
    getopts-HasCounts =
        getopts-IsInvariant lib uris build counts-IsInvariant getopt_long argv (init app)
          (λ given. cc) parsed
