-- ===== src/Getopts/Headers.antt =====
-- `add_custom_header` and `add_proxy` of app/getopts.c.
pub mod Laws
use sippak.Prelude.{
  ℕ, suc, ◌+◌, Bool, true, false, List, [], ◌∷◌, Option, none, some, ltb, ◌==◌, if◌then◌else◌,
}
use sippak.CString.{Bytes, cut_at}
use sippak.Strings.{Strings}
use sippak.Uris.{Uris}
use sippak.Config.{
  Status, success, einval, Outcome, ok, ◌>>=◌, Header, Array, max_custom_headers, max_proxy_headers,
  write,
}

-- `array.p[array.cnt] = v; array.cnt++`
unfoldable pub push : {A : Type 0} → A → Array A → Outcome (Array A)
push v array = do
  slots ← write array.slots array.cnt (some v)
  ok (record { cnt = array.cnt + 1; slots = slots })

-- The status that is returned, with the array behind it.
abbrev pub with_status {ℓ} : {A : Type ℓ} → Status → A → Outcome (Status × A)
with_status s a = ok (s, a)

module _ (lib : Strings) where
  -- `while (pj_isspace(*p)) p++`
  unfoldable pub skip_spaces : Bytes → Bytes
  skip_spaces [] = []
  skip_spaces (c ∷ cs) = if lib.isspace c then skip_spaces cs else c ∷ cs

  -- A header's text is cut at its first colon.
  unfoldable pub parse_header : Bytes → Option Header
  unfolding skip_spaces
  parse_header in_header = elim (cut_at b':' (skip_spaces in_header)) [
    | none ↦ none
    | some (hname, value) ↦ some (record { name = hname; value = skip_spaces value })
  ]

  store_header : Array Header → Option Header → Outcome (Status × Array Header)
  unfolding push
  store_header hdrs none = ok (einval, hdrs)
  store_header hdrs (some hdr) = do hdrs' ← push hdr hdrs; ok (success, hdrs')

  -- `add_custom_header`
  unfoldable pub add_custom_header : Bytes → Array Header → Outcome (Status × Array Header)
  unfolding store_header
  add_custom_header in_header hdrs =
      if ltb max_custom_headers hdrs.cnt
      then ok (success, hdrs)
      else store_header hdrs (parse_header in_header)

  module _ (uris : Uris) where
    -- `pjsip_uri_print(..) > 0`
    abbrev printed : Option Bytes → Option Bytes
    printed none = none
    printed (some []) = none
    printed (some (c ∷ cs)) = some (c ∷ cs)

    -- The text that is kept for a proxy; the first one is forced to be a loose route.
    unfoldable pub proxy_uri : ℕ → Bytes → Option Bytes
    proxy_uri cnt proxy = elim (uris.parse proxy) [
      | none ↦ none
      | some uri ↦ printed (uris.print_routing (if cnt == 0 then uris.set_lr uri else uri))
    ]

    store_proxy : Array Bytes → Option Bytes → Outcome (Array Bytes)
    unfolding push
    store_proxy proxies none = ok proxies
    store_proxy proxies (some uri) = push uri proxies

    -- `add_proxy`
    unfoldable pub add_proxy : Bytes → Array Bytes → Outcome (Array Bytes)
    unfolding store_proxy
    add_proxy proxy proxies =
        if ltb max_proxy_headers proxies.cnt
        then ok proxies
        else store_proxy proxies (proxy_uri proxies.cnt (skip_spaces proxy))
