-- ===== src/Getopts/Codecs.antt =====
-- The codecs behind the parse of the command line in app/getopts.c.
use sippak.Prelude.{
  ℕ, ◌≡◌, refl, true, List, [], ◌∷◌, Option, none, some, length, set, take, All, map, ◌⊎◌, inl, inr,
  arith,
}
use sippak.Prelude.Int.{ℤ, to_u16}
use sippak.CString.{Bytes}
use sippak.Strings.{Strings, StringLaws}
use sippak.Strings.Loop.{next}
use sippak.Getopts.Rounds.{Keeps, IsInvariant, getopts-IsInvariant}
use sippak.Uris.{Uris}
use sippak.Media.{Build, support_codec, set_media_codecs_cfg}
use sippak.Media.Choice.{elem}
use sippak.Media.Choice.Distinct.{Distinct, set_media_codecs_cfg-Distinct}
use sippak.Media.Choice.Refines.{Implements-size, set_media_codecs_cfg-choose}
use sippak.Config.{
  Status, success, cli_einvarg, Outcome, ok, exit, fault, ◌>>=◌, PjStr, Codec, g711, Config, Media,
  init, num_codecs_avail,
}
use sippak.Getopts.Values.{set_port_value, set_content_type, set_event}
use sippak.Getopts.Table.{OptCode, codec}
use sippak.Getopts.Options.{
  GetoptLong, apply_opt, parse_argv_left, post_parse_setup, follow_mwi, default_username, getopts,
}

-- The array holds distinct codecs of the build in its first slots, and the count is theirs, or twelve.
pub record Chosen (build : Build) (media : Media) : Type 0 where
  pub size : length media.codec ≡ num_codecs_avail
  pub codecs : List Codec
  pub distinct : Distinct codecs
  pub slots : take (length codecs) media.codec ≡ map some codecs
  pub supported : All (λ c. support_codec build c ≡ true) codecs
  pub count : (media.cnt ≡ length codecs) ⊎ (media.cnt ≡ num_codecs_avail)

module _ {lib : Strings} (laws : StringLaws lib) (uris : Uris) (build : Build) where
  abbrev OfMedia : Config → Type 0
  OfMedia app = Chosen build app.media

  -- An accepted list of names.
  set_media_codecs_cfg-Chosen :
      (media : Media) (names : Bytes)
      → length media.codec ≡ num_codecs_avail
      → (s : Status) × (after : Media) × (set_media_codecs_cfg lib build media names
          ≡ some (ok (s, after)))
        × (((s ≡ success) × Chosen build after) ⊎ (s ≡ cli_einvarg))
  set_media_codecs_cfg-Chosen media names size =
      let (s, after, cs, e, slots, distinct, supported, count) =
        set_media_codecs_cfg-Distinct laws build media names size in
      let (r, e', i) = set_media_codecs_cfg-choose laws build media names size in
      let (s', after', returns, size') = Implements-size media _ i in
      let same : after' ≡ after = cc in
      (
        s,
        after,
        e,
        elim count [
          | inl (fine, n) ↦ inl (
            fine,
            record {
              size = rw same at size';
              codecs = cs;
              distinct = distinct;
              slots = slots;
              supported = supported;
              count = n;
            },
          )
          | inr (bad, unchanged) ↦ inr bad
        ],
      )

  codec-Keeps :
      (a : Bytes) (app : Config)
      → Chosen build app.media
      → Keeps OfMedia (apply_opt lib uris build codec (some a) app)
  unfolding apply_opt
  codec-Keeps a app c =
      let (s, after, e, ends) = set_media_codecs_cfg-Chosen app.media a c.size in
      elim ends [ inl (fine, chosen) ↦ rw (e, fine) chosen | inr bad ↦ rw (e, bad) tt ]

  rtp_port-Chosen :
      (media : Media) (port : ℕ)
      → Chosen build media
      → Chosen build (record media { rtp_port = port })
  rtp_port-Chosen media port c = record {
    size = c.size;
    codecs = c.codecs;
    distinct = c.distinct;
    slots = c.slots;
    supported = c.supported;
    count = c.count;
  }

  rtp_port-Keeps :
      (app : Config)
      → Chosen build app.media
      → (o : Outcome ℤ)
      → Keeps OfMedia (
          o >>= λ port.
          ok (next (record app { media = record (app.media) { rtp_port = to_u16 port } })))
  rtp_port-Keeps app c (ok port) = rtp_port-Chosen app.media (to_u16 port) c
  rtp_port-Keeps app c (exit s) = tt
  rtp_port-Keeps app c fault = tt

  apply_opt-Keeps :
      (c : OptCode) (arg : PjStr) (app : Config)
      → Chosen build app.media
      → Keeps OfMedia (apply_opt lib uris build c arg app)
  unfolding apply_opt set_content_type set_event
  apply_opt-Keeps codec (some a) app c = codec-Keeps a app c
  apply_opt-Keeps OptCode.rtp_port (some a) app c = rtp_port-Keeps app c (set_port_value lib a)
  apply_opt-Keeps OptCode.verbose none app c = ground arith
  apply_opt-Keeps _ none app c = ground arith
  apply_opt-Keeps _ (some a) app c = ground arith

  parse_argv_left-media :
      (args : List Bytes) (app : Config)
      → (parse_argv_left lib uris build args app).media ≡ app.media
  unfolding parse_argv_left
  parse_argv_left-media [] app = refl
  parse_argv_left-media (a ∷ []) app = refl
  parse_argv_left-media (a ∷ b ∷ args) app = refl

  post_parse_setup-media :
      (app app' : Config) → post_parse_setup lib uris build app ≡ ok app' → app'.media ≡ app.media
  unfolding post_parse_setup follow_mwi default_username
  post_parse_setup-media app app' e = ground arith

  media-IsInvariant : IsInvariant lib uris build OfMedia
  media-IsInvariant = record {
    round = apply_opt-Keeps;
    left = λ args app c. rw (parse_argv_left-media args app) c;
    parsed = λ app app' e c. rw (post_parse_setup-media app app' e) c;
    help = λ app c. c;
  }

  default-Chosen :
      (slots : List (Option Codec)) (port : ℕ)
      → length slots ≡ num_codecs_avail
      → support_codec build g711 ≡ true
      → Chosen build (record { cnt = 1; codec = set slots 0 (some g711); rtp_port = port })
  unfolding elem
  default-Chosen [] port size g = absurd (omega arith)
  default-Chosen (x ∷ slots) port size g = record {
    size = size;
    codecs = g711 ∷ [];
    distinct = (refl, tt);
    slots = refl;
    supported = (g, tt);
    count = inl refl;
  }

  -- Every return, whatever the command line.
  pub getopts-Chosen :
      (getopt_long : GetoptLong) (argv : List Bytes) (app : Config) {s : Status} {app' : Config}
      → length app.media.codec ≡ num_codecs_avail
      → support_codec build g711 ≡ true
      → getopts lib uris build getopt_long argv (init app) ≡ ok (s, app')
      → Chosen build app'.media
  unfolding init
  getopts-Chosen getopt_long argv app size g =
      getopts-IsInvariant lib uris build media-IsInvariant getopt_long argv (init app)
        (default-Chosen app.media.codec _ size g)
