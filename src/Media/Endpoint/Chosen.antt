-- ===== src/Media/Endpoint/Chosen.antt =====
-- The codecs of the command line, as `set_media_codecs` of app/media_helper.c hands them to pjmedia.
use sippak.Prelude.{
  ℕ, ◌≡◌, ◌≢◌, refl, sym, ◌∙◌, true, ◌⊎◌, inl, inr, List, [], ◌∷◌, ◌++◌, map, Option, some, length,
  take, All, ◌==◌, Bool-cases, if◌then◌else◌, arith,
}
use sippak.Config.{success, cli_einvarg, Codec, speex, Media, Config, num_codecs_avail}
use sippak.Media.{Build, support_codec}
use sippak.Media.Support.{built, support_codec-built}
use sippak.Media.Endpoint.{has_case, init_codec, set_media_codecs, register_codecs, set_media_sdp}
use sippak.Calls.{
  endpt_create_media, register_audio_codecs, codec_init, media_transport_udp_create, media_get_info,
  media_create_sdp, Library,
}
use sippak.Calls.Registrations.{modules_in}
use sippak.Calls.Attempt.{Step, must, Does, call-Does, call-Does_then, asserted-Does, pure-Does}

success-ne-einvarg : success ≢ cli_einvarg
success-ne-einvarg e = cc

has_case-built : (b : Build) (c : Codec) → has_case b c ≡ built b c
unfolding has_case built
has_case-built b speex = refl
has_case-built b _ = refl

-- The function of each codec, in order.
abbrev pub codec_plan : List Codec → List Step
codec_plan [] = []
codec_plan (c ∷ cs) = must (codec_init c) ∷ codec_plan cs

abbrev pub register_plan : ℕ → List Codec → List Step
register_plan cnt cs =
    if cnt == num_codecs_avail then must register_audio_codecs ∷ [] else codec_plan cs

codec_plan-quiet : (cs : List Codec) → modules_in (codec_plan cs) ≡ []
codec_plan-quiet [] = refl
codec_plan-quiet (c ∷ cs) = codec_plan-quiet cs

pub register_plan-quiet : (cnt : ℕ) (cs : List Codec) → modules_in (register_plan cnt cs) ≡ []
register_plan-quiet cnt cs = elim (Bool-cases (cnt == num_codecs_avail)) [
  | inl e ↦ rw e refl
  | inr e ↦ rw e (codec_plan-quiet cs)
]

-- `set_media_sdp`, where the codecs' part is known.
abbrev pub sdp_plan : Config → List Step → List Step
sdp_plan app codecs =
    must endpt_create_media ∷ codecs
    ++ (must (media_transport_udp_create app.media.rtp_port)
        ∷ must media_get_info
        ∷ must media_create_sdp
        ∷ [])

module _ (lib : Library) (build : Build) where
  init_codec-Does :
      (c : Codec)
      → support_codec build c ≡ true
      → Does lib (must (codec_init c) ∷ []) (init_codec lib build (some c))
  unfolding init_codec
  init_codec-Does c s =
      let there : has_case build c ≡ true =
        has_case-built build c ∙ sym (support_codec-built build c) ∙ s in
      rw there (call-Does lib (codec_init c))

  set_media_codecs-Does :
      (cs : List Codec) (slots : List (Option Codec))
      → take (length cs) slots ≡ map some cs
      → All (λ c. support_codec build c ≡ true) cs
      → Does lib (codec_plan cs) (set_media_codecs lib build (length cs) slots)
  unfolding set_media_codecs
  set_media_codecs-Does [] slots e s = pure-Does lib
  set_media_codecs-Does (c ∷ cs) [] e s = cc
  set_media_codecs-Does (c ∷ cs) (x ∷ slots) e s =
      let here : x ≡ some c = cc in
      let behind : take (length cs) slots ≡ map some cs = cc in
      rw here (
        asserted-Does lib (must (codec_init c) ∷ []) (codec_plan cs) (init_codec-Does c s.0)
          (set_media_codecs-Does cs slots behind s.1))

  pub register_codecs-Does :
      (media : Media) (cs : List Codec)
      → take (length cs) media.codec ≡ map some cs
      → All (λ c. support_codec build c ≡ true) cs
      → (media.cnt ≡ length cs) ⊎ (media.cnt ≡ num_codecs_avail)
      → Does lib (register_plan media.cnt cs) (register_codecs lib build media)
  register_codecs-Does media cs e s n = elim (Bool-cases (media.cnt == num_codecs_avail)) [
    | inl full ↦ rw full (call-Does lib register_audio_codecs)
    | inr few ↦ elim n [
      | inl count ↦ rw (few, count) (set_media_codecs-Does cs media.codec e s)
      | inr twelve ↦ absurd (ground arith)
    ]
  ]

  pub set_media_sdp-Does :
      (app : Config) (codecs : List Step)
      → Does lib codecs (register_codecs lib build app.media)
      → Does lib (sdp_plan app codecs) (set_media_sdp lib build app)
  unfolding set_media_sdp
  set_media_sdp-Does app codecs d = call-Does_then lib _ _ (
      asserted-Does lib _ _ d
        (call-Does_then lib _ _ (call-Does_then lib _ _ (call-Does_then lib _ _ (pure-Does lib)))))
