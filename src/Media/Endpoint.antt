-- ===== src/Media/Endpoint.antt =====
-- `sippak_set_media_sdp` and `set_media_codecs` of app/media_helper.c: the codecs that pjmedia gets,
-- and the calls that lead to the SDP.
pub mod Chosen
use sippak.Prelude.{
  ℕ, zero, suc, Bool, true, false, ◌||◌, List, [], ◌∷◌, Option, none, some, ◌==◌, if◌then◌else◌,
}
use sippak.Config.{
  Status, success, einval, Outcome, ok, exit, fault, Codec, speex, ilbc, gsm, g711, g722, ipp,
  g7221, l16, ocamr, silk, opus, bcg729, all, Media, Config, num_codecs_avail,
}
use sippak.Media.{Build}
use sippak.Calls.{
  Call, endpt_create_media, register_audio_codecs, codec_init, media_transport_udp_create,
  media_get_info, media_create_sdp, Library, Run, pure, ◌>>=◌, ◌>>◌, call, lift, asserted,
}

-- The `#if` of each `case`.
unfoldable pub has_case : Build → Codec → Bool
has_case b speex = b.speex
has_case b ilbc = b.ilbc
has_case b gsm = b.gsm
has_case b g711 = b.g711
has_case b g722 = b.g722
has_case b ipp = b.ipp
has_case b g7221 = b.g7221
has_case b l16 = b.l16
has_case b ocamr = b.amrnb || b.amrwb
has_case b silk = b.silk
has_case b opus = b.opus
has_case b bcg729 = b.bcg729
has_case b all = false

module _ (lib : Library) (build : Build) where
  -- The `switch`: the codec's own function, or `return PJ_EINVAL`.
  unfoldable pub init_codec : Option Codec → Run Status
  unfolding has_case
  init_codec none = pure einval
  init_codec (some c) = if has_case build c then call lib (codec_init c) else pure einval

  -- `set_media_codecs`: the loop over the slots, from one on.
  unfoldable pub set_media_codecs : ℕ → List (Option Codec) → Run Status
  unfolding init_codec
  set_media_codecs zero slots = pure success
  set_media_codecs (suc n) [] = lift fault
  set_media_codecs (suc n) (slot ∷ slots) = do asserted (init_codec slot); set_media_codecs n slots

  abbrev pub register_codecs : Media → Run Status
  register_codecs media =
      let some_codecs = set_media_codecs media.cnt media.codec in
      if media.cnt == num_codecs_avail then call lib register_audio_codecs else some_codecs

  -- `sippak_set_media_sdp`
  unfoldable pub set_media_sdp : Config → Run Status
  unfolding set_media_codecs
  set_media_sdp app = do
    asserted (call lib endpt_create_media)
    asserted (register_codecs app.media)
    asserted (call lib (media_transport_udp_create app.media.rtp_port))
    asserted (call lib media_get_info)
    asserted (call lib media_create_sdp)
    pure success
