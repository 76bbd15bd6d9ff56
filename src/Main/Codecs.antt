-- ===== src/Main/Codecs.antt =====
-- The codecs from the command line (app/getopts.c) to pjmedia (app/media_helper.c).
use sippak.Prelude.{◌≡◌, true, List, some, length, take, map}
use sippak.CString.{Bytes}
use sippak.Strings.{StringLaws}
use sippak.Config.{Status, ok, Codec, g711, Config, init, num_codecs_avail}
use sippak.Media.{support_codec}
use sippak.Media.Choice.Distinct.{Distinct}
use sippak.Media.Endpoint.{register_codecs}
use sippak.Media.Endpoint.Chosen.{register_plan, register_codecs-Does}
use sippak.Getopts.Options.{getopts}
use sippak.Getopts.Codecs.{getopts-Chosen}
use sippak.Calls.Attempt.{Does}
use sippak.Main.{World}

-- If the build has G.711 and the array of codecs its twelve slots, then after every command line that
-- `sippak_getopts` returns from, pjmedia gets the functions of distinct codecs, those in the first
-- slots of the array and in their order, up to the first that fails, or with a count of twelve the one
-- function for all codecs: no slot is refused as unknown.
pub getopts-register_codecs :
    (world : World) (laws : StringLaws world.strings) (argv : List Bytes) (app : Config)
    {s : Status} {app' : Config}
    → length app.media.codec ≡ num_codecs_avail
    → support_codec world.build g711 ≡ true
    → getopts world.strings world.uris world.build world.getopt_long argv (init app) ≡ ok (s, app')
    → (cs : List Codec) × Distinct cs
      × (take (length cs) app'.media.codec ≡ map some cs)
      × Does world.lib
          (register_plan app'.media.cnt cs)
          (register_codecs world.lib world.build app'.media)
getopts-register_codecs world laws argv app {app' = app'} size g e =
    let c = getopts-Chosen laws world.uris world.build world.getopt_long argv app size g e in
    (
      c.codecs,
      c.distinct,
      c.slots,
      register_codecs-Does world.lib world.build app'.media c.codecs c.slots c.supported c.count,
    )
