-- ===== src/Tests/Notify.antt =====
-- The bodies of MESSAGE and NOTIFY at concrete configurations.
use sippak.Prelude.{◌≡◌, some, take, replicate}
use sippak.Config.{Config, msg_body_len, text}
use sippak.Bodies.{add_message_body}
use sippak.Bodies.Summary.{add_message_body-take}
use sippak.Tests.{app0}

abbrev greeting : Config
greeting = record app0 { body = some (replicate 130 b'a') }

add_message_body-take_example :
    ((add_message_body greeting).1 ≡ take msg_body_len (text greeting.body))
    × (add_message_body (add_message_body greeting).0 ≡ add_message_body greeting)
add_message_body-take_example = add_message_body-take greeting
