-- ===== src/Tests/Callbacks.antt =====
-- The callbacks and the mangler at concrete events and messages.
use sippak.Prelude.{◌≡◌, ◌⊎◌, true, List, [], ◌∷◌}
use sippak.SipHelper.Requests.{set_cred}
use sippak.Session.Chat.{Event, exchange, started, response, completed}
use sippak.Session.Chat.Retry.{exchange-stop, exchange-one_retry}
use sippak.Session.Publish.{PublishEvent, publish_exchange, publish_exchange-stop}
use sippak.Session.{is_challenge}
use sippak.Session.Watch.{begin}
use sippak.Session.Subscribe.{
  SubscribeEvent, EvsubState, subscribe_exchange, subscribe_exchange-stop,
}
use sippak.Session.Invite.{
  Sent, InvState, InviteEvent, received, state_changed, invite_exchange, dialed,
  invite_exchange-transcript,
}
use sippak.Tests.{app0}

-- A challenge, an answer to it with no credentials, and a second challenge.
abbrev refused : List (List Event)
refused =
    (response 401 ∷ completed 401 true true ∷ [])
    ∷ []
    ∷ (response 407 ∷ completed 407 true true ∷ [])
    ∷ []

exchange-stop_example : (exchange app0 refused started).loop_stop ≡ true
unfolding is_challenge
exchange-stop_example = exchange-stop app0 refused

exchange-one_retry_example :
    ((exchange app0 refused started).sent ≡ [])
    ⊎ ((exchange app0 refused started).sent ≡ set_cred app0 ∷ [])
exchange-one_retry_example = exchange-one_retry app0 refused

-- With "100 Trying" in front, the first challenge ends it.
publish_exchange-stop_example :
    (publish_exchange
      ((PublishEvent.response 100 ∷ PublishEvent.response 401 ∷ []) ∷ [])
      begin).loop_stop
    ≡ true
unfolding is_challenge
publish_exchange-stop_example =
    publish_exchange-stop ((PublishEvent.response 100 ∷ PublishEvent.response 401 ∷ []) ∷ [])

subscribe_exchange-stop_example :
    (subscribe_exchange
      ((SubscribeEvent.response 401 ∷ [])
        ∷ (SubscribeEvent.response 202 ∷ SubscribeEvent.evsub_state EvsubState.active ∷ [])
        ∷ [])
      begin).loop_stop
    ≡ true
unfolding is_challenge
subscribe_exchange-stop_example = subscribe_exchange-stop (
    (SubscribeEvent.response 401 ∷ [])
    ∷ (SubscribeEvent.response 202 ∷ SubscribeEvent.evsub_state EvsubState.active ∷ [])
    ∷ [])

-- The call is cancelled, and the answer to that comes twice at once.
abbrev cancelled : List (List InviteEvent)
cancelled =
    (state_changed InvState.early true ∷ [])
    ∷ (received true 487 true ∷ received true 487 true ∷ [])
    ∷ (received true 487 true ∷ [])
    ∷ []

invite_exchange-transcript_example :
    invite_exchange true cancelled dialed
    ≡ record { loop_stop = true; sent = Sent.ack ∷ Sent.ack ∷ Sent.cancel ∷ [] }
invite_exchange-transcript_example = invite_exchange-transcript true cancelled
