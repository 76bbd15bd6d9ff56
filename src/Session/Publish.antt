-- ===== src/Session/Publish.antt =====
-- The callbacks of mod/publish.c.
use sippak.Prelude.{
  ℕ, ◌+◌, ◌%◌, ◌^◌, ◌≡◌, refl, ap, ◌∙◌, Bool, true, false, ◌||◌, ◌&&◌, List, [], ◌∷◌, ltb,
  if◌then◌else◌, Bool-cases, inl, inr, arith,
}
use sippak.Session.{
  is_challenge, main_loop, concat, guarded, guarded_stopped, guarded_cons, main_loop-stop,
}
use sippak.Session.Watch.{Watch, increment, begin}

-- `on_rx_response` of mod/publish.c, with its result: whether it keeps the message from the other
-- modules.
unfoldable pub publish_on_rx_response : Bool → ℕ → Watch → Watch × Bool
unfolding is_challenge
publish_on_rx_response is_response code w =
    let tries = increment w.auth_tries in
    let tried : Watch = record { auth_tries = tries; loop_stop = w.loop_stop } in
    let stopped : Watch = record { auth_tries = tries; loop_stop = true } in
    if is_response
    then (if is_challenge code
        then (if ltb 1 tries then (stopped, true) else (tried, false))
        else (tried, false))
    else (tried, false)

-- `publish_cb`
unfoldable pub publish_cb : Watch → Watch
publish_cb w = record { auth_tries = w.auth_tries; loop_stop = true }

-- What pjsip reports to `sippak publish`: a response to the module, or the result of the publication
-- to its callback.
pub data PublishEvent : Type 0 where
  response : (code : ℕ) → PublishEvent
  published : PublishEvent

unfoldable pub publish_handle : PublishEvent → Watch → Watch
unfolding publish_on_rx_response publish_cb
publish_handle (PublishEvent.response code) w = (publish_on_rx_response true code w).0
publish_handle PublishEvent.published w = publish_cb w

unfoldable pub publish_exchange : List (List PublishEvent) → Watch → Watch
unfolding main_loop publish_handle
publish_exchange polls w = main_loop Watch.loop_stop publish_handle polls w

-- What ends `sippak publish` behind `seen` responses: the result of the publication, or a challenge
-- that is not the first response and not one whose number, from 1, is 0 or 1 in 16 bits.
abbrev pub publish_ends : ℕ → List PublishEvent → Bool
publish_ends seen [] = false
publish_ends seen (PublishEvent.response code ∷ es) =
    (is_challenge code && ltb 1 ((seen + 1) % 2 ^ 16)) || publish_ends (seen + 1) es
publish_ends seen (PublishEvent.published ∷ es) = true

-- The counter behind `seen` responses.
abbrev counted : ℕ → Bool → Watch
counted seen loop_stop = record { auth_tries = seen % 2 ^ 16; loop_stop = loop_stop }

increment-mod : (seen : ℕ) → increment (seen % 2 ^ 16) ≡ (seen + 1) % 2 ^ 16
increment-mod seen = omega arith

abbrev next : Bool → ℕ → Watch
next loop_stop tries = record { auth_tries = tries; loop_stop = loop_stop }

publish_handle-response :
    (code seen : ℕ)
    → publish_handle (PublishEvent.response code) (counted seen false)
      ≡ counted (seen + 1) (is_challenge code && ltb 1 ((seen + 1) % 2 ^ 16))
unfolding publish_handle publish_on_rx_response
publish_handle-response code seen = elim (Bool-cases (is_challenge code)) [
  | inr c ↦ rw (publish_handle, publish_on_rx_response, c) (ap (next false) (increment-mod seen))
  | inl c ↦ elim (Bool-cases (ltb 1 ((seen + 1) % 2 ^ 16))) [
    | inl t ↦
        let many : ltb 1 (increment (seen % 2 ^ 16)) ≡ true = ap (ltb 1) (increment-mod seen) ∙ t in
        rw (publish_handle, publish_on_rx_response, c, many, t)
          (ap (next true) (increment-mod seen))
    | inr t ↦
        let few : ltb 1 (increment (seen % 2 ^ 16)) ≡ false = ap (ltb 1) (increment-mod seen) ∙ t in
        rw (publish_handle, publish_on_rx_response, c, few, t)
          (ap (next false) (increment-mod seen))
  ]
]

handle_stopped :
    (e : PublishEvent) (w : Watch) → w.loop_stop ≡ true → (publish_handle e w).loop_stop ≡ true
unfolding publish_handle publish_on_rx_response publish_cb
handle_stopped (PublishEvent.response code) w h = elim (Bool-cases (is_challenge code)) [
  | inr c ↦ rw (publish_handle, publish_on_rx_response, c) h
  | inl c ↦ elim (Bool-cases (ltb 1 (increment w.auth_tries))) [
    | inl t ↦ rw (publish_handle, publish_on_rx_response, c, t) refl
    | inr t ↦ rw (publish_handle, publish_on_rx_response, c, t) h
  ]
]
handle_stopped PublishEvent.published w h = refl

-- The events with a look at the flag in front of each.
unfoldable in_turn : List PublishEvent → Watch → Watch
in_turn events w = guarded Watch.loop_stop publish_handle events w

in_turn-stop :
    (events : List PublishEvent) (seen : ℕ)
    → (in_turn events (counted seen false)).loop_stop ≡ publish_ends seen events
unfolding in_turn
in_turn-stop [] seen = unfold guarded in refl
in_turn-stop (PublishEvent.published ∷ es) seen =
    ap Watch.loop_stop (
      guarded_cons Watch.loop_stop publish_handle PublishEvent.published es (counted seen false)
        refl
      ∙ guarded_stopped Watch.loop_stop publish_handle es
          (publish_handle PublishEvent.published (counted seen false))
          (unfold publish_handle publish_cb in refl))
    ∙ (unfold publish_handle publish_cb in refl)
in_turn-stop (PublishEvent.response code ∷ es) seen =
    ap Watch.loop_stop (
      guarded_cons Watch.loop_stop publish_handle (PublishEvent.response code) es
        (counted seen false) refl)
    ∙ ap (λ w. (in_turn es w).loop_stop) (publish_handle-response code seen)
    ∙ behind (is_challenge code && ltb 1 ((seen + 1) % 2 ^ 16)) (in_turn-stop es (seen + 1))
  where
    behind :
        (b : Bool)
        → (in_turn es (counted (seen + 1) false)).loop_stop ≡ publish_ends (seen + 1) es
        → (in_turn es (counted (seen + 1) b)).loop_stop ≡ (b || publish_ends (seen + 1) es)
    behind true h =
        ap Watch.loop_stop
          (guarded_stopped Watch.loop_stop publish_handle es (counted (seen + 1) true) refl)
    behind false h = h

-- `sippak publish` is told to end exactly if pjsip reports the result of the publication, or a
-- challenge as the n-th response where n is more than 1 in 16 bits, in whichever calls of
-- `pjsip_endpt_handle_events`. Every response counts, a provisional one too, so that the first
-- challenge behind it is taken for refused credentials; and a challenge as the response 65536 or 65537
-- does not end the program, since the counter has wrapped.
pub publish_exchange-stop :
    (polls : List (List PublishEvent))
    → (publish_exchange polls begin).loop_stop ≡ publish_ends 0 (concat polls)
unfolding publish_exchange in_turn
publish_exchange-stop polls =
    main_loop-stop Watch.loop_stop publish_handle handle_stopped polls begin
    ∙ in_turn-stop (concat polls) 0
