-- ===== src/Session/Subscribe.antt =====
-- The callbacks of mod/subscribe.c.
use sippak.Prelude.{
  ℕ, suc, ◌+◌, ◌≤◌, ◌≡◌, refl, sym, ap, ◌∙◌, ==_iff, Bool, true, false, ◌||◌, ◌==◌, List, [], ◌∷◌,
  ltb, leb, if◌then◌else◌, Bool-cases, inl, inr, arith,
}
use sippak.Config.{EvType}
use sippak.Session.{
  is_challenge, main_loop, concat, guarded, guarded_stopped, guarded_cons, main_loop-stop,
}
use sippak.Session.Watch.{Watch, increment, begin, stopping, tried}

-- `on_rx_response` of mod/subscribe.c, with its result.
unfoldable pub subscribe_on_rx_response : ℕ → Watch → Watch × Bool
unfolding is_challenge
subscribe_on_rx_response code w =
    let tries = increment w.auth_tries in
    let tried : Watch = record { auth_tries = tries; loop_stop = w.loop_stop } in
    let stopped : Watch = record { auth_tries = tries; loop_stop = true } in
    if is_challenge code
    then (if ltb 1 tries then (stopped, true) else (tried, false))
    else (w, false)

-- `pjsip_evsub_state`, as far as the code tells its values apart.
pub data EvsubState : Type 0 where
  active terminated other_state : EvsubState

-- `on_evsub_state` of mod/subscribe.c
unfoldable pub on_evsub_state : EvsubState → Watch → Watch
on_evsub_state active w = stopping w
on_evsub_state terminated w = stopping w
on_evsub_state other_state w = w

-- `on_tsx_state`, with PJSIP_SC_TSX_TIMEOUT, 408
unfoldable pub on_tsx_state : ℕ → Watch → Watch
on_tsx_state status_code w = if status_code == 408 then stopping w else w

-- `set_sub_evtype`
unfoldable pub set_sub_evtype : EvType → EvType
set_sub_evtype EvType.other = EvType.pres
set_sub_evtype EvType.unknown = EvType.pres
set_sub_evtype EvType.pres = EvType.pres
set_sub_evtype EvType.mwi = EvType.mwi

pub data SubscribeEvent : Type 0 where
  response : (code : ℕ) → SubscribeEvent
  evsub_state : (state : EvsubState) → SubscribeEvent
  tsx_state : (status_code : ℕ) → SubscribeEvent

unfoldable pub subscribe_handle : SubscribeEvent → Watch → Watch
unfolding subscribe_on_rx_response on_evsub_state on_tsx_state
subscribe_handle (SubscribeEvent.response code) w = (subscribe_on_rx_response code w).0
subscribe_handle (SubscribeEvent.evsub_state state) w = on_evsub_state state w
subscribe_handle (SubscribeEvent.tsx_state code) w = on_tsx_state code w

unfoldable pub subscribe_exchange : List (List SubscribeEvent) → Watch → Watch
unfolding main_loop subscribe_handle
subscribe_exchange polls w = main_loop Watch.loop_stop subscribe_handle polls w

-- Challenges among the responses.
abbrev pub challenged : List SubscribeEvent → ℕ
challenged [] = 0
challenged (SubscribeEvent.response code ∷ es) =
    if is_challenge code then suc (challenged es) else challenged es
challenged (SubscribeEvent.evsub_state state ∷ es) = challenged es
challenged (SubscribeEvent.tsx_state code ∷ es) = challenged es

abbrev pub is_final : EvsubState → Bool
is_final active = true
is_final terminated = true
is_final other_state = false

-- Whether the subscription gets active or ends, or a transaction times out.
abbrev pub decided : List SubscribeEvent → Bool
decided [] = false
decided (SubscribeEvent.response code ∷ es) = decided es
decided (SubscribeEvent.evsub_state state ∷ es) = is_final state || decided es
decided (SubscribeEvent.tsx_state code ∷ es) = code == 408 || decided es

-- The events with a look at the flag in front of each.
unfoldable in_turn : List SubscribeEvent → Watch → Watch
in_turn events w = guarded Watch.loop_stop subscribe_handle events w

subscribe_stopped :
    (events : List SubscribeEvent) (w : Watch) → w.loop_stop ≡ true → in_turn events w ≡ w
unfolding in_turn
subscribe_stopped events w h = guarded_stopped Watch.loop_stop subscribe_handle events w h

subscribe_cons :
    (e : SubscribeEvent) (es : List SubscribeEvent) (w : Watch)
    → w.loop_stop ≡ false
    → in_turn (e ∷ es) w ≡ in_turn es (subscribe_handle e w)
unfolding in_turn
subscribe_cons e es w h = guarded_cons Watch.loop_stop subscribe_handle e es w h

or_true : (b : Bool) → (b || true) ≡ true
or_true true = refl
or_true false = refl

-- An event that stops the loop, and one that changes nothing.
ended :
    (e : SubscribeEvent) (es : List SubscribeEvent) (w w' : Watch)
    → w.loop_stop ≡ false
    → subscribe_handle e w ≡ w'
    → w'.loop_stop ≡ true
    → (in_turn (e ∷ es) w).loop_stop ≡ true
ended e es w w' h step stop = rw (subscribe_cons e es w h, step, subscribe_stopped es w' stop) stop

subscribe_stop :
    (events : List SubscribeEvent) (w : Watch)
    → w.loop_stop ≡ false
    → w.auth_tries ≤ 1
    → (in_turn events w).loop_stop ≡ (leb 2 (w.auth_tries + challenged events) || decided events)
unfolding in_turn subscribe_handle on_evsub_state on_tsx_state subscribe_on_rx_response
subscribe_stop [] w h t =
    let small : leb 2 (w.auth_tries + 0) ≡ false = ground arith in rw small (unfold guarded in h)
subscribe_stop (SubscribeEvent.evsub_state active ∷ es) w h t =
    ended (SubscribeEvent.evsub_state active) es w (stopping w) h refl refl
    ∙ sym (or_true (leb 2 (w.auth_tries + challenged es)))
subscribe_stop (SubscribeEvent.evsub_state terminated ∷ es) w h t =
    ended (SubscribeEvent.evsub_state terminated) es w (stopping w) h refl refl
    ∙ sym (or_true (leb 2 (w.auth_tries + challenged es)))
subscribe_stop (SubscribeEvent.evsub_state other_state ∷ es) w h t =
    ap Watch.loop_stop (subscribe_cons (SubscribeEvent.evsub_state other_state) es w h)
    ∙ subscribe_stop es w h t
subscribe_stop (SubscribeEvent.tsx_state code ∷ es) w h t = elim (Bool-cases (code == 408)) [
  | inl c ↦
      ended (SubscribeEvent.tsx_state code) es w (stopping w) h (rw c refl) refl
      ∙ sym (or_true (leb 2 (w.auth_tries + challenged es)))
      ∙ ap (λ b. leb 2 (w.auth_tries + challenged es) || (b || decided es)) (sym c)
  | inr c ↦ rw (subscribe_cons (SubscribeEvent.tsx_state code) es w h, c) (subscribe_stop es w h t)
]
subscribe_stop (SubscribeEvent.response code ∷ es) w h t = elim (Bool-cases (is_challenge code)) [
  | inr c ↦
      let step : subscribe_handle (SubscribeEvent.response code) w ≡ w =
        rw (subscribe_handle, subscribe_on_rx_response, c) refl in
      rw c (
        ap Watch.loop_stop (subscribe_cons (SubscribeEvent.response code) es w h)
        ∙ ap (λ w'. (in_turn es w').loop_stop) step
        ∙ subscribe_stop es w h t)
  | inl c ↦ elim (Bool-cases (w.auth_tries == 0)) [
    | inl z ↦
        let zero_tries : w.auth_tries ≡ 0 = (==_iff w.auth_tries 0).0 z in
        let next : w.auth_tries + suc (challenged es) ≡ (tried w).auth_tries + challenged es =
          omega arith in
        let step : subscribe_handle (SubscribeEvent.response code) w ≡ tried w =
          rw (subscribe_handle, subscribe_on_rx_response, c, zero_tries) refl in
        rw (c, next)
          (ap Watch.loop_stop (subscribe_cons (SubscribeEvent.response code) es w h)
            ∙ ap (λ w'. (in_turn es w').loop_stop) step
            ∙ subscribe_stop es (tried w) h (omega arith))
    | inr n ↦
        let one : w.auth_tries ≡ 1 = ground arith in
        let many : ltb 1 (increment w.auth_tries) ≡ true = rw one refl in
        let two : leb 2 (w.auth_tries + suc (challenged es)) ≡ true = ground arith in
        rw (c, two)
          (ended (SubscribeEvent.response code) es w (stopping (tried w)) h
            (rw (subscribe_handle, subscribe_on_rx_response, c, many) refl) refl)
  ]
]

handle_stopped :
    (e : SubscribeEvent) (w : Watch) → w.loop_stop ≡ true → (subscribe_handle e w).loop_stop ≡ true
unfolding subscribe_handle subscribe_on_rx_response on_evsub_state on_tsx_state
handle_stopped (SubscribeEvent.response code) w h = ground arith
handle_stopped (SubscribeEvent.evsub_state active) w h = refl
handle_stopped (SubscribeEvent.evsub_state terminated) w h = refl
handle_stopped (SubscribeEvent.evsub_state other_state) w h = h
handle_stopped (SubscribeEvent.tsx_state code) w h = ground arith

-- `sippak subscribe` is told to end exactly if two responses are challenges, the subscription gets
-- active or is terminated, or a transaction times out, in whichever calls of
-- `pjsip_endpt_handle_events`.
pub subscribe_exchange-stop :
    (polls : List (List SubscribeEvent))
    → (subscribe_exchange polls begin).loop_stop
      ≡ (leb 2 (challenged (concat polls)) || decided (concat polls))
unfolding subscribe_exchange in_turn
subscribe_exchange-stop polls =
    let events = concat polls in
    let none_yet : 0 + challenged events ≡ challenged events = omega arith in
    main_loop-stop Watch.loop_stop subscribe_handle handle_stopped polls begin
    ∙ subscribe_stop events begin refl (omega arith)
    ∙ ap (λ n. leb 2 n || decided events) none_yet
