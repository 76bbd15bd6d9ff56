-- ===== src/Session/Chat/Retry.antt =====
-- The callbacks of mod/ping.c: when the command ends, and how often it sends its request again.
use sippak.Prelude.{
  ℕ, suc, ◌+◌, ◌≤◌, ◌≡◌, refl, ap, ◌∙◌, Bool, true, false, ◌||◌, ◌&&◌, ◌==◌, ==_iff, List, [], ◌∷◌,
  ltb, leb, if◌then◌else◌, Bool-cases, inl, inr, ◌⊎◌, arith,
}
use sippak.Config.{Config}
use sippak.SipHelper.Requests.{set_cred}
use sippak.Session.{
  concat, guarded, guarded_stopped, guarded_cons, main_loop-stop, main_loop-invariant, is_challenge,
}
use sippak.Session.Chat.{
  Chat, Event, response, completed, started, loop_cancel, on_rx_response, send_cb, handle, exchange,
}

-- Transactions that end with a challenge.
abbrev pub challenges : List Event → ℕ
challenges [] = 0
challenges (response code ∷ es) = challenges es
challenges (completed status_code i r ∷ es) =
    if is_challenge status_code then suc (challenges es) else challenges es

-- Whether some response is not a challenge.
abbrev pub answered : List Event → Bool
answered [] = false
answered (response code ∷ es) = if is_challenge code then answered es else true
answered (completed status_code i r ∷ es) = answered es

-- The events with a look at the flag in front of each.
unfoldable in_turn : Config → List Event → Chat → Chat
in_turn app events chat = guarded Chat.loop_stop (handle app) events chat

exchange_stopped :
    (app : Config) (events : List Event) (chat : Chat)
    → chat.loop_stop ≡ true
    → in_turn app events chat ≡ chat
unfolding in_turn
exchange_stopped app events chat h = guarded_stopped Chat.loop_stop (handle app) events chat h

on_rx_response-challenge :
    (code : ℕ) (chat : Chat) → is_challenge code ≡ true → on_rx_response code chat ≡ chat
unfolding on_rx_response
on_rx_response-challenge code chat c = rw c refl

on_rx_response-answer :
    (code : ℕ) (chat : Chat)
    → is_challenge code ≡ false
    → on_rx_response code chat ≡ loop_cancel chat
unfolding on_rx_response
on_rx_response-answer code chat c = rw c refl

-- The chat after the first challenge, and after a later one.
abbrev pub after_first : Config → Bool → Bool → Chat → Chat
after_first app i r chat = record {
  auth_tries = 1;
  loop_stop = chat.loop_stop;
  sent = if i && r then set_cred app ∷ chat.sent else chat.sent;
}

abbrev pub after_later : Chat → Chat
after_later chat = record { auth_tries = chat.auth_tries + 1; loop_stop = true; sent = chat.sent }

send_cb-first :
    (app : Config) (code : ℕ) (i r : Bool) (chat : Chat)
    → is_challenge code ≡ true
    → chat.auth_tries ≡ 0
    → send_cb app code i r chat ≡ after_first app i r chat
unfolding send_cb
send_cb-first app code false r chat c t = rw (c, t) refl
send_cb-first app code true false chat c t = rw (c, t) refl
send_cb-first app code true true chat c t = rw (c, t) refl

send_cb-later :
    (app : Config) (code : ℕ) (i r : Bool) (chat : Chat)
    → is_challenge code ≡ true
    → 1 ≤ chat.auth_tries
    → send_cb app code i r chat ≡ after_later chat
unfolding send_cb loop_cancel
send_cb-later app code i r chat c t =
    let many : ltb 1 (chat.auth_tries + 1) ≡ true = ground arith in rw (c, many) refl

send_cb-other :
    (app : Config) (code : ℕ) (i r : Bool) (chat : Chat)
    → is_challenge code ≡ false
    → send_cb app code i r chat ≡ chat
unfolding send_cb
send_cb-other app code i r chat c = rw c refl

or_true : (b : Bool) → (b || true) ≡ true
or_true true = refl
or_true false = refl

exchange_cons :
    (app : Config) (e : Event) (es : List Event) (chat : Chat)
    → chat.loop_stop ≡ false
    → in_turn app (e ∷ es) chat ≡ in_turn app es (handle app e chat)
unfolding in_turn
exchange_cons app e es chat h = guarded_cons Chat.loop_stop (handle app) e es chat h

exchange_stop :
    (app : Config) (events : List Event) (chat : Chat)
    → chat.loop_stop ≡ false
    → chat.auth_tries ≤ 1
    → (in_turn app events chat).loop_stop
      ≡ (leb 2 (chat.auth_tries + challenges events) || answered events)
unfolding in_turn handle guarded
exchange_stop app [] chat h t =
    let small : leb 2 (chat.auth_tries + 0) ≡ false = ground arith in rw (small, h) refl
exchange_stop app (response code ∷ es) chat h t = elim (Bool-cases (is_challenge code)) [
  | inl c ↦
      rw (exchange_cons app (response code) es chat h, on_rx_response-challenge code chat c, c)
        (exchange_stop app es chat h t)
  | inr c ↦
      rw
        (
          exchange_cons app (response code) es chat h,
          on_rx_response-answer code chat c,
          c,
          exchange_stopped app es (loop_cancel chat) refl,
          or_true (leb 2 (chat.auth_tries + challenges es)),
        )
        refl
]
exchange_stop app (completed code i r ∷ es) chat h t = elim (Bool-cases (is_challenge code)) [
  | inr c ↦
      rw (exchange_cons app (completed code i r) es chat h, send_cb-other app code i r chat c, c)
        (exchange_stop app es chat h t)
  | inl c ↦ elim (Bool-cases (chat.auth_tries == 0)) [
    | inl z ↦
        let zero_tries : chat.auth_tries ≡ 0 = (==_iff chat.auth_tries 0).0 z in
        let next : 0 + suc (challenges es) ≡ 1 + challenges es = omega arith in
        rw
          (
            exchange_cons app (completed code i r) es chat h,
            send_cb-first app code i r chat c zero_tries,
            c,
            zero_tries,
            next,
          )
          (exchange_stop app es (after_first app i r chat) h (omega arith))
    | inr n ↦
        let some_tries : 1 ≤ chat.auth_tries = ground arith in
        let two : leb 2 (chat.auth_tries + suc (challenges es)) ≡ true = ground arith in
        rw
          (
            exchange_cons app (completed code i r) es chat h,
            send_cb-later app code i r chat c some_tries,
            exchange_stopped app es (after_later chat) refl,
            c,
            two,
          )
          refl
  ]
]

handle_stopped :
    (app : Config) (e : Event) (chat : Chat)
    → chat.loop_stop ≡ true
    → (handle app e chat).loop_stop ≡ true
unfolding handle on_rx_response send_cb loop_cancel
handle_stopped app (response code) chat h = ground arith
handle_stopped app (completed code i r) chat h = ground arith

-- The command is told to stop exactly if pjsip reports a response that is no challenge, or two
-- transactions that end with a challenge, in whichever calls of `pjsip_endpt_handle_events`; so a
-- transaction that ends with another code does not stop it, and neither does a failure of the
-- authentication client.
pub exchange-stop :
    (app : Config) (polls : List (List Event))
    → (exchange app polls started).loop_stop
      ≡ (leb 2 (challenges (concat polls)) || answered (concat polls))
unfolding exchange in_turn
exchange-stop app polls =
    let events = concat polls in
    let none_yet : 0 + challenges events ≡ challenges events = omega arith in
    main_loop-stop Chat.loop_stop (handle app) (handle_stopped app) polls started
    ∙ exchange_stop app events started refl (omega arith)
    ∙ ap (λ n. leb 2 n || answered events) none_yet

-- No request was sent again before the first challenge, and at most one after it.
abbrev pub OneTry : Config → Chat → Type 0
OneTry app chat =
    ((chat.auth_tries ≡ 0) × (chat.sent ≡ []))
    ⊎ ((1 ≤ chat.auth_tries) × ((chat.sent ≡ []) ⊎ (chat.sent ≡ set_cred app ∷ [])))

send_cb-OneTry :
    (app : Config) (code : ℕ) (i r : Bool) (chat : Chat)
    → OneTry app chat
    → OneTry app (send_cb app code i r chat)
send_cb-OneTry app code i r chat h = elim (Bool-cases (is_challenge code)) [
  | inr c ↦ rw (send_cb-other app code i r chat c) h
  | inl c ↦ elim h [
    | inl (zero_tries, unsent) ↦
        rw (send_cb-first app code i r chat c zero_tries, unsent)
          (inr (omega arith, one_or_none (i && r)))
    | inr (tried, sent) ↦ rw (send_cb-later app code i r chat c tried) (inr (omega arith, sent))
  ]
]
  where
    one_or_none :
        (b : Bool)
        → ((if b then set_cred app ∷ [] else []) ≡ [])
          ⊎ ((if b then set_cred app ∷ [] else []) ≡ set_cred app ∷ [])
    one_or_none true = inr refl
    one_or_none false = inl refl

handle-OneTry :
    (app : Config) (e : Event) (chat : Chat) → OneTry app chat → OneTry app (handle app e chat)
unfolding handle loop_cancel
handle-OneTry app (response code) chat h = elim (Bool-cases (is_challenge code)) [
  | inl c ↦ rw (on_rx_response-challenge code chat c) h
  | inr c ↦ rw (on_rx_response-answer code chat c) h
]
handle-OneTry app (completed code i r) chat h = send_cb-OneTry app code i r chat h

-- Whatever pjsip reports, in whatever order, the command sends its request again at most once, and
-- then with the credentials of the command line.
pub exchange-one_retry :
    (app : Config) (polls : List (List Event))
    → ((exchange app polls started).sent ≡ [])
      ⊎ ((exchange app polls started).sent ≡ set_cred app ∷ [])
unfolding exchange
exchange-one_retry app polls =
    elim (main_loop-invariant Chat.loop_stop (handle app) (OneTry app) (handle-OneTry app) polls
      started (inl (refl, refl))) [ inl (untried, unsent) ↦ inl unsent | inr (tried, sent) ↦ sent ]
