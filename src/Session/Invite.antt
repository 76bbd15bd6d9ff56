-- ===== src/Session/Invite.antt =====
-- The callbacks of mod/invite.c.
use sippak.Prelude.{
  ℕ, ◌≡◌, refl, ap, ◌∙◌, Bool, true, false, ◌||◌, ◌&&◌, ◌==◌, List, [], ◌∷◌, if◌then◌else◌,
  Bool-cases, inl, inr,
}
use sippak.Session.{handle_events, main_loop}

-- What the module sends with `pjsip_inv_send_msg`: the ACK that it makes itself, and what
-- `pjsip_inv_end_session` makes with 487 and with 200.
pub data Sent : Type 0 where
  ack cancel bye : Sent

-- `sippak_loop_stop` of main.c, and what was sent, the last first.
pub record Call : Type 0 where
  pub loop_stop : Bool
  pub sent : List Sent

abbrev pub dialed : Call
dialed = record { loop_stop = false; sent = [] }

-- `pjsip_inv_state`, as far as the code tells its values apart.
pub data InvState : Type 0 where
  early confirmed disconnected other_state : InvState

-- What pjsip reports, and whether the library's call that makes the answer gives a message.
pub data InviteEvent : Type 0 where
  received : (is_response : Bool) (code : ℕ) (tdata : Bool) → InviteEvent
  state_changed : (state : InvState) (tdata : Bool) → InviteEvent

unfoldable pub hang_up : Call → Call
hang_up call = record { loop_stop = true; sent = call.sent }

unfoldable pub send_msg : Bool → Sent → Call → Call
send_msg tdata msg call =
    if tdata then record { loop_stop = call.loop_stop; sent = msg ∷ call.sent } else call

-- `on_rx_response`
unfoldable pub invite_on_rx_response : Bool → ℕ → Bool → Call → Call
unfolding hang_up send_msg
invite_on_rx_response is_response code tdata call =
    if is_response then (if code == 487 then hang_up (send_msg tdata ack call) else call) else call

-- `call_on_state_changed`, with the static variable `early_cancel`
unfoldable pub call_on_state_changed : Bool → InvState → Bool → Call → Call
unfolding hang_up send_msg
call_on_state_changed early_cancel disconnected tdata call = hang_up call
call_on_state_changed early_cancel early tdata call =
    if early_cancel then send_msg tdata cancel call else call
call_on_state_changed early_cancel confirmed tdata call = send_msg tdata bye call
call_on_state_changed early_cancel other_state tdata call = call

unfoldable pub invite_handle : Bool → InviteEvent → Call → Call
unfolding invite_on_rx_response call_on_state_changed
invite_handle early_cancel (received is_response code tdata) call =
    invite_on_rx_response is_response code tdata call
invite_handle early_cancel (state_changed state tdata) call =
    call_on_state_changed early_cancel state tdata call

unfoldable pub invite_exchange : Bool → List (List InviteEvent) → Call → Call
unfolding main_loop invite_handle
invite_exchange early_cancel polls call =
    main_loop Call.loop_stop (invite_handle early_cancel) polls call

-- A description of what each event brings: whether it ends the command, and what is sent.
abbrev pub ends_call : InviteEvent → Bool
ends_call (received is_response code tdata) = is_response && code == 487
ends_call (state_changed disconnected tdata) = true
ends_call (state_changed early tdata) = false
ends_call (state_changed confirmed tdata) = false
ends_call (state_changed other_state tdata) = false

abbrev pub one_if : Bool → Sent → List Sent → List Sent
one_if b msg sent = if b then msg ∷ sent else sent

abbrev pub answer : Bool → InviteEvent → List Sent → List Sent
answer early_cancel (received is_response code tdata) sent =
    one_if (is_response && (code == 487 && tdata)) ack sent
answer early_cancel (state_changed disconnected tdata) sent = sent
answer early_cancel (state_changed early tdata) sent = one_if (early_cancel && tdata) cancel sent
answer early_cancel (state_changed confirmed tdata) sent = one_if tdata bye sent
answer early_cancel (state_changed other_state tdata) sent = sent

-- All events of one call of `pjsip_endpt_handle_events`.
abbrev pub any_ends : List InviteEvent → Bool
any_ends [] = false
any_ends (e ∷ es) = ends_call e || any_ends es

abbrev pub answers : Bool → List InviteEvent → List Sent → List Sent
answers early_cancel [] sent = sent
answers early_cancel (e ∷ es) sent = answers early_cancel es (answer early_cancel e sent)

-- The calls one after the other, up to the first with an event that ends the command.
abbrev pub transcript : Bool → List (List InviteEvent) → List Sent → Call
transcript early_cancel [] sent = record { loop_stop = false; sent = sent }
transcript early_cancel (es ∷ polls) sent =
    let sent' = answers early_cancel es sent in
    let rest = transcript early_cancel polls sent' in
    if any_ends es then record { loop_stop = true; sent = sent' } else rest

abbrev call_of : Bool → List Sent → Call
call_of loop_stop sent = record { loop_stop = loop_stop; sent = sent }

acked :
    (tdata stopped : Bool) (sent : List Sent)
    → hang_up (send_msg tdata ack (call_of stopped sent)) ≡ call_of true (one_if tdata ack sent)
unfolding hang_up send_msg
acked true stopped sent = refl
acked false stopped sent = refl

invite_handle_lem :
    (early_cancel : Bool) (e : InviteEvent) (stopped : Bool) (sent : List Sent)
    → invite_handle early_cancel e (call_of stopped sent)
      ≡ call_of (ends_call e || stopped) (answer early_cancel e sent)
unfolding invite_handle invite_on_rx_response call_on_state_changed hang_up send_msg
invite_handle_lem early_cancel (received false code tdata) b sent = refl
invite_handle_lem early_cancel (received true code tdata) b sent = elim (Bool-cases (code == 487)) [
  | inl e ↦ rw e (acked tdata b sent)
  | inr e ↦ rw e refl
]
invite_handle_lem early_cancel (state_changed disconnected tdata) b sent = refl
invite_handle_lem true (state_changed early true) b sent = refl
invite_handle_lem true (state_changed early false) b sent = refl
invite_handle_lem false (state_changed early tdata) b sent = refl
invite_handle_lem early_cancel (state_changed confirmed true) b sent = refl
invite_handle_lem early_cancel (state_changed confirmed false) b sent = refl
invite_handle_lem early_cancel (state_changed other_state tdata) b sent = refl

or_turn : (a b c : Bool) → (a || (b || c)) ≡ ((b || a) || c)
or_turn true true c = refl
or_turn true false c = refl
or_turn false true c = refl
or_turn false false c = refl

or_false : (a : Bool) → (a || false) ≡ a
or_false true = refl
or_false false = refl

handle_events_lem :
    (early_cancel : Bool) (es : List InviteEvent) (stopped : Bool) (sent : List Sent)
    → handle_events (invite_handle early_cancel) es (call_of stopped sent)
      ≡ call_of (any_ends es || stopped) (answers early_cancel es sent)
unfolding handle_events
handle_events_lem early_cancel [] b sent = refl
handle_events_lem early_cancel (e ∷ es) b sent =
    ap (handle_events (invite_handle early_cancel) es) (invite_handle_lem early_cancel e b sent)
    ∙ handle_events_lem early_cancel es (ends_call e || b) (answer early_cancel e sent)
    ∙ ap (λ stopped. call_of stopped (answers early_cancel (e ∷ es) sent))
        (or_turn (any_ends es) (ends_call e) b)

invite_stopped :
    (early_cancel : Bool) (polls : List (List InviteEvent)) (sent : List Sent)
    → invite_exchange early_cancel polls (call_of true sent) ≡ call_of true sent
unfolding invite_exchange main_loop
invite_stopped early_cancel [] sent = refl
invite_stopped early_cancel (es ∷ polls) sent = refl

invite_transcript :
    (early_cancel : Bool) (polls : List (List InviteEvent)) (sent : List Sent)
    → invite_exchange early_cancel polls (call_of false sent) ≡ transcript early_cancel polls sent
unfolding invite_exchange main_loop
invite_transcript early_cancel [] sent = refl
invite_transcript early_cancel (es ∷ polls) sent =
    ap (invite_exchange early_cancel polls) (
      handle_events_lem early_cancel es false sent
      ∙ ap (λ stopped. call_of stopped (answers early_cancel es sent)) (or_false (any_ends es)))
    ∙ behind (any_ends es) (invite_transcript early_cancel polls (answers early_cancel es sent))
  where
    rest : Call
    rest = transcript early_cancel polls (answers early_cancel es sent)

    behind :
        (b : Bool)
        → invite_exchange early_cancel polls (call_of false (answers early_cancel es sent)) ≡ rest
        → invite_exchange early_cancel polls (call_of b (answers early_cancel es sent))
          ≡ (if b then call_of true (answers early_cancel es sent) else rest)
    behind true h = invite_stopped early_cancel polls (answers early_cancel es sent)
    behind false h = h

-- `sippak invite` handles all that pjsip reports in order, up to the end of the first call of
-- `pjsip_endpt_handle_events` in which a 487 response comes or the call is disconnected: within that
-- call it still handles what comes behind, so that two 487 in one call get two ACKs, and behind it
-- nothing. Each 487 is acknowledged, an early call is cancelled if that was asked for, and a confirmed
-- one gets BYE, as far as the library makes the message.
pub invite_exchange-transcript :
    (early_cancel : Bool) (polls : List (List InviteEvent))
    → invite_exchange early_cancel polls dialed ≡ transcript early_cancel polls []
invite_exchange-transcript early_cancel polls = invite_transcript early_cancel polls []
