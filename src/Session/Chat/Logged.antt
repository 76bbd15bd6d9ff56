-- ===== src/Session/Chat/Logged.antt =====
-- The callbacks of mod/ping.c, mod/message.c, mod/refer.c and mod/notify.c, with what they log.
use sippak.Prelude.{
  ℕ, ◌+◌, ◌≡◌, refl, Bool, true, false, not, List, [], ◌∷◌, ◌++◌, Option, none, some, ltb, ◌==◌,
  if◌then◌else◌, Bool-cases, inl, inr,
}
use sippak.Prelude.Int.{ℤ, pos, negsuc}
use sippak.CString.{Bytes, codes}
use sippak.Config.{Config}
use sippak.SipHelper.Requests.{print_decimal, set_cred}
use sippak.Bodies.{print_int}
use sippak.Calls.{Method, options, message, refer, notify}
use sippak.Session.{is_challenge}
use sippak.Session.Chat.{Chat, Event, loop_cancel, on_rx_response, send_cb, handle}

-- `pjsip_via_hdr`, and a response with its Via header, if it has one.
pub record Via : Type 0 where
  pub rport_param : ℤ
  pub recvd_param : Bytes

pub record Reply : Type 0 where
  pub code : ℕ
  pub reason : Bytes
  pub via : Option Via

-- `PJ_LOG(level, (NAME, ..))`: the sender, which pjsip shows if asked to, the level and the text.
pub record Line : Type 0 where
  pub sender : Bytes
  pub level : ℕ
  pub line : Bytes

abbrev pj_log : Bytes → ℕ → Bytes → Line
pj_log name level line = record { sender = name; level = level; line = line }

abbrev is_zero : ℤ → Bool
is_zero (pos n) = n == 0
is_zero (negsuc n) = false

-- The condition on the Via header: `via`, and in mod/refer.c `via && via->rport_param`.
abbrev pub any_via : Via → Bool
any_via via = true

abbrev pub via_with_rport : Via → Bool
via_with_rport via = not (is_zero via.rport_param)

abbrev via_line : Bytes → Via → Line
via_line name via = pj_log name 3 (
    codes "Via rport: " ++ (print_int via.rport_param ++ (codes ", received: " ++ via.recvd_param)))

abbrev via_lines : Bytes → (Via → Bool) → Option Via → List Line
via_lines name shows none = []
via_lines name shows (some via) = if shows via then via_line name via ∷ [] else []

-- The text that the four `on_rx_response` share but for NAME and that condition.
unfoldable pub respond : Bytes → (Via → Bool) → Reply → Chat → Chat × List Line
unfolding is_challenge loop_cancel print_decimal print_int
respond name shows msg chat =
    let log =
      pj_log name 3
        (codes "Response received: " ++ (print_decimal msg.code ++ (codes " " ++ msg.reason)))
      ∷ via_lines name shows msg.via in
    if is_challenge msg.code then (chat, log) else (loop_cancel chat, log)

-- The text that the four `send_cb` share but for NAME.
unfoldable pub retry : Bytes → Config → ℕ → Bool → Bool → Chat → Chat × List Line
unfolding is_challenge loop_cancel set_cred
retry name app status_code auth_clt_init reinit_req chat =
    let tries = chat.auth_tries + 1 in
    let tried : Chat = record {
      auth_tries = tries;
      loop_stop = chat.loop_stop;
      sent = chat.sent;
    } in
    let again : Chat = record {
      auth_tries = tries;
      loop_stop = chat.loop_stop;
      sent = set_cred app ∷ chat.sent;
    } in
    if not (is_challenge status_code)
    then (chat, [])
    else if ltb 1 tries
    then (
      loop_cancel tried,
      pj_log name 1 (codes "Authentication failed. Check your username and password") ∷ [],
    )
    else if not auth_clt_init
    then (tried, pj_log name 1 (codes "Failed init authentication credentials.") ∷ [])
    else if not reinit_req
    then (tried, pj_log name 1 (codes "Failed to re-init client authentication session.") ∷ [])
    else (again, [])

abbrev pub ping_on_rx_response : Reply → Chat → Chat × List Line
ping_on_rx_response = respond (codes "mod_ping") any_via

abbrev pub message_on_rx_response : Reply → Chat → Chat × List Line
message_on_rx_response = respond (codes "mod_message") any_via

abbrev pub refer_on_rx_response : Reply → Chat → Chat × List Line
refer_on_rx_response = respond (codes "mod_refer") via_with_rport

abbrev pub notify_on_rx_response : Reply → Chat → Chat × List Line
notify_on_rx_response = respond (codes "mod_notify") any_via

abbrev pub ping_send_cb : Config → ℕ → Bool → Bool → Chat → Chat × List Line
ping_send_cb = retry (codes "mod_ping")

abbrev pub message_send_cb : Config → ℕ → Bool → Bool → Chat → Chat × List Line
message_send_cb = retry (codes "mod_message")

abbrev pub refer_send_cb : Config → ℕ → Bool → Bool → Chat → Chat × List Line
refer_send_cb = retry (codes "mod_refer")

abbrev pub notify_send_cb : Config → ℕ → Bool → Bool → Chat → Chat × List Line
notify_send_cb = retry (codes "mod_notify")

-- What pjsip reports, with the whole response.
pub data Report : Type 0 where
  reply : Reply → Report
  ended : (status_code : ℕ) (auth_clt_init reinit_req : Bool) → Report

abbrev pub as_event : Report → Event
as_event (reply msg) = Event.response msg.code
as_event (ended status_code auth_clt_init reinit_req) =
    Event.completed status_code auth_clt_init reinit_req

-- The callbacks of the module that the command registers.
unfoldable pub report : Method → Config → Report → Chat → Chat × List Line
unfolding respond retry
report options app (reply msg) chat = ping_on_rx_response msg chat
report message app (reply msg) chat = message_on_rx_response msg chat
report refer app (reply msg) chat = refer_on_rx_response msg chat
report notify app (reply msg) chat = notify_on_rx_response msg chat
report options app (ended code init reinit) chat = ping_send_cb app code init reinit chat
report message app (ended code init reinit) chat = message_send_cb app code init reinit chat
report refer app (ended code init reinit) chat = refer_send_cb app code init reinit chat
report notify app (ended code init reinit) chat = notify_send_cb app code init reinit chat

respond-on_rx_response :
    (name : Bytes) (shows : Via → Bool) (msg : Reply) (chat : Chat)
    → (respond name shows msg chat).0 ≡ on_rx_response msg.code chat
unfolding respond on_rx_response
respond-on_rx_response name shows msg chat = elim (Bool-cases (is_challenge msg.code)) [
  | inl c ↦ rw c refl
  | inr c ↦ rw c refl
]

retry-send_cb :
    (name : Bytes) (app : Config) (code : ℕ) (init reinit : Bool) (chat : Chat)
    → (retry name app code init reinit chat).0 ≡ send_cb app code init reinit chat
unfolding retry send_cb
retry-send_cb name app code init reinit chat = elim (Bool-cases (is_challenge code)) [
  | inr c ↦ rw c refl
  | inl c ↦ elim (Bool-cases (ltb 1 (chat.auth_tries + 1))) [
    | inl many ↦ rw (c, many) refl
    | inr few ↦ elim (Bool-cases init) [
      | inr i ↦ rw (c, few, i) refl
      | inl i ↦ elim (Bool-cases reinit) [
        | inl r ↦ rw (c, few, i, r) refl
        | inr r ↦ rw (c, few, i, r) refl
      ]
    ]
  ]
]

-- Whichever of the four modules pjsip reports to, the session changes as that of `handle` does.
report-handle :
    (method : Method) (app : Config) (e : Report) (chat : Chat)
    → (report method app e chat).0 ≡ handle app (as_event e) chat
unfolding report handle
report-handle options app (reply msg) chat =
    respond-on_rx_response (codes "mod_ping") any_via msg chat
report-handle message app (reply msg) chat =
    respond-on_rx_response (codes "mod_message") any_via msg chat
report-handle refer app (reply msg) chat =
    respond-on_rx_response (codes "mod_refer") via_with_rport msg chat
report-handle notify app (reply msg) chat =
    respond-on_rx_response (codes "mod_notify") any_via msg chat
report-handle options app (ended code init reinit) chat =
    retry-send_cb (codes "mod_ping") app code init reinit chat
report-handle message app (ended code init reinit) chat =
    retry-send_cb (codes "mod_message") app code init reinit chat
report-handle refer app (ended code init reinit) chat =
    retry-send_cb (codes "mod_refer") app code init reinit chat
report-handle notify app (ended code init reinit) chat =
    retry-send_cb (codes "mod_notify") app code init reinit chat
