-- ===== src/Session/Chat.antt =====
-- The callbacks of mod/ping.c: the answer to a response, and the one attempt to authenticate.
pub mod Retry
pub mod Logged
use sippak.Prelude.{
  ℕ, suc, ◌+◌, ◌≤◌, ◌≡◌, refl, ap, ◌∙◌, Bool, true, false, ◌||◌, ◌&&◌, ◌==◌, ==_iff, List, [], ◌∷◌,
  ltb, leb, if◌then◌else◌, Bool-cases, inl, inr, ◌⊎◌, arith,
}
use sippak.Config.{Config}
use sippak.SipHelper.Requests.{Cred, set_cred}
use sippak.Session.{is_challenge, main_loop}

-- `auth_tries`, `sippak_loop_stop` of main.c, and the credentials of the requests that
-- `pjsip_endpt_send_request` sent again.
pub record Chat : Type 0 where
  pub auth_tries : ℕ
  pub loop_stop : Bool
  pub sent : List Cred

abbrev pub started : Chat
started = record { auth_tries = 0; loop_stop = false; sent = [] }

-- What pjsip reports: a response to the module, or the end of a transaction to the callback of the
-- request, with whether the two calls of its authentication client that follow succeed.
pub data Event : Type 0 where
  response : (code : ℕ) → Event
  completed : (status_code : ℕ) (auth_clt_init reinit_req : Bool) → Event

-- `sippak_loop_cancel` of main.c
unfoldable pub loop_cancel : Chat → Chat
loop_cancel chat = record { auth_tries = chat.auth_tries; loop_stop = true; sent = chat.sent }

-- `on_rx_response`, without what it logs
unfoldable pub on_rx_response : ℕ → Chat → Chat
unfolding is_challenge loop_cancel
on_rx_response code chat = if is_challenge code then chat else loop_cancel chat

-- `send_cb`
unfoldable pub send_cb : Config → ℕ → Bool → Bool → Chat → Chat
unfolding is_challenge loop_cancel set_cred
send_cb app status_code auth_clt_init reinit_req chat =
    if is_challenge status_code
    then (let tries = chat.auth_tries + 1 in
        let tried : Chat = record {
          auth_tries = tries;
          loop_stop = chat.loop_stop;
          sent = chat.sent;
        } in
        if ltb 1 tries
        then loop_cancel tried
        else (let cred = set_cred app in
            if auth_clt_init
            then (if reinit_req
                then record {
                  auth_tries = tries;
                  loop_stop = chat.loop_stop;
                  sent = cred ∷ chat.sent;
                }
                else tried)
            else tried))
    else chat

unfoldable pub handle : Config → Event → Chat → Chat
unfolding on_rx_response send_cb
handle app (response code) chat = on_rx_response code chat
handle app (completed status_code auth_clt_init reinit_req) chat =
    send_cb app status_code auth_clt_init reinit_req chat

-- The command from the first request on, over what each call of `pjsip_endpt_handle_events` gets.
unfoldable pub exchange : Config → List (List Event) → Chat → Chat
unfolding main_loop handle
exchange app polls chat = main_loop Chat.loop_stop (handle app) polls chat
