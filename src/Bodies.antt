-- ===== src/Bodies.antt =====
-- The bodies and headers of requests: `add_message_body` of mod/message.c, and `add_event_hdr`,
-- `add_content_type_hdr` and `add_body_msg` of mod/notify.c.
pub mod Summary
use sippak.Prelude.{
  ℕ, suc, ◌+◌, ◌-◌, Bool, true, false, ◌&&◌, ◌||◌, List, [], ◌∷◌, ◌++◌, Option, none, some, length,
  take, ltb, leb, if◌then◌else◌,
}
use sippak.Prelude.Int.{ℤ, pos, negsuc}
use sippak.CString.{Bytes, codes}
use sippak.Config.{
  Outcome, ok, exit, fault, PjStr, slen, text, EvType, CType, MediaType, Header, Config,
  msg_body_len, sipmsg_body_len,
}
use sippak.SipHelper.Requests.{print_decimal}

-- `app->cfg.body.slen = MSG_BODY_LEN`
abbrev pub cut : PjStr → PjStr
cut none = none
cut (some body) = some (take msg_body_len body)

-- `add_message_body`: the configuration behind it, and the text of the body, whose type is
-- text/plain.
unfoldable pub add_message_body : Config → Config × Bytes
add_message_body app =
    let app' =
      if ltb msg_body_len (slen app.body) then record app { body = cut app.body } else app in
    (app', text app'.body)

abbrev is_pidf : CType → Bool
is_pidf CType.pidf = true
is_pidf CType.xpidf = true
is_pidf _ = false

abbrev is_unset : EvType → Bool
is_unset EvType.unknown = true
is_unset _ = false

abbrev event_value : EvType → PjStr → PjStr
event_value EvType.unknown event = some (codes "keep-alive")
event_value EvType.pres event = some (codes "presence")
event_value EvType.mwi event = some (codes "message-summary")
event_value EvType.other event = event

-- `add_event_hdr`: the configuration behind it, and the value of the Event header.
unfoldable pub add_event_hdr : Config → Config × PjStr
add_event_hdr app =
    let app' =
      if is_pidf app.ctype_e && is_unset app.pres_ev
      then record app { pres_ev = EvType.pres }
      else app in
    (app', event_value app'.pres_ev app'.event)

-- `pjsip_pres_status`, as the code fills it.
pub record PresStatus : Type 0 where
  pub basic_open : Bool
  pub id : PjStr
  pub note : PjStr
  pub is_busy : Bool

-- What a NOTIFY gets: no body, a text, a presence document that pjsip makes, or only the
-- Content-Type header.
pub data Body : Type 0 where
  no_body : Body
  text_body : MediaType → Bytes → Body
  pidf_body : PresStatus → PjStr → Body
  xpidf_body : PresStatus → PjStr → Body
  content_type : Bytes → Body

-- `%d`
unfoldable pub print_int : ℤ → Bytes
unfolding print_decimal
print_int (pos n) = print_decimal n
print_int (negsuc n) = b'-' ∷ print_decimal (suc n)

abbrev waiting : ℤ → Bytes
waiting (pos (suc n)) = codes "yes"
waiting _ = codes "no"

-- The text that `pj_ansi_snprintf` prints, with the four counts of `app->cfg.mwi`.
unfoldable pub summary_text : PjStr → ℤ → ℤ → ℤ → ℤ → Bytes
unfolding print_int
summary_text mwi_acc new old urgent_new urgent_old =
    codes "Messages-Waiting: "
    ++ (waiting new
        ++ (13
            ∷ 10
            ∷ (codes "Message-Account: "
                ++ (text mwi_acc
                    ++ (13
                        ∷ 10
                        ∷ (codes "Voice-Message: "
                            ++ (print_int new
                                ++ (b'/'
                                    ∷ (print_int old
                                        ++ (codes " ("
                                            ++ (print_int urgent_new
                                                ++ (b'/'
                                                    ∷ (print_int urgent_old
                                                        ++ (b')' ∷ 13 ∷ 10 ∷ []))))))))))))))

-- `pj_ansi_snprintf` keeps what fits the buffer before a NUL, and gives the length of the whole text;
-- `pjsip_msg_body_create` copies that many bytes from the buffer.
unfoldable pub through_buffer : Bytes → Outcome Bytes
through_buffer printed =
    if ltb (length printed) sipmsg_body_len
    then ok printed
    else if leb (length printed) sipmsg_body_len
    then ok (take (sipmsg_body_len - 1) printed ++ (0 ∷ []))
    else fault

abbrev summary_of : Config → List ℤ → Outcome Bytes
summary_of app (new ∷ old ∷ urgent_new ∷ urgent_old ∷ []) =
    through_buffer (summary_text app.mwi_acc new old urgent_new urgent_old)
summary_of app _ = fault

abbrev as_text : MediaType → Outcome Bytes → Outcome Body
as_text type (ok b) = ok (text_body type b)
as_text type (exit s) = exit s
as_text type fault = fault

abbrev typed : Option Bytes → Body
typed none = no_body
typed (some value) = content_type value

-- `add_content_type_hdr`, with what `pjsip_media_type_print` gives in 512 bytes, `none` for -1.
unfoldable pub add_content_type_hdr : (MediaType → Option Bytes) → CType → MediaType → Body
add_content_type_hdr media_type_print CType.unknown type = no_body
add_content_type_hdr media_type_print _ type = typed (media_type_print type)

abbrev pres_status : Config → PresStatus
pres_status app = record {
  basic_open = app.pres_status_open;
  id = app.dest;
  note = app.pres_note;
  is_busy = if app.pres_status_open then false else true;
}

abbrev pub body_of : (MediaType → Option Bytes) → Bool → Config → CType → Body
body_of media_type_print created app CType.pidf =
    if created then pidf_body (pres_status app) app.dest else no_body
body_of media_type_print created app CType.xpidf =
    if created then xpidf_body (pres_status app) app.dest else no_body
body_of media_type_print created app ctype_e =
    add_content_type_hdr media_type_print ctype_e app.ctype_media

-- `add_body_msg`; `created` is whether pjsip makes the presence document.
unfoldable pub add_body_msg : (MediaType → Option Bytes) → Bool → Config → Outcome Body
unfolding summary_text through_buffer add_content_type_hdr
add_body_msg media_type_print created app =
    if app.is_mwi
    then as_text app.ctype_media (summary_of app app.mwi)
    else ok (body_of media_type_print created app app.ctype_e)
