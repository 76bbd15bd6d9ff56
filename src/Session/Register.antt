-- ===== src/Session/Register.antt =====
-- The callback of mod/register.c.
use sippak.Prelude.{
  ℕ, suc, ◌+◌, ◌≡◌, refl, ap, ◌∙◌, Bool, true, false, List, [], ◌∷◌, ◌++◌, length, ◌==◌,
  if◌then◌else◌,
}
use sippak.CString.{Bytes, codes}
use sippak.Config.{Config}
use sippak.SipHelper.Requests.{print_decimal}
use sippak.Session.{main_loop, concat, guarded, guarded_stopped, guarded_cons, main_loop-stop}
use sippak.Logger.{Output, logged}

-- `pjsip_regc_cbparam`: the status code and its reason, and the text that `print_on` gives for each
-- contact.
pub record RegResult : Type 0 where
  pub code : ℕ
  pub reason : Bytes
  pub contact : List Bytes

-- `sippak_loop_stop`, and what was logged.
pub record Registering : Type 0 where
  pub loop_stop : Bool
  pub log : List Output

abbrev response_text : Bytes → RegResult → Bytes
response_text what regp = what ++ (print_decimal regp.code ++ (codes " " ++ regp.reason))

-- The loop over the contacts, from an index.
unfoldable pub contact_lines : ℕ → List Bytes → List Output
unfolding print_decimal
contact_lines i [] = []
contact_lines i (buf ∷ bufs) =
    logged 3 (codes "\t" ++ (print_decimal (i + 1) ++ (codes " - " ++ buf)))
    ∷ contact_lines (suc i) bufs

unfoldable pub print_reg_success : Config → RegResult → List Output
unfolding contact_lines
print_reg_success app regp =
    let what =
      if app.cancel_all_reg
      then codes "Cancel all registrations. Response received: "
      else if app.cancel
      then codes "Unregister contact. Response received: "
      else if app.is_clist
      then codes "Request for current contacts. Response received: "
      else codes "Successfully registered. Response received: " in
    logged 3 (response_text what regp)
    ∷ logged 3 (codes "Contacts list (" ++ (print_decimal (length regp.contact) ++ codes "):"))
    ∷ contact_lines 0 regp.contact

-- What `reg_callback` logs.
unfoldable pub reg_lines : Config → RegResult → List Output
unfolding print_reg_success
reg_lines app regp =
    if regp.code == 200
    then print_reg_success app regp
    else if regp.code == 401
    then logged 1 (codes "Authentication failed. Check your username and password") ∷ []
    else logged 1 (response_text (codes "Registration response: ") regp) ∷ []

unfoldable pub reg_callback : Config → RegResult → Registering → Registering
unfolding reg_lines
reg_callback app regp s = record { loop_stop = true; log = s.log ++ reg_lines app regp }

unfoldable pub register_exchange : Config → List (List RegResult) → Registering → Registering
unfolding main_loop reg_callback
register_exchange app polls s = main_loop Registering.loop_stop (reg_callback app) polls s

abbrev pub any_result : List RegResult → Bool
any_result [] = false
any_result (regp ∷ results) = true

abbrev pub registering : Registering
registering = record { loop_stop = false; log = [] }

-- `sippak register` is told to end as soon as pjsip reports a result, whatever its code.
pub register_exchange-stop :
    (app : Config) (polls : List (List RegResult))
    → (register_exchange app polls registering).loop_stop ≡ any_result (concat polls)
unfolding register_exchange reg_callback
register_exchange-stop app polls =
    main_loop-stop Registering.loop_stop (reg_callback app) (λ regp s h. refl) polls registering
    ∙ in_turn (concat polls)
  where
    in_turn :
        (results : List RegResult)
        → Registering.loop_stop
            (guarded Registering.loop_stop (reg_callback app) results registering)
          ≡ any_result results
    in_turn [] = unfold guarded in refl
    in_turn (regp ∷ results) = ap Registering.loop_stop (
        guarded_cons Registering.loop_stop (reg_callback app) regp results registering refl
        ∙ guarded_stopped Registering.loop_stop (reg_callback app) results
            (reg_callback app regp registering) refl)
