-- ===== src/Getopts/Values.antt =====
-- The option values of app/getopts.c that are words and numbers.
pub mod Ports
pub mod Types
use sippak.Prelude.{
  ℕ, zero, suc, ◌+◌, ◌-◌, ◌*◌, ◌^◌, ◌≡◌, Bool, true, false, not, ◌&&◌, ◌||◌, List, [], ◌∷◌, Option,
  none, some, length, take, ltb, leb, ◌==◌, if◌then◌else◌,
}
use sippak.Prelude.Int.{ℤ, pos, negsuc, ltb_ℤ}
use sippak.CString.{Bytes, codes, all_digits, drop_spaces, signed_decimal, fits_int}
use sippak.Strings.{Strings}
use sippak.Config.{
  Status, cli_einvarg, Outcome, ok, exit, PjStr, Command, ping, publish, subscribe, notify,
  register, refer, message, invite, Proto, udp, tcp, EvType, max_len_pres_note, Config, CType,
  MediaType,
}

module _ (lib : Strings) where
  -- `atoi`
  unfoldable pub atoi : Bytes → ℤ
  atoi s =
      let value = signed_decimal (drop_spaces s) in
      if fits_int value then value else lib.atoi_overflow s

  -- `parse_command_str`
  unfoldable pub parse_command_str : Bytes → Command
  parse_command_str cmd =
      if lib.strnicmp cmd (codes "ping") 4
      then ping
      else if lib.strnicmp cmd (codes "publish") 7
      then publish
      else if lib.strnicmp cmd (codes "subscribe") 9
      then subscribe
      else if lib.strnicmp cmd (codes "notify") 6
      then notify
      else if lib.strnicmp cmd (codes "register") 8
      then register
      else if lib.strnicmp cmd (codes "refer") 5
      then refer
      else if lib.strnicmp cmd (codes "message") 7
      then message
      else if lib.strnicmp cmd (codes "invite") 6
      then invite
      else Command.unknown

  -- `transport_proto`
  unfoldable pub transport_proto : Bytes → Proto
  transport_proto proto = if lib.strnicmp proto (codes "tcp") 3 then tcp else udp

  -- `is_string_numeric`; its callers pass `pj_optarg`, which it reads.
  unfoldable pub is_string_numeric : Bytes → Bool
  is_string_numeric optarg = all_digits (lib.strtrim optarg)

  -- `set_port_value`
  unfoldable pub set_port_value : Bytes → Outcome ℤ
  unfolding is_string_numeric
  set_port_value port_str =
      let port = atoi port_str in
      if not (is_string_numeric port_str)
      then exit cli_einvarg
      else if ltb_ℤ port (pos 1) || ltb_ℤ (pos (2 * 2 ^ 15 - 1)) port
      then exit cli_einvarg
      else ok port

  -- `pres_status_open`
  unfoldable pub pres_status_open : Bytes → Bool
  pres_status_open status =
      if lib.strnicmp status (codes "closed") 6
      then false
      else if lib.strnicmp status (codes "open") 4
      then true
      else true

  -- `pjstr_trimmed`
  unfoldable pub pjstr_trimmed : Bytes → PjStr
  pjstr_trimmed optarg = some (lib.strtrim optarg)

  -- `pres_note`
  unfoldable pub pres_note : Bytes → PjStr
  pres_note note =
      let val = lib.strtrim note in
      if ltb max_len_pres_note (length val) then some (take max_len_pres_note val) else some val

  -- The two tokens of "type/subtype".
  unfoldable pub split_type : Bytes → MediaType
  split_type value =
      let (found_idx, type) = lib.strtok value b'/' 0 in
      let (found_next, subtype) = lib.strtok value b'/' (found_idx + length type) in
      record { type = some type; subtype = some subtype }

  abbrev application : Bytes → MediaType
  application sub = record { type = some (codes "application"); subtype = some sub }

  -- `set_content_type`
  unfoldable pub set_content_type : Config → Bytes → Config
  unfolding split_type
  set_content_type app type =
      let value = lib.strtrim type in
      if lib.strnicmp value (codes "pidf") 4
      then record app { ctype_media = application (codes "pidf+xml"); ctype_e = CType.pidf }
      else if lib.strnicmp value (codes "xpidf") 5
      then record app { ctype_media = application (codes "xpidf+xml"); ctype_e = CType.xpidf }
      else if lib.strnicmp value (codes "mwi") 3
      then record app {
        ctype_media = application (codes "simple-message-summary");
        ctype_e = CType.mwi;
      }
      else if not (lib.strstr value (codes "/"))
      then record app { ctype_media = application value; ctype_e = CType.other }
      else record app { ctype_media = split_type value; ctype_e = CType.other }

  -- `set_event`
  unfoldable pub set_event : Config → Bytes → Config
  set_event app event =
      let value = lib.strtrim event in
      let pres_ev =
        if lib.strnicmp value (codes "presence") 8
        then EvType.pres
        else if lib.strnicmp value (codes "mwi") 3
            || lib.strnicmp value (codes "message-summary") 15
        then EvType.mwi
        else EvType.other in
      record app { pres_ev = pres_ev; event = some value }
