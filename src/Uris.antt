-- ===== src/Uris.antt =====
-- What the program takes from pjsip's URIs (pjsip/sip_uri.h): a type of parsed URIs that the
-- program reads and writes by its fields.
use sippak.Prelude.{Option}
use sippak.CString.{Bytes}
use sippak.Config.{PjStr}

-- `print_...` is `pjsip_uri_print` in a context, `none` where it gives -1; `print_name` prints a
-- name address with a display name in the From context. In `set_user`, `none` is
-- `user.ptr = NULL`.
pub record Uris : Type 1 where
  pub Uri : Type 0
  pub parse : Bytes → Option Uri
  pub user : Uri → PjStr
  pub set_user : PjStr → Uri → Uri
  pub set_lr : Uri → Uri
  pub set_transport : Bytes → Uri → Uri
  pub print_routing : Uri → Option Bytes
  pub print_req : Uri → Option Bytes
  pub print_fromto : Uri → Option Bytes
  pub print_name : PjStr → Uri → Option Bytes
