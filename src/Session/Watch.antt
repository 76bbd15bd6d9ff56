-- ===== src/Session/Watch.antt =====
-- What mod/publish.c and mod/subscribe.c keep, each on its own.
use sippak.Prelude.{ℕ, ◌+◌, ◌%◌, ◌^◌, Bool, true, false}

-- `auth_tries` of the module, a `short unsigned`, and `sippak_loop_stop` of main.c.
pub record Watch : Type 0 where
  pub auth_tries : ℕ
  pub loop_stop : Bool

-- `auth_tries++`, which wraps.
abbrev pub increment : ℕ → ℕ
increment auth_tries = (auth_tries + 1) % 2 ^ 16

abbrev pub begin : Watch
begin = record { auth_tries = 0; loop_stop = false }

abbrev pub stopping : Watch → Watch
stopping w = record { auth_tries = w.auth_tries; loop_stop = true }

abbrev pub tried : Watch → Watch
tried w = record { auth_tries = increment w.auth_tries; loop_stop = w.loop_stop }
