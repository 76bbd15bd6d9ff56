-- ===== src/Modules.antt =====
-- The `pjsip_module` tables of src/mod, and the order in which pjsip calls their functions.
pub mod Order
pub mod Runs
use sippak.Prelude.{ℕ, ◌+◌, ◌-◌, ◌≤◌, ◌<◌, ◌≡◌, List, [], ◌∷◌, ◌++◌, Option, none, some, All}
use mathlib.Core.List.{reverse}
use sippak.CString.{Bytes, codes}
use sippak.Calls.{
  Module, mod_ping, mod_message, mod_refer, mod_notify, mod_publish, mod_subscribe, mod_register,
  mod_invite, msg_logger, sip_mangler,
}

-- `enum pjsip_module_priority`
pub record Priorities : Type 0 where
  pub transport_layer : ℕ
  pub tsx_layer : ℕ
  pub application : ℕ

-- As pjsip/sip_module.h orders them, with room for one below each.
pub record PriorityLaws (prio : Priorities) : Type 0 where
  pub transport_layer_lem : 0 < prio.transport_layer
  pub tsx_layer_lem : prio.transport_layer + 1 < prio.tsx_layer
  pub application_lem : prio.tsx_layer + 1 < prio.application

-- The functions in the tables.
pub data Callback : Type 0 where
  logging_on_rx_msg logging_on_tx_msg on_tx_request : Callback
  on_rx_response : Module → Callback

-- A table; `none` is NULL. `slen` is the length that stands with the name.
pub record PjsipModule : Type 0 where
  pub name : Bytes
  pub slen : ℕ
  pub priority : ℕ
  pub on_rx_request : Option Callback
  pub on_rx_response : Option Callback
  pub on_tx_request : Option Callback
  pub on_tx_response : Option Callback

-- A table with no function but `on_rx_response`.
abbrev responding : Bytes → ℕ → ℕ → Module → PjsipModule
responding name slen priority m = record {
  name = name;
  slen = slen;
  priority = priority;
  on_rx_request = none;
  on_rx_response = some (on_rx_response m);
  on_tx_request = none;
  on_tx_response = none;
}

-- `msg_logger` of logger.c and `mod_sip_mangler` of sip_mangler.c.
abbrev logger_module : Priorities → PjsipModule
logger_module prio = record {
  name = codes "mod-logger";
  slen = 11;
  priority = prio.transport_layer - 1;
  on_rx_request = some logging_on_rx_msg;
  on_rx_response = some logging_on_rx_msg;
  on_tx_request = some logging_on_tx_msg;
  on_tx_response = some logging_on_tx_msg;
}

abbrev mangler_module : Priorities → PjsipModule
mangler_module prio = record {
  name = codes "mod-sip-mangler";
  slen = 15;
  priority = prio.tsx_layer;
  on_rx_request = none;
  on_rx_response = none;
  on_tx_request = some on_tx_request;
  on_tx_response = none;
}

-- The tables of the commands, each in the file of its name.
abbrev register_module : Priorities → PjsipModule
register_module prio = record {
  name = codes "mod-register";
  slen = 12;
  priority = prio.application - 1;
  on_rx_request = none;
  on_rx_response = none;
  on_tx_request = none;
  on_tx_response = none;
}

abbrev ping_module : Priorities → PjsipModule
ping_module prio = responding (codes "mod-ping") 9 prio.transport_layer mod_ping

abbrev message_module : Priorities → PjsipModule
message_module prio = responding (codes "mod-message") 11 prio.transport_layer mod_message

abbrev notify_module : Priorities → PjsipModule
notify_module prio = responding (codes "mod-notify") 10 prio.transport_layer mod_notify

abbrev refer_module : Priorities → PjsipModule
refer_module prio = responding (codes "mod-refer") 9 (prio.tsx_layer - 1) mod_refer

abbrev publish_module : Priorities → PjsipModule
publish_module prio = responding (codes "mod-publish") 11 (prio.tsx_layer - 1) mod_publish

abbrev subscribe_module : Priorities → PjsipModule
subscribe_module prio = responding (codes "mod-publish") 11 (prio.tsx_layer - 1) mod_subscribe

abbrev invite_module : Priorities → PjsipModule
invite_module prio = responding (codes "mod-sippak-inv") 14 (prio.tsx_layer - 1) mod_invite

unfoldable pub pjsip_module : Priorities → Module → PjsipModule
pjsip_module prio msg_logger = logger_module prio
pjsip_module prio sip_mangler = mangler_module prio
pjsip_module prio mod_register = register_module prio
pjsip_module prio mod_ping = ping_module prio
pjsip_module prio mod_message = message_module prio
pjsip_module prio mod_notify = notify_module prio
pjsip_module prio mod_refer = refer_module prio
pjsip_module prio mod_publish = publish_module prio
pjsip_module prio mod_subscribe = subscribe_module prio
pjsip_module prio mod_invite = invite_module prio

-- pjsip's list of modules: `pjsip_endpt_register_module` puts a module into it.
abbrev pub Insert : Type 0
Insert = Module → List Module → List Module

-- The list behind registrations, the last one first.
abbrev pub registered : Insert → List Module → List Module
registered insert [] = []
registered insert (m ∷ ms) = insert m (registered insert ms)

-- The place of a module: behind no module of a greater priority, in front of none of a smaller one.
pub record IsPlaced (prio : Priorities) (m : Module) (before after : List Module) : Type 0 where
  pub front : List Module
  pub back : List Module
  pub split : before ≡ front ++ back
  pub placed : after ≡ front ++ (m ∷ back)
  pub front_below : All (λ x. (pjsip_module prio x).priority ≤ (pjsip_module prio m).priority) front
  pub back_above : All (λ x. (pjsip_module prio m).priority ≤ (pjsip_module prio x).priority) back

-- pjsip keeps its list in the order of the priorities.
abbrev pub InsertLaw : Priorities → Insert → Type 0
InsertLaw prio insert =
    (m : Module) (ms : List Module)
    → IsPlaced prio m (registered insert ms) (registered insert (m ∷ ms))

-- The functions of one kind in the modules of a list.
abbrev pub with_callback : Option Callback → List Callback → List Callback
with_callback none cs = cs
with_callback (some c) cs = c ∷ cs

unfoldable pub callbacks : (Module → Option Callback) → List Module → List Callback
callbacks field [] = []
callbacks field (m ∷ ms) = with_callback (field m) (callbacks field ms)

-- Messages that come in go through the list, those that go out in the reverse order.
abbrev pub incoming : (Module → Option Callback) → List Module → List Callback
incoming field ms = callbacks field ms

abbrev pub outgoing : (Module → Option Callback) → List Module → List Callback
outgoing field ms = reverse (callbacks field ms)
