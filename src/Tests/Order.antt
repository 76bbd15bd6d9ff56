-- ===== src/Tests/Order.antt =====
-- The order of the modules, with pjsip's numbers and an insertion into a list.
use sippak.Prelude.{
  ℕ, ◌≤◌, ◌≡◌, refl, List, [], ◌∷◌, leb, All, Bool-cases, inl, inr, if◌then◌else◌, arith,
}
use sippak.Calls.{Module}
use sippak.Modules.{
  Priorities, PriorityLaws, logging_on_rx_msg, logging_on_tx_msg, on_tx_request, pjsip_module,
  Insert, InsertLaw, IsPlaced, registered, incoming, outgoing,
}
use sippak.Modules.Order.{IsPlaced-All}
use sippak.Modules.Runs.{main-order}
use sippak.Calls.{function}
use sippak.Calls.Registrations.{registrations}
use sippak.Dns.{get_ns_list, system_resolv_ns}
use sippak.Main.{main}
use sippak.Tests.{app0}
use sippak.Tests.Runs.{world0, argv0, app1, prepared1, parsed1, reached1}

abbrev prio0 : Priorities
prio0 = record { transport_layer = 8; tsx_layer = 16; application = 64 }

prio0-PriorityLaws : PriorityLaws prio0
prio0-PriorityLaws = record {
  transport_layer_lem = omega arith;
  tsx_layer_lem = omega arith;
  application_lem = omega arith;
}

abbrev number : Module → ℕ
number m = (pjsip_module prio0 m).priority

unfoldable insert0 : Insert
insert0 m [] = m ∷ []
insert0 m (x ∷ xs) =
    let rest = insert0 m xs in if leb (number x) (number m) then x ∷ rest else m ∷ x ∷ xs

abbrev Ascending : List Module → Type 0
Ascending [] = Unit
Ascending (x ∷ xs) = All (λ y. number x ≤ number y) xs × Ascending xs

All-weaken :
    (k n : ℕ) (xs : List Module) → k ≤ n → All (λ y. n ≤ number y) xs → All (λ y. k ≤ number y) xs
All-weaken k n [] h a = tt
All-weaken k n (x ∷ xs) h a = (omega (arith, a.0), All-weaken k n xs h a.1)

insert0-IsPlaced :
    (m : Module) (xs : List Module) → Ascending xs → IsPlaced prio0 m xs (insert0 m xs)
unfolding insert0
insert0-IsPlaced m [] a = record {
  front = [];
  back = [];
  split = refl;
  placed = refl;
  front_below = tt;
  back_above = tt;
}
insert0-IsPlaced m (x ∷ xs) a = elim (Bool-cases (leb (number x) (number m))) [
  | inl e ↦
      let p = insert0-IsPlaced m xs a.1 in
      record {
        front = x ∷ p.front;
        back = p.back;
        split = rw⁻¹ p.split refl;
        placed = rw (e, p.placed) refl;
        front_below = (ground arith, p.front_below);
        back_above = p.back_above;
      }
  | inr e ↦
      let below : number m ≤ number x = ground arith in
      record {
        front = [];
        back = x ∷ xs;
        split = refl;
        placed = rw e refl;
        front_below = tt;
        back_above = (below, All-weaken (number m) (number x) xs below a.0);
      }
]

insert0-Ascending : (m : Module) (xs : List Module) → Ascending xs → Ascending (insert0 m xs)
unfolding insert0
insert0-Ascending m [] a = (tt, tt)
insert0-Ascending m (x ∷ xs) a = elim (Bool-cases (leb (number x) (number m))) [
  | inl e ↦
      let above : number x ≤ number m = ground arith in
      rw e (
        IsPlaced-All (λ y. number x ≤ number y) (insert0-IsPlaced m xs a.1) above a.0,
        insert0-Ascending m xs a.1,
      )
  | inr e ↦
      let below : number m ≤ number x = ground arith in
      rw e ((below, All-weaken (number m) (number x) xs below a.0), a)
]

registered-Ascending : (ms : List Module) → Ascending (registered insert0 ms)
registered-Ascending [] = tt
registered-Ascending (m ∷ ms) =
    insert0-Ascending m (registered insert0 ms) (registered-Ascending ms)

insert0-InsertLaw : InsertLaw prio0 insert0
insert0-InsertLaw m ms = insert0-IsPlaced m (registered insert0 ms) (registered-Ascending ms)

main-order_example :
    let modules = registered insert0 (registrations (function (main world0 argv0 app0) []).1) in
    (outgoing (λ x. (pjsip_module prio0 x).on_tx_request) modules
      ≡ on_tx_request ∷ logging_on_tx_msg ∷ [])
    × (incoming (λ x. (pjsip_module prio0 x).on_rx_response) modules ≡ logging_on_rx_msg ∷ [])
    × (outgoing (λ x. (pjsip_module prio0 x).on_tx_response) modules ≡ logging_on_tx_msg ∷ [])
    × (incoming (λ x. (pjsip_module prio0 x).on_rx_request) modules ≡ logging_on_rx_msg ∷ [])
unfolding pjsip_module get_ns_list system_resolv_ns
main-order_example =
    main-order world0 app1 prepared1 argv0 app0 parsed1 refl (λ e. refl) refl prio0-PriorityLaws
      insert0-InsertLaw reached1
