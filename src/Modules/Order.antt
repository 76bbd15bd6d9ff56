-- ===== src/Modules/Order.antt =====
-- In which order the functions of the modules that a run registers are called.
use sippak.Prelude.{
  ◌⊎◌, inl, inr, ◌-◌, ◌≤◌, ◌<◌, ◌≡◌, ◌≢◌, refl, sym, ap, ◌∙◌, List, [], ◌∷◌, ◌++◌, append-nil,
  Option, none, some, All, arith,
}
use mathlib.Core.List.{reverse}
use sippak.Calls.{Module, mod_register, msg_logger, sip_mangler}
use sippak.Modules.{
  Priorities, PriorityLaws, Callback, logging_on_rx_msg, logging_on_tx_msg, on_tx_request,
  pjsip_module, Insert, InsertLaw, IsPlaced, registered, incoming, outgoing, with_callback,
  callbacks,
}

with_callback-append :
    (c : Option Callback) (xs ys : List Callback)
    → with_callback c (xs ++ ys) ≡ with_callback c xs ++ ys
with_callback-append none xs ys = refl
with_callback-append (some c) xs ys = refl

All-split : {A : Type 0} (P : A → Type 0) (xs ys : List A) → All P (xs ++ ys) → All P xs × All P ys
All-split P [] ys h = (tt, h)
All-split P (x ∷ xs) ys h = let (here, rest) = All-split P xs ys h.1 in ((h.0, here), rest)

All-join : {A : Type 0} (P : A → Type 0) (xs ys : List A) → All P xs → All P ys → All P (xs ++ ys)
All-join P [] ys h k = k
All-join P (x ∷ xs) ys h k = (h.0, All-join P xs ys h.1 k)

module _ (field : Module → Option Callback) where
  callbacks-append :
      (xs ys : List Module) → callbacks field (xs ++ ys) ≡ callbacks field xs ++ callbacks field ys
  unfolding callbacks
  callbacks-append [] ys = refl
  callbacks-append (x ∷ xs) ys =
      ap (with_callback (field x)) (callbacks-append xs ys)
      ∙ with_callback-append (field x) (callbacks field xs) (callbacks field ys)

  -- Modules without the function add nothing.
  callbacks-none : (xs : List Module) → All (λ x. field x ≡ none) xs → callbacks field xs ≡ []
  unfolding callbacks
  callbacks-none [] h = refl
  callbacks-none (x ∷ xs) h = rw h.0 (callbacks-none xs h.1)

  module _ {prio : Priorities} {m : Module} {before after : List Module}
      (p : IsPlaced prio m before after) where
    -- A module without the function changes nothing.
    IsPlaced-none : field m ≡ none → callbacks field after ≡ callbacks field before
    unfolding callbacks
    IsPlaced-none e =
        ap (callbacks field) p.placed
        ∙ callbacks-append p.front (m ∷ p.back)
        ∙ rw e (sym (callbacks-append p.front p.back))
        ∙ ap (callbacks field) (sym p.split)

    -- What stands in front of it.
    abbrev IsLess : Module → Type 0
    IsLess x = (field x ≡ none) ⊎ ((pjsip_module prio x).priority < (pjsip_module prio m).priority)

    back-none :
        (back : List Module)
        → All (λ x. (pjsip_module prio m).priority ≤ (pjsip_module prio x).priority) back
        → All IsLess back
        → callbacks field back ≡ []
    unfolding callbacks
    back-none [] above less = refl
    back-none (x ∷ back) above (inl e, less) = rw e (back-none back above.1 less)
    back-none (x ∷ back) above (inr h, less) = absurd (omega (arith, above.0, h))

    -- A module with the function stands last if all others with it have smaller priorities.
    IsPlaced-last :
        {c : Callback}
        → field m ≡ some c
        → All IsLess before
        → callbacks field after ≡ callbacks field before ++ (c ∷ [])
    unfolding callbacks
    IsPlaced-last {c} e less =
        let (front_less, back_less) = All-split IsLess p.front p.back (rw p.split at less) in
        let empty = back-none p.back p.back_above back_less in
        let here : with_callback (field m) (callbacks field p.back) ≡ c ∷ [] = rw (e, empty) refl in
        let all_before : callbacks field before ≡ callbacks field p.front =
          ap (callbacks field) p.split
          ∙ callbacks-append p.front p.back
          ∙ ap (λ cs. callbacks field p.front ++ cs) empty
          ∙ append-nil (callbacks field p.front) in
        ap (callbacks field) p.placed
        ∙ callbacks-append p.front (m ∷ p.back)
        ∙ ap (λ cs. callbacks field p.front ++ cs) here
        ∙ ap (λ cs. cs ++ (c ∷ [])) (sym all_before)

-- What holds of the modules of a list and of a new one holds of the list with it.
pub IsPlaced-All :
    {prio : Priorities} {m : Module} {before after : List Module} (P : Module → Type 0)
    → IsPlaced prio m before after
    → P m
    → All P before
    → All P after
IsPlaced-All {m = m} P p here all =
    let (front, back) = All-split P p.front p.back (rw p.split at all) in
    rw p.placed (All-join P p.front (m ∷ p.back) front (here, back))

-- The tables of the modules of commands have no function but `on_rx_response`, and priorities above
-- the logger's.
record IsCommand (prio : Priorities) (m : Module) : Type 0 where
  pub rx_request : (pjsip_module prio m).on_rx_request ≡ none
  pub tx_request : (pjsip_module prio m).on_tx_request ≡ none
  pub tx_response : (pjsip_module prio m).on_tx_response ≡ none
  pub above : (pjsip_module prio msg_logger).priority < (pjsip_module prio m).priority

module _ {prio : Priorities} (laws : PriorityLaws prio) where
  abbrev low : prio.transport_layer - 1 < prio.transport_layer
  low = omega (arith, laws.transport_layer_lem)

  commands-IsCommand : (m : Module) → m ≢ msg_logger → m ≢ sip_mangler → IsCommand prio m
  unfolding pjsip_module
  commands-IsCommand msg_logger l g = absurd (l refl)
  commands-IsCommand sip_mangler l g = absurd (g refl)
  commands-IsCommand mod_register l g = record {
    rx_request = refl;
    tx_request = refl;
    tx_response = refl;
    above = omega (arith, laws.transport_layer_lem, laws.tsx_layer_lem, laws.application_lem);
  }
  commands-IsCommand _ l g = record {
    rx_request = refl;
    tx_request = refl;
    tx_response = refl;
    above = omega (arith, laws.transport_layer_lem, laws.tsx_layer_lem);
  }

  module _ {insert : Insert} (law : InsertLaw prio insert) (m : Module) where
    -- The list behind a run, which registers the logger, the mangler and the module of the command.
    abbrev modules : List Module
    modules = registered insert (m ∷ sip_mangler ∷ msg_logger ∷ [])

    -- The list in front of the last registration.
    before_command :
        (P : Module → Type 0)
        → P msg_logger
        → P sip_mangler
        → All P (registered insert (sip_mangler ∷ msg_logger ∷ []))
    before_command P l g =
        IsPlaced-All P (law sip_mangler (msg_logger ∷ [])) g
          (IsPlaced-All P (law msg_logger []) l tt)

    module _ (field : Module → Option Callback) {c : Callback}
        (logger : field msg_logger ≡ some c) where
      logger_alone : callbacks field (registered insert (msg_logger ∷ [])) ≡ c ∷ []
      unfolding callbacks
      logger_alone = IsPlaced-last field (law msg_logger []) logger tt

      without_mangler :
          field sip_mangler ≡ none
          → callbacks field (registered insert (sip_mangler ∷ msg_logger ∷ [])) ≡ c ∷ []
      without_mangler e = IsPlaced-none field (law sip_mangler (msg_logger ∷ [])) e ∙ logger_alone

    module _ (l : m ≢ msg_logger) (g : m ≢ sip_mangler) where
      command : IsCommand prio m
      command = commands-IsCommand m l g

      requests_out :
          callbacks (λ x. (pjsip_module prio x).on_tx_request) modules
          ≡ logging_on_tx_msg ∷ on_tx_request ∷ []
      unfolding pjsip_module
      requests_out =
          let above : (pjsip_module prio msg_logger).priority
              < (pjsip_module prio sip_mangler).priority =
            omega (arith, laws.transport_layer_lem, laws.tsx_layer_lem) in
          let logger = logger_alone (λ x. (pjsip_module prio x).on_tx_request) refl in
          IsPlaced-none _ (law m (sip_mangler ∷ msg_logger ∷ [])) command.tx_request
          ∙ IsPlaced-last _ (law sip_mangler (msg_logger ∷ [])) refl
              (IsPlaced-All _ (law msg_logger []) (inr above) tt)
          ∙ ap (λ cs. cs ++ (on_tx_request ∷ [])) logger

      responses_in :
          (r : Option Callback)
          → (pjsip_module prio m).on_rx_response ≡ r
          → callbacks (λ x. (pjsip_module prio x).on_rx_response) modules
            ≡ logging_on_rx_msg ∷ with_callback r []
      unfolding pjsip_module
      responses_in none e =
          IsPlaced-none _ (law m (sip_mangler ∷ msg_logger ∷ [])) e
          ∙ without_mangler (λ x. (pjsip_module prio x).on_rx_response) refl refl
      responses_in (some r) e =
          IsPlaced-last _ (law m (sip_mangler ∷ msg_logger ∷ [])) e
            (before_command _ (inr command.above) (inl refl))
          ∙ ap (λ cs. cs ++ (r ∷ []))
              (without_mangler (λ x. (pjsip_module prio x).on_rx_response) refl refl)

      -- The four orders.
      pub modules-order :
          (outgoing (λ x. (pjsip_module prio x).on_tx_request) modules
            ≡ on_tx_request ∷ logging_on_tx_msg ∷ [])
          × (incoming (λ x. (pjsip_module prio x).on_rx_response) modules
              ≡ logging_on_rx_msg ∷ with_callback (pjsip_module prio m).on_rx_response [])
          × (outgoing (λ x. (pjsip_module prio x).on_tx_response) modules ≡ logging_on_tx_msg ∷ [])
          × (incoming (λ x. (pjsip_module prio x).on_rx_request) modules ≡ logging_on_rx_msg ∷ [])
      unfolding pjsip_module
      modules-order = (
        ap reverse requests_out,
        responses_in _ refl,
        ap reverse (
            IsPlaced-none _ (law m (sip_mangler ∷ msg_logger ∷ [])) command.tx_response
            ∙ without_mangler (λ x. (pjsip_module prio x).on_tx_response) refl refl),
        IsPlaced-none _ (law m (sip_mangler ∷ msg_logger ∷ [])) command.rx_request
            ∙ without_mangler (λ x. (pjsip_module prio x).on_rx_request) refl refl,
      )
