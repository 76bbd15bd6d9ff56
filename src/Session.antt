-- ===== src/Session.antt =====
-- The callbacks of the commands (mod/ping.c, mod/publish.c, mod/subscribe.c, mod/invite.c) and the
-- loop of main.c that pjsip drives them in. The callbacks of mod/message.c, mod/refer.c and
-- mod/notify.c are those of mod/ping.c, but for what they log. Callbacks run in the calls of
-- `pjsip_endpt_handle_events`.
pub mod Chat
pub mod Watch
pub mod Publish
pub mod Subscribe
pub mod Invite
pub mod Register
use sippak.Prelude.{
  ◌≡◌, refl, sym, ap, ◌∙◌, ℕ, Bool, true, false, ◌||◌, List, [], ◌∷◌, ◌++◌, ◌==◌, if◌then◌else◌,
  Bool-cases, inl, inr,
}

-- What is common to all of them: 401 and 407 are challenges.
unfoldable pub is_challenge : ℕ → Bool
is_challenge code = code == 401 || code == 407

-- One call of `pjsip_endpt_handle_events`, which runs the callbacks for all that has come in. What
-- comes in is a parameter: the events that pjsip gets while the program runs.
unfoldable pub handle_events : {S E : Type 0} → (E → S → S) → List E → S → S
handle_events handle_event [] s = s
handle_events handle_event (e ∷ es) s = handle_events handle_event es (handle_event e s)

-- `sippak_main_loop` of main.c, over the events that each call of `pjsip_endpt_handle_events` gets:
-- `sippak_loop_stop` is looked at between these calls only.
unfoldable pub main_loop : {S E : Type 0} → (S → Bool) → (E → S → S) → List (List E) → S → S
unfolding handle_events
main_loop loop_stop handle_event [] s = s
main_loop loop_stop handle_event (es ∷ polls) s =
    let rest = main_loop loop_stop handle_event polls (handle_events handle_event es s) in
    if loop_stop s then s else rest

-- All of the events.
abbrev pub concat : {E : Type 0} → List (List E) → List E
concat [] = []
concat (es ∷ polls) = es ++ concat polls

-- A stricter loop to compare with: it looks at the flag in front of each event.
unfoldable pub guarded : {S E : Type 0} → (S → Bool) → (E → S → S) → List E → S → S
guarded loop_stop handle_event [] s = s
guarded loop_stop handle_event (e ∷ es) s =
    let rest = guarded loop_stop handle_event es (handle_event e s) in
    if loop_stop s then s else rest

module _ {S E : Type 0} (loop_stop : S → Bool) (handle_event : E → S → S) where
  pub guarded_stopped :
      (es : List E) (s : S) → loop_stop s ≡ true → guarded loop_stop handle_event es s ≡ s
  unfolding guarded
  guarded_stopped [] s h = refl
  guarded_stopped (e ∷ es) s h = rw h refl

  pub guarded_cons :
      (e : E) (es : List E) (s : S)
      → loop_stop s ≡ false
      → guarded loop_stop handle_event (e ∷ es) s
        ≡ guarded loop_stop handle_event es (handle_event e s)
  unfolding guarded
  guarded_cons e es s h = rw h refl

  -- What every event preserves holds behind the loop.
  pub main_loop-invariant :
      (P : S → Type 0)
      → ((e : E) (s : S) → P s → P (handle_event e s))
      → (polls : List (List E)) (s : S) → P s
      → P (main_loop loop_stop handle_event polls s)
  unfolding main_loop handle_events
  main_loop-invariant P step [] s h = h
  main_loop-invariant P step (es ∷ polls) s h = elim (Bool-cases (loop_stop s)) [
    | inl e ↦ rw e h
    | inr e ↦ rw e (main_loop-invariant P step polls _ (all es s h))
  ]
    where
      all : (es : List E) (s : S) → P s → P (handle_events handle_event es s)
      all [] s h = h
      all (e ∷ es) s h = all es (handle_event e s) (step e s h)

  module _
      (keeps : (e : E) (s : S) → loop_stop s ≡ true → loop_stop (handle_event e s) ≡ true) where
    handle_events_stopped :
        (es : List E) (s : S)
        → loop_stop s ≡ true
        → loop_stop (handle_events handle_event es s) ≡ true
    unfolding handle_events
    handle_events_stopped [] s h = h
    handle_events_stopped (e ∷ es) s h = handle_events_stopped es (handle_event e s) (keeps e s h)

    guarded-append :
        (es rest : List E) (s : S)
        → loop_stop (guarded loop_stop handle_event (es ++ rest) s)
          ≡ loop_stop (guarded loop_stop handle_event rest (handle_events handle_event es s))
    unfolding handle_events
    guarded-append [] rest s = refl
    guarded-append (e ∷ es) rest s = elim (Bool-cases (loop_stop s)) [
      | inl h ↦
          let behind = handle_events_stopped es (handle_event e s) (keeps e s h) in
          ap loop_stop (guarded_stopped (e ∷ (es ++ rest)) s h)
          ∙ h
          ∙ sym behind
          ∙ ap loop_stop (sym (guarded_stopped rest _ behind))
      | inr h ↦
          ap loop_stop (guarded_cons e (es ++ rest) s h) ∙ guarded-append es rest (handle_event e s)
    ]

    -- Where no callback takes the flag back, the program is told to stop exactly if the stricter loop
    -- is, so it makes no difference to which call of pjsip an event belongs.
    pub main_loop-stop :
        (polls : List (List E)) (s : S)
        → loop_stop (main_loop loop_stop handle_event polls s)
          ≡ loop_stop (guarded loop_stop handle_event (concat polls) s)
    unfolding main_loop
    main_loop-stop [] s = unfold guarded in refl
    main_loop-stop (es ∷ polls) s = elim (Bool-cases (loop_stop s)) [
      | inl h ↦ rw (h, guarded_stopped (es ++ concat polls) s h) refl
      | inr h ↦ rw h (
          main_loop-stop polls (handle_events handle_event es s)
          ∙ sym (guarded-append es (concat polls) s))
    ]
