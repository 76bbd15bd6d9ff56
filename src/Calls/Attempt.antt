-- ===== src/Calls/Attempt.antt =====
-- A description of what the functions that prepare a request do: one call after the other, up to the
-- first that does not succeed.
use sippak.Prelude.{
  ◌≡◌, ◌≢◌, refl, sym, ap, ◌∙◌, true, false, List, [], ◌∷◌, ◌++◌, map, if◌then◌else◌, Bool-cases,
  inl, inr,
}
use sippak.Config.{Status, success, einval, cli_einvarg, failure, Outcome, ok}
use sippak.Calls.{
  Call, Library, Result, value, Run, and_then, ◌>>=◌, ◌>>◌, is_success, assert_succ, asserted,
  leave, call, tell, function, pure, lift,
}

-- A call that has to succeed, and one whose status does not count.
pub data Step : Type 0 where
  must may : Call → Step

abbrev pub call_of : Step → Call
call_of (must c) = c
call_of (may c) = c

-- The status behind the steps, and the calls.
unfoldable pub attempt : Library → List Step → List Call → Status × List Call
attempt lib [] h = (success, h)
attempt lib (may c ∷ steps) h = attempt lib steps (c ∷ h)
attempt lib (must c ∷ steps) h =
    let rest = attempt lib steps (c ∷ h) in
    if is_success (lib.status (c ∷ h)) then rest else (lib.status (c ∷ h), c ∷ h)

-- The calls in front, the last one first.
abbrev pub onto : List Call → List Call → List Call
onto [] h = h
onto (c ∷ cs) h = onto cs (c ∷ h)

pub is_success_sound : (s : Status) → is_success s ≡ true → s ≡ success
is_success_sound success h = refl
is_success_sound einval h = cc
is_success_sound cli_einvarg h = cc
is_success_sound (failure n) h = cc

pub not_success : (s : Status) → is_success s ≡ false → s ≢ success
not_success success bad e = cc
not_success einval bad e = cc
not_success cli_einvarg bad e = cc
not_success (failure n) bad e = cc

-- If the status is success, all of the calls were made, in order.
pub attempt-onto :
    (lib : Library) (steps : List Step) (h : List Call)
    → (attempt lib steps h).0 ≡ success
    → (attempt lib steps h).1 ≡ onto (map call_of steps) h
unfolding attempt
attempt-onto lib [] h e = refl
attempt-onto lib (may c ∷ steps) h e = attempt-onto lib steps (c ∷ h) e
attempt-onto lib (must c ∷ steps) h e = elim (Bool-cases (is_success (lib.status (c ∷ h)))) [
  | inl good ↦ rw good (attempt-onto lib steps (c ∷ h) (rw good at e))
  | inr bad ↦ absurd (not_success _ bad (rw bad at e))
]

-- What a function gives to its caller.
abbrev pub as_value : Status × List Call → Result Status × List Call
as_value (s, h) = (value s, h)

-- A function does what the steps say, whatever was called before.
pub record Does (lib : Library) (steps : List Step) (m : Run Status) : Type 0 where
  pub runs : (h : List Call) → function m h ≡ as_value (attempt lib steps h)

abbrev pub go_on : Library → List Step → Status × List Call → Status × List Call
go_on lib ys (s, h) = if is_success s then attempt lib ys h else (s, h)

pub attempt-append :
    (lib : Library) (xs ys : List Step) (h : List Call)
    → attempt lib (xs ++ ys) h ≡ go_on lib ys (attempt lib xs h)
unfolding attempt
attempt-append lib [] ys h = refl
attempt-append lib (may c ∷ xs) ys h = attempt-append lib xs ys (c ∷ h)
attempt-append lib (must c ∷ xs) ys h = elim (Bool-cases (is_success (lib.status (c ∷ h)))) [
  | inl good ↦ rw good (attempt-append lib xs ys (c ∷ h))
  | inr bad ↦ rw (bad, bad) refl
]

pub call-Does : (lib : Library) (c : Call) → Does lib (must c ∷ []) (call lib c)
unfolding attempt
call-Does lib c = record {
  runs = λ h. elim (Bool-cases (is_success (lib.status (c ∷ h)))) [
    | inl good ↦ rw (good, is_success_sound (lib.status (c ∷ h)) good) refl
    | inr bad ↦ rw bad refl
  ];
}

abbrev pub finish : Result Status × List Call → Result Status × List Call
finish (r, h) = (leave r, h)

assert_succ-Does :
    (lib : Library) (ys : List Step) {k : Run Status}
    → Does lib ys k
    → (p : Status × List Call)
    → finish (and_then (and_then (as_value p) assert_succ) (λ u. k)) ≡ as_value (go_on lib ys p)
assert_succ-Does lib ys {k} d (s, h) = elim (Bool-cases (is_success s)) [
  | inl good ↦ rw good (d.runs h)
  | inr bad ↦ rw bad refl
]

-- Behind a function that has to succeed.
pub asserted-Does :
    (lib : Library) (xs ys : List Step) {m k : Run Status}
    → Does lib xs m
    → Does lib ys k
    → Does lib (xs ++ ys) (asserted m >> k)
asserted-Does lib xs ys {m} {k} dm dk = record {
  runs = λ h.
      ap (λ r. finish (and_then (and_then r assert_succ) (λ u. k))) (dm.runs h)
      ∙ assert_succ-Does lib ys dk (attempt lib xs h)
      ∙ ap as_value (sym (attempt-append lib xs ys h));
}

pub call-Does_then :
    (lib : Library) (c : Call) (ys : List Step) {k : Run Status}
    → Does lib ys k
    → Does lib (must c ∷ ys) (asserted (call lib c) >> k)
call-Does_then lib c ys d = asserted-Does lib (must c ∷ []) ys (call-Does lib c) d

pub tell-Does :
    (lib : Library) (c : Call) (ys : List Step) {k : Run Status}
    → Does lib ys k
    → Does lib (may c ∷ ys) (tell c >> k)
unfolding attempt
tell-Does lib c ys d = record { runs = λ h. d.runs (c ∷ h) }

pub pure-Does : (lib : Library) → Does lib [] (pure success)
unfolding attempt
pure-Does lib = record { runs = λ h. refl }

-- Behind a helper that returns.
pub lift-Does :
    {A : Type 0} (lib : Library) {o : Outcome A} {a : A} (ys : List Step) (k : A → Run Status)
    → o ≡ ok a
    → Does lib ys (k a)
    → Does lib ys (lift o >>= k)
lift-Does lib {o} {a} ys k e d = rw e (record { runs = λ h. d.runs h })
