-- ===== src/Calls/Ends.antt =====
-- The same for a function with an end of its own behind the steps: another status, or a loop that still
-- waits.
use sippak.Prelude.{
  ◌≡◌, refl, sym, ap, ◌∙◌, Bool, true, false, List, [], ◌∷◌, ◌++◌, map, inl, inr, if◌then◌else◌,
  Bool-cases,
}
use sippak.Config.{Status, success, Outcome, ok}
use sippak.Calls.{
  Call, Library, Result, value, running, Run, and_then, ◌>>=◌, ◌>>◌, is_success, assert_succ,
  asserted, call, tell, function, pure, lift,
}
use sippak.Calls.Attempt.{
  Step, must, may, call_of, attempt, onto, attempt-onto, attempt-append, as_value, Does, call-Does,
  go_on, finish, is_success_sound,
}

-- What the caller gets, by the status behind the steps.
abbrev pub end_of : Result Status → Status → Result Status
end_of end s = if is_success s then end else value s

abbrev pub ends_with : Result Status → Status × List Call → Result Status × List Call
ends_with end (s, h) = (end_of end s, h)

-- A function does what the steps say, up to the first that does not succeed, and then ends so.
pub record Ends (lib : Library) (steps : List Step) (end : Result Status) (m : Run Status)
    : Type 0 where
  pub runs : (h : List Call) → function m h ≡ ends_with end (attempt lib steps h)

pub pure-Ends : (lib : Library) (s : Status) → Ends lib [] (value s) (pure s)
unfolding attempt
pure-Ends lib s = record { runs = λ h. refl }

-- A function that ends with no further call.
pub at_once-Ends :
    (lib : Library) (end : Result Status) (m : Run Status)
    → ((h : List Call) → function m h ≡ (end, h))
    → Ends lib [] end m
unfolding attempt
at_once-Ends lib end m ends = record { runs = λ h. ends h }

pub tell-Ends :
    (lib : Library) (c : Call) (ys : List Step) {end : Result Status} {k : Run Status}
    → Ends lib ys end k
    → Ends lib (may c ∷ ys) end (tell c >> k)
unfolding attempt
tell-Ends lib c ys d = record { runs = λ h. d.runs (c ∷ h) }

pub lift-Ends :
    {A : Type 0} (lib : Library) {o : Outcome A} {a : A} (ys : List Step) {end : Result Status}
    (k : A → Run Status)
    → o ≡ ok a
    → Ends lib ys end (k a)
    → Ends lib ys end (lift o >>= k)
lift-Ends lib ys k e d = rw e (record { runs = λ h. d.runs h })

assert_succ-Ends :
    (lib : Library) (ys : List Step) {end : Result Status} {k : Run Status}
    → Ends lib ys end k
    → (p : Status × List Call)
    → finish (and_then (and_then (as_value p) assert_succ) (λ u. k))
      ≡ ends_with end (go_on lib ys p)
assert_succ-Ends lib ys d (s, h) = elim (Bool-cases (is_success s)) [
  | inl good ↦ rw good (d.runs h)
  | inr bad ↦ rw (bad, bad) refl
]

pub asserted-Ends :
    (lib : Library) (xs ys : List Step) {m : Run Status} {end : Result Status} {k : Run Status}
    → Does lib xs m
    → Ends lib ys end k
    → Ends lib (xs ++ ys) end (asserted m >> k)
asserted-Ends lib xs ys {m} {end} {k} dm dk = record {
  runs = λ h.
      ap (λ r. finish (and_then (and_then r assert_succ) (λ u. k))) (dm.runs h)
      ∙ assert_succ-Ends lib ys dk (attempt lib xs h)
      ∙ ap (ends_with end) (sym (attempt-append lib xs ys h));
}

pub call-Ends_then :
    (lib : Library) (c : Call) (ys : List Step) {end : Result Status} {k : Run Status}
    → Ends lib ys end k
    → Ends lib (must c ∷ ys) end (asserted (call lib c) >> k)
call-Ends_then lib c ys d = asserted-Ends lib (must c ∷ []) ys (call-Does lib c) d

-- A run that ended with success, or that waits in its loop.
abbrev pub reached : Result Status → Bool
reached (value s) = is_success s
reached running = true
reached _ = false

reached-end_of : (end : Result Status) (s : Status) → reached (end_of end s) ≡ true → s ≡ success
reached-end_of end s e = elim (Bool-cases (is_success s)) [
  | inl good ↦ is_success_sound s good
  | inr bad ↦ let no : reached (value s) ≡ true = rw bad at e in is_success_sound s no
]

-- Such a run has made all of its calls.
pub Ends-onto :
    (lib : Library) (steps : List Step) {end : Result Status} {m : Run Status} (h : List Call)
    → Ends lib steps end m
    → reached (function m h).0 ≡ true
    → (function m h).1 ≡ onto (map call_of steps) h
Ends-onto lib steps {end} h d e =
    let good =
      reached-end_of end (attempt lib steps h).0 (sym (ap (λ r. reached r.0) (d.runs h)) ∙ e) in
    ap (λ r. r.1) (d.runs h) ∙ attempt-onto lib steps h good
