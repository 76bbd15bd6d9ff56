-- ===== src/Calls/Registrations.antt =====
-- The modules that a list of calls registers.
use sippak.Prelude.{◌≡◌, refl, ap, ◌∙◌, List, [], ◌∷◌, ◌++◌, append-nil, map, Option, none, some}
use sippak.Calls.{Call, Module, register_module}
use sippak.Calls.Attempt.{Step, call_of, onto}

abbrev pub module_of : Call → Option Module
module_of (register_module m) = some m
module_of _ = none

abbrev pub with_module : Option Module → List Module → List Module
with_module none ms = ms
with_module (some m) ms = m ∷ ms

abbrev pub registrations : List Call → List Module
registrations [] = []
registrations (c ∷ cs) = with_module (module_of c) (registrations cs)

-- Those of steps.
abbrev pub modules_in : List Step → List Module
modules_in [] = []
modules_in (s ∷ steps) = with_module (module_of (call_of s)) (modules_in steps)

abbrev pub in_front : List Module → List Module → List Module
in_front [] ms = ms
in_front (m ∷ new) ms = in_front new (m ∷ ms)

in_front-with_module :
    (m : Option Module) (new ms : List Module)
    → in_front (with_module m new) ms ≡ in_front new (with_module m ms)
in_front-with_module none new ms = refl
in_front-with_module (some m) new ms = refl

pub registrations-onto :
    (steps : List Step) (h : List Call)
    → registrations (onto (map call_of steps) h) ≡ in_front (modules_in steps) (registrations h)
registrations-onto [] h = refl
registrations-onto (s ∷ steps) h =
    registrations-onto steps (call_of s ∷ h)
    ∙ (rw (in_front-with_module (module_of (call_of s)) (modules_in steps) (registrations h)) refl)

with_module-append :
    (m : Option Module) (xs ys : List Module) → with_module m (xs ++ ys) ≡ with_module m xs ++ ys
with_module-append none xs ys = refl
with_module-append (some m) xs ys = refl

modules_in-append : (xs ys : List Step) → modules_in (xs ++ ys) ≡ modules_in xs ++ modules_in ys
modules_in-append [] ys = refl
modules_in-append (s ∷ xs) ys =
    ap (with_module (module_of (call_of s))) (modules_in-append xs ys)
    ∙ with_module-append (module_of (call_of s)) (modules_in xs) (modules_in ys)

-- Steps that register nothing in front.
pub modules_in-quiet :
    (xs ys : List Step) → modules_in xs ≡ [] → modules_in (xs ++ ys) ≡ modules_in ys
modules_in-quiet xs ys e = modules_in-append xs ys ∙ rw e refl

-- And behind.
pub modules_in-quiet_end :
    (xs ys : List Step) → modules_in ys ≡ [] → modules_in (xs ++ ys) ≡ modules_in xs
modules_in-quiet_end xs ys e = modules_in-append xs ys ∙ rw e (append-nil (modules_in xs))
