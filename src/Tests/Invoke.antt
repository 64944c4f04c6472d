-- ===== src/Tests/Invoke.antt =====
-- invoke.py: a test between its hooks, and the setups of two classes.
use tiderace.Base.{
  Bool, Dict, List, Option, Str, [], arith, codes, false, has_name, insert, lookup, none, of_some,
  refl, some, str_eq, subst, true, ℕ, ◌∷◌, ◌≡◌,
}
use tiderace.Results.{error}
use tiderace.Invoke.Call.{
  Callback, Raise, and_then, call_hook, call_one, call_with_hooks, find_hook, hook_of,
}
use tiderace.Invoke.Xunit.{
  Hook, MethodRun, XunitState, after_class_setup, call_defined, call_logged, class_setup,
  class_teardown, discard, enter_class, finished, forget_class, fresh, goes_on, invoke_unittest,
  leave_class, leave_classes, method_outcome, module_setup, set_up_class, setup_failure,
  tear_down_class,
}
use tiderace.Invoke.Always.{IsOrdinary, call_with_hooks-finally}
use tiderace.Invoke.Once.{IsOnce, class_setups, module_setups}
use tiderace.Invoke.Leaving.{Left, class_teardown-Left}
use tiderace.Invoke.Entered.{
  Entering, enter, enter_all, enter_all-IsOnce, into_class, into_module, method,
}

abbrev broken : Raise
broken = record {
  ordinary = true;
  is_assertion = false;
  is_skip = false;
  text = codes "no";
  formatted = codes "RuntimeError: no";
}

abbrev quiet_call : ℕ → Callback
quiet_call n = record { identity = n; raises = none }

abbrev broken_call : ℕ → Callback
broken_call n = record { identity = n; raises = some broken }

abbrev hook_owner : Dict Callback
hook_owner = (codes "setup_method", quiet_call 1) ∷ (codes "teardown_method", broken_call 2) ∷ []

abbrev setup_hook : Option (Dict Callback × List Str)
setup_hook = some (hook_owner, codes "setup_method" ∷ [])

abbrev teardown_hook : Option (Dict Callback × List Str)
teardown_hook = some (hook_owner, codes "teardown_method" ∷ [])

broken_call-IsOrdinary : (n : ℕ) → IsOrdinary (broken_call n)
broken_call-IsOrdinary n r e = rw (← of_some e) refl

-- The body, the teardown and a finalizer raise; all of it runs, and the body's exception is raised.
call_with_hooks-finally_example :
    call_with_hooks setup_hook (broken_call 5) teardown_hook (broken_call 6 ∷ broken_call 7 ∷ [])
    ≡ record { calls = 1 ∷ 5 ∷ 2 ∷ 7 ∷ 6 ∷ []; raised = some broken }
unfolding call_hook hook_of find_hook lookup str_eq call_one and_then
call_with_hooks-finally_example =
    call_with_hooks-finally setup_hook teardown_hook (broken_call 5)
      (broken_call 6 ∷ broken_call 7 ∷ [])
      (λ c s. subst IsOrdinary (of_some s) (broken_call-IsOrdinary 2))
      (broken_call-IsOrdinary 6, (broken_call-IsOrdinary 7, tt))

abbrev all_hooks : Hook → Bool
all_hooks h = true

-- Every hook raises.
abbrev all_raise : List Hook → Hook → Option Raise
all_raise hs h = some broken

abbrev passing : MethodRun
passing =
    finished
      (record { errors = none; failures = none; unexpected = false; expected = none; skips = none })

abbrev entries : List Entering
entries =
    into_module (codes "m")
    ∷ method (codes "C") passing
    ∷ method (codes "C") passing
    ∷ into_class (codes "D")
    ∷ into_class (codes "D")
    ∷ into_module (codes "m")
    ∷ []

-- The failed setup of a `unittest` class decides each of its methods.
failed_class :
    (invoke_unittest all_hooks all_raise
      (codes "C")
      passing
      (enter_all all_hooks all_raise entries fresh)).given
    ≡ some (error, codes "RuntimeError: no")
unfolding enter_all enter module_setup class_setup invoke_unittest after_class_setup call_defined
    call_logged enter_class setup_failure method_outcome lookup insert has_name str_eq
failed_class = refl

-- A `setup_class` that raised is not run again, raises nothing the next time, and its teardown runs.
raised_class :
    (class_setup all_hooks all_raise
      (codes "D")
      (class_setup all_hooks all_raise (codes "D") fresh).state).raised
    ≡ none
unfolding class_setup call_defined call_logged enter_class has_name str_eq
raised_class = refl

raised_class_left :
    (class_teardown all_hooks all_raise
      (class_setup all_hooks all_raise (codes "D") fresh).state).state.log
    ≡ set_up_class (codes "D") ∷ tear_down_class (codes "D") ∷ []
unfolding class_setup call_defined call_logged enter_class has_name str_eq class_teardown
    leave_classes leave_class forget_class discard goes_on lookup
raised_class_left = refl

enter_all-IsOnce_example : IsOnce (enter_all all_hooks all_raise entries fresh)
unfolding class_setups module_setups
enter_all-IsOnce_example =
    enter_all-IsOnce all_hooks all_raise entries fresh (λ n. (ground arith, ground arith))

-- Two classes were set up, one of them without success; the teardown of the other one runs, and raises.
abbrev two_classes : XunitState
two_classes = record {
  done_modules = [];
  done_classes = codes "D" ∷ codes "C" ∷ [];
  classes = codes "C" ∷ codes "D" ∷ [];
  failures = (codes "C", (error, codes "RuntimeError: no")) ∷ [];
  log = set_up_class (codes "C") ∷ set_up_class (codes "D") ∷ [];
}

class_teardown-Left_example :
    Left all_hooks all_raise
      (set_up_class (codes "C") ∷ set_up_class (codes "D") ∷ tear_down_class (codes "D") ∷ [])
      (class_teardown all_hooks all_raise two_classes)
unfolding lookup str_eq
class_teardown-Left_example =
    class_teardown-Left all_hooks all_raise two_classes (λ hs h r e. rw (← of_some e) refl)
