-- ===== src/Invoke/Xunit.antt =====
-- invoke.py: the xunit setups of a process, `XunitState`, and the run of a `unittest` method.
use tiderace.Base.{
  Bool, Dict, List, Option, Str, [], codes, false, has_name, if◌then◌else◌, insert, is_some, keep,
  lookup, none, not, some, str_eq, true, ◌++◌, ◌∷◌,
}
use tiderace.Results.{Reported, error, failed, passed, skipped, xfail}
use tiderace.Invoke.Call.{Raise}

-- A hook of the suite that the state has called.
pub data Hook : Type 0 where
  set_up_module tear_down_module set_up_class tear_down_class : Str → Hook

-- The setups of this process, by name. The log is the history of the hooks, for the proofs.
pub record XunitState : Type 0 where
  pub done_modules : List Str
  pub done_classes : List Str
  pub classes : List Str
  pub failures : Dict Reported
  pub log : List Hook

abbrev pub fresh : XunitState
fresh = record { done_modules = []; done_classes = []; classes = []; failures = []; log = [] }

-- The `TestResult` of one method: the first text of each of its lists.
pub record TestResult : Type 0 where
  pub errors : Option Str
  pub failures : Option Str
  pub unexpected : Bool
  pub expected : Option Str
  pub skips : Option Str

-- What `cls(method).run(result)` comes to.
pub data MethodRun : Type 0 where
  finished : TestResult → MethodRun
  broke_off : Raise → MethodRun

-- What a call gives or raises, and the state behind it.
pub record Called (A : Type 0) : Type 0 where
  pub given : Option A
  pub raised : Option Raise
  pub state : XunitState

unfoldable pub unexpected_text : Str
unexpected_text = codes "unexpected success: a test marked @expectedFailure passed"

-- The outcome of a finished method, by the first of the lists that is not empty.
unfoldable pub reported_of : TestResult → Reported
unfolding unexpected_text
reported_of r = elim r.errors [
  | some t ↦ (failed, t)
  | none ↦ elim r.failures [
    | some t ↦ (failed, t)
    | none ↦ if r.unexpected then (failed, unexpected_text) else elim r.expected [
      | some t ↦ (xfail, t)
      | none ↦ elim r.skips [ some t ↦ (skipped, t) | none ↦ (passed, []) ]
    ]
  ]
]

-- A method that has run, or broke off: a skip is an outcome, anything else goes on.
unfoldable pub method_outcome : MethodRun → XunitState → Called Reported
unfolding reported_of
method_outcome (finished r) x = record { given = some (reported_of r); raised = none; state = x }
method_outcome (broke_off r) x =
    if r.is_skip
    then record { given = some (skipped, r.text); raised = none; state = x }
    else record { given = none; raised = some r; state = x }

-- `set.discard`
unfoldable pub discard : Str → List Str → List Str
unfolding str_eq
discard n ns = keep (λ m. not (str_eq m n)) ns

-- `has_hook` tells what the suite defines, and `raises` what a hook raises after the hooks of a history.
module _ (has_hook : Hook → Bool) (raises : List Hook → Hook → Option Raise) where
  unfoldable pub call_logged : Hook → XunitState → Called (Unit {0})
  call_logged h x = record {
    given = none;
    raised = raises x.log h;
    state = record x { log = x.log ++ h ∷ [] };
  }

  unfoldable pub call_defined : Hook → XunitState → Called (Unit {0})
  unfolding call_logged
  call_defined h x =
      if has_hook h then call_logged h x else record { given = none; raised = none; state = x }

  unfoldable pub module_setup : Str → XunitState → Called (Unit {0})
  unfolding call_defined has_name
  module_setup n x =
      if has_name n x.done_modules
      then record { given = none; raised = none; state = x }
      else call_defined (set_up_module n) (record x { done_modules = n ∷ x.done_modules })

  -- A class is done from before its setup on.
  unfoldable pub enter_class : Str → XunitState → XunitState
  enter_class c x = record x { done_classes = c ∷ x.done_classes; classes = x.classes ++ c ∷ [] }

  unfoldable pub class_setup : Str → XunitState → Called (Unit {0})
  unfolding call_defined enter_class has_name
  class_setup c x =
      if has_name c x.done_classes
      then record { given = none; raised = none; state = x }
      else call_defined (set_up_class c) (enter_class c x)

  -- What is kept of a `setUpClass` that did not complete; an exception that is neither goes on.
  unfoldable pub setup_failure : Raise → Option Reported
  setup_failure r =
      if r.is_skip
      then some (skipped, r.text)
      else if r.ordinary
      then some (error, r.formatted)
      else none

  -- The class has been set up by this call: its method runs, unless the setup raised.
  unfoldable pub after_class_setup : Str → MethodRun → Called (Unit {0}) → Called Reported
  unfolding setup_failure method_outcome insert
  after_class_setup c run called = elim called.raised [
    | none ↦ method_outcome run called.state
    | some r ↦ elim (setup_failure r) [
      | none ↦ record { given = none; raised = some r; state = called.state }
      | some kept ↦ record {
        given = some kept;
        raised = none;
        state = record called.state { failures = insert c kept called.state.failures };
      }
    ]
  ]

  unfoldable pub invoke_unittest : Str → MethodRun → XunitState → Called Reported
  unfolding lookup has_name method_outcome after_class_setup call_logged enter_class
  invoke_unittest c run x = elim (lookup c x.failures) [
    | some kept ↦ record { given = some kept; raised = none; state = x }
    | none ↦
        if has_name c x.done_classes
        then method_outcome run x
        else after_class_setup c run (call_logged (set_up_class c) (enter_class c x))
  ]

  -- One class at the worker's end. Only a setup that failed keeps the teardown from running.
  unfoldable pub leave_class : Str → XunitState → Called (Unit {0})
  unfolding call_defined lookup
  leave_class c x =
      if is_some (lookup c x.failures)
      then record { given = none; raised = none; state = x }
      else call_defined (tear_down_class c) x

  unfoldable pub forget_class : Str → XunitState → XunitState
  unfolding discard
  forget_class c x = record x {
    classes = discard c x.classes;
    done_classes = discard c x.done_classes;
  }

  -- What goes on of a guarded teardown: only what is no `Exception`.
  unfoldable pub goes_on : Option Raise → Bool
  goes_on none = false
  goes_on (some r) = not r.ordinary

  unfoldable pub leave_classes : List Str → XunitState → Called (Unit {0})
  unfolding leave_class forget_class goes_on
  leave_classes [] x = record { given = none; raised = none; state = x }
  leave_classes (c ∷ cs) x =
      let left = leave_class c x in
      elim (goes_on left.raised) [
        | true ↦ left
        | false ↦ leave_classes cs (forget_class c left.state)
      ]

  unfoldable pub class_teardown : XunitState → Called (Unit {0})
  unfolding leave_classes
  class_teardown x = leave_classes x.classes x
