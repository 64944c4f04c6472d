-- ===== src/Invoke/Call.antt =====
-- invoke.py: finalizers, a fixture's handle, the call of a test between its hooks, and what an exception
-- means. Every call of the suite's code is an event of the log; what it raises is given with it.
use tiderace.Base.{
  Bool, Dict, List, Option, Str, [], if◌then◌else◌, lookup, none, reverse, some, ℕ, ◌++◌, ◌∷◌,
}
use tiderace.Results.{Outcome, failed, skipped}

-- An exception: `ordinary` if it derives from `Exception`, as `pytest.skip()`'s does not.
pub record Raise : Type 0 where
  pub ordinary : Bool
  pub is_assertion : Bool
  pub is_skip : Bool
  pub text : Str
  pub formatted : Str

-- A callable of the suite: its identity, and what a call of it raises.
pub record Callback : Type 0 where
  pub identity : ℕ
  pub raises : Option Raise

-- What has been called, in order, and what is raised at the end.
pub record Course : Type 0 where
  pub calls : List ℕ
  pub raised : Option Raise

unfoldable pub call_one : Callback → Course
call_one c = record { calls = c.identity ∷ []; raised = c.raises }

-- `first; then_run`
unfoldable pub and_then : Course → Course → Course
and_then first next = elim first.raised [
  | some r ↦ first
  | none ↦ record { calls = first.calls ++ next.calls; raised = next.raised }
]

-- `try: first; finally: last`
unfoldable pub finally_run : Course → Course → Course
finally_run first last = record {
  calls = first.calls ++ last.calls;
  raised = elim last.raised [ some r ↦ some r | none ↦ first.raised ];
}

-- `try: ran; except Exception: pass`
unfoldable pub swallow : Option Raise → Option Raise
swallow none = none
swallow (some r) = if r.ordinary then none else some r

unfoldable pub guarded : Course → Course
unfolding swallow
guarded ran = record ran { raised = swallow ran.raised }

abbrev nothing_ran : Course
nothing_ran = record { calls = []; raised = none }

-- The loop of `run_finalizers`, over the callbacks from the newest; none of them registers another one.
unfoldable pub run_newest : List Callback → Course
unfolding call_one guarded and_then
run_newest [] = nothing_ran
run_newest (c ∷ cs) = and_then (guarded (call_one c)) (run_newest cs)

-- `finalizers` in the order of their registering
unfoldable pub run_finalizers : List Callback → Course
unfolding run_newest
run_finalizers cs = run_newest (reverse cs)

-- What a fixture's setup left to tear down: the rest of its generator, and its finalizers. A generator
-- that ends is no fault: `StopIteration` is an `Exception`.
pub record FixtureHandle : Type 0 where
  pub generator : Option Callback
  pub finalizers : List Callback

unfoldable pub close : FixtureHandle → Course
unfolding guarded call_one and_then run_finalizers
close h =
    and_then (elim h.generator [ none ↦ nothing_ran | some g ↦ guarded (call_one g) ])
      (run_finalizers h.finalizers)

-- `call_hook`: the first of the names under which the owner has something callable.
unfoldable pub find_hook : Dict Callback → List Str → Option Callback
unfolding lookup
find_hook owner [] = none
find_hook owner (n ∷ ns) =
    let rest = find_hook owner ns in elim (lookup n owner) [ none ↦ rest | some c ↦ some c ]

unfoldable pub hook_of : Option (Dict Callback × List Str) → Option Callback
unfolding find_hook
hook_of none = none
hook_of (some hook) = find_hook hook.0 hook.1

unfoldable pub call_hook : Option (Dict Callback × List Str) → Course
unfolding hook_of call_one
call_hook hook = elim (hook_of hook) [ none ↦ nothing_ran | some c ↦ call_one c ]

-- `call_with_hooks`: the setup hook and the body; whatever they raise, the teardown hook, which does not
-- mask it, and the finalizers of the request.
unfoldable pub call_with_hooks :
    Option (Dict Callback × List Str)
    → Callback
    → Option (Dict Callback × List Str)
    → List Callback
    → Course
unfolding call_hook call_one and_then finally_run guarded run_finalizers
call_with_hooks setup body teardown finalizers =
    finally_run (and_then (call_hook setup) (call_one body))
      (and_then (guarded (call_hook teardown)) (run_finalizers finalizers))

-- `introspect` is the rich diff of a failed assertion, `none` where there is none.
unfoldable pub classify_exception : Option Str → Raise → Outcome × Str
classify_exception introspect r =
    if r.is_assertion
    then (failed, elim introspect [ none ↦ r.formatted | some rich ↦ rich ++ r.formatted ])
    else if r.is_skip
    then (skipped, r.text)
    else (failed, r.formatted)
