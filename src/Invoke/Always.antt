-- ===== src/Invoke/Always.antt =====
-- invoke.py: what runs whatever a test's own code raises.
use tiderace.Base.{
  All, All-append, Dict, List, Option, Option-cases, Str, [], ap, inl, inr, map, none, refl,
  reverse, some, subst, sym, true, ℕ, ◌++◌, ◌∙◌, ◌∷◌, ◌≡◌,
}
use mathlib.Core.List.{reverse-cons}
use tiderace.Invoke.Call.{
  Callback, Course, FixtureHandle, Raise, and_then, call_hook, call_one, call_with_hooks, close,
  hook_of, run_finalizers, run_newest, swallow,
}

-- A callback raises nothing, or an `Exception`.
abbrev pub IsOrdinary : Callback → Type 0
IsOrdinary c = (r : Raise) → c.raises ≡ some r → r.ordinary ≡ true

abbrev pub identities : List Callback → List ℕ
identities = map (λ (c : Callback). c.identity)

abbrev quietly : List ℕ → Course
quietly calls = record { calls = calls; raised = none }

swallow-IsOrdinary : (c : Callback) → IsOrdinary c → swallow c.raises ≡ none
unfolding swallow
swallow-IsOrdinary c h = elim (Option-cases c.raises) [
  | inl n ↦ rw n refl
  | inr (r, s) ↦ rw (s, h r s) refl
]

run_newest_lem : (cs : List Callback) → All IsOrdinary cs → run_newest cs ≡ quietly (identities cs)
unfolding run_newest
run_newest_lem [] h = refl
run_newest_lem (c ∷ cs) h = rw (swallow-IsOrdinary c h.0, run_newest_lem cs h.1) refl

All-reverse : {A : Type 0} (P : A → Type 0) (xs : List A) → All P xs → All P (reverse xs)
All-reverse P [] h = tt
All-reverse P (x ∷ xs) h =
    subst (All P) (sym (reverse-cons x xs))
      (All-append P (reverse xs) (x ∷ []) (All-reverse P xs h.1) (h.0, tt))

run_finalizers_lem :
    (cs : List Callback) → All IsOrdinary cs → run_finalizers cs ≡ quietly (identities (reverse cs))
unfolding run_finalizers
run_finalizers_lem cs h = run_newest_lem (reverse cs) (All-reverse IsOrdinary cs h)

-- What a fixture's handle calls: its generator, and its finalizers from the newest.
abbrev handle_calls : FixtureHandle → List ℕ
handle_calls h =
    elim h.generator [ none ↦ [] | some g ↦ g.identity ∷ [] ] ++ identities (reverse h.finalizers)

-- Closing a fixture's handle runs the rest of its generator and then every finalizer exactly once, the
-- newest first, and raises nothing, whichever of them raise exceptions that derive from `Exception`.
close_lem :
    (h : FixtureHandle)
    → ((g : Callback) → h.generator ≡ some g → IsOrdinary g)
    → All IsOrdinary h.finalizers
    → close h ≡ quietly (handle_calls h)
unfolding close
close_lem h hg hf = elim (Option-cases h.generator) [
  | inl n ↦ rw (n, run_finalizers_lem h.finalizers hf) refl
  | inr (g, s) ↦ rw (s, swallow-IsOrdinary g (hg g s), run_finalizers_lem h.finalizers hf) refl
]

call_hook-found :
    (hook : Option (Dict Callback × List Str)) (c : Callback)
    → hook_of hook ≡ some c
    → call_hook hook ≡ call_one c
unfolding call_hook
call_hook-found hook c h = rw (h, call_hook) refl

call_hook-absent :
    (hook : Option (Dict Callback × List Str)) → hook_of hook ≡ none → call_hook hook ≡ quietly []
unfolding call_hook
call_hook-absent hook h = rw (h, call_hook) refl

swallow-call_hook :
    (hook : Option (Dict Callback × List Str))
    → ((c : Callback) → hook_of hook ≡ some c → IsOrdinary c)
    → swallow (call_hook hook).raised ≡ none
unfolding call_hook swallow call_one
swallow-call_hook hook h = elim (Option-cases (hook_of hook)) [
  | inl n ↦ ap (λ (r : Course). swallow r.raised) (call_hook-absent hook n)
  | inr (c, s) ↦
      ap (λ (r : Course). swallow r.raised) (call_hook-found hook c s)
      ∙ swallow-IsOrdinary c (h c s)
]

-- Whatever the setup hook and the body raise, the teardown hook and then every finalizer, the newest
-- first, run once, and what is raised in the end is what the setup or the body raised: if the teardown
-- and the finalizers raise nothing but exceptions that derive from `Exception`.
pub call_with_hooks-finally :
    (setup teardown : Option (Dict Callback × List Str)) (body : Callback) (cs : List Callback)
    → ((c : Callback) → hook_of teardown ≡ some c → IsOrdinary c)
    → All IsOrdinary cs
    → call_with_hooks setup body teardown cs ≡ record {
      calls =
          (and_then (call_hook setup) (call_one body)).calls
          ++ ((call_hook teardown).calls ++ identities (reverse cs));
      raised = (and_then (call_hook setup) (call_one body)).raised;
    }
unfolding call_with_hooks
call_with_hooks-finally setup teardown body cs ht hc =
    rw (swallow-call_hook teardown ht, run_finalizers_lem cs hc) refl
