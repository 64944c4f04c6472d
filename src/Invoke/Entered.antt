-- ===== src/Invoke/Entered.antt =====
-- invoke.py: the setups over everything that a worker enters and runs.
use tiderace.Base.{
  Bool, Bool-cases, List, Option, Option-cases, Str, [], ap, false, has_name, inl, inr, insert,
  lookup, none, refl, some, subst, sym, true, ◌∙◌, ◌∷◌, ◌≡◌,
}
use tiderace.Results.{Reported}
use tiderace.Invoke.Call.{Raise}
use tiderace.Invoke.Xunit.{
  Called, Hook, MethodRun, XunitState, after_class_setup, broke_off, call_logged, class_setup,
  enter_class, finished, invoke_unittest, method_outcome, module_setup, set_up_class, setup_failure,
}
use tiderace.Invoke.Once.{IsOnce, class_setup-IsOnce, enter_class-IsOnce, module_setup-IsOnce}

-- What a worker does to the state before a class is left.
pub data Entering : Type 0 where
  into_module into_class : Str → Entering
  method : Str → MethodRun → Entering

module _ (has_hook : Hook → Bool) (raises : List Hook → Hook → Option Raise) where
  unfoldable pub enter : Entering → XunitState → XunitState
  unfolding module_setup class_setup invoke_unittest
  enter (into_module n) x = (module_setup has_hook raises n x).state
  enter (into_class c) x = (class_setup has_hook raises c x).state
  enter (method c run) x = (invoke_unittest has_hook raises c run x).state

  unfoldable pub enter_all : List Entering → XunitState → XunitState
  unfolding enter
  enter_all [] x = x
  enter_all (e ∷ es) x = enter_all es (enter e x)

  method_outcome-state : (run : MethodRun) (x : XunitState) → (method_outcome run x).state ≡ x
  unfolding method_outcome
  method_outcome-state (finished r) x = refl
  method_outcome-state (broke_off r) x = elim (Bool-cases r.is_skip) [
    | inl e ↦ rw e refl
    | inr e ↦ rw e refl
  ]

  after_class_setup-done :
      (c : Str) (run : MethodRun) (called : Called (Unit {0}))
      → called.raised ≡ none
      → after_class_setup has_hook raises c run called ≡ method_outcome run called.state
  unfolding after_class_setup
  after_class_setup-done c run called h = rw (h, after_class_setup) refl

  after_class_setup-raised :
      (c : Str) (run : MethodRun) (called : Called (Unit {0})) (r : Raise)
      → called.raised ≡ some r
      → setup_failure has_hook raises r ≡ none
      → (after_class_setup has_hook raises c run called).state ≡ called.state
  unfolding after_class_setup
  after_class_setup-raised c run called r h s = rw (h, after_class_setup, s) refl

  after_class_setup-kept :
      (c : Str) (run : MethodRun) (called : Called (Unit {0})) (r : Raise) (kept : Reported)
      → called.raised ≡ some r
      → setup_failure has_hook raises r ≡ some kept
      → (after_class_setup has_hook raises c run called).state
        ≡ record called.state { failures = insert c kept called.state.failures }
  unfolding after_class_setup
  after_class_setup-kept c run called r kept h s = rw (h, after_class_setup, s) refl

  after_class_setup-IsOnce :
      (c : Str) (run : MethodRun) (called : Called (Unit {0}))
      → IsOnce called.state
      → IsOnce (after_class_setup has_hook raises c run called).state
  after_class_setup-IsOnce c run called h = elim (Option-cases called.raised) [
    | inl n ↦
        subst IsOnce
          (sym (
            ap (λ (d : Called Reported). d.state) (after_class_setup-done c run called n)
            ∙ method_outcome-state run called.state))
          h
    | inr (r, s) ↦ elim (Option-cases (setup_failure has_hook raises r)) [
      | inl n ↦ subst IsOnce (sym (after_class_setup-raised c run called r s n)) h
      | inr (kept, k) ↦ subst IsOnce (sym (after_class_setup-kept c run called r kept s k)) h
    ]
  ]

  invoke_unittest-kept :
      (c : Str) (run : MethodRun) (x : XunitState) (kept : Reported)
      → lookup c x.failures ≡ some kept
      → invoke_unittest has_hook raises c run x
        ≡ record { given = some kept; raised = none; state = x }
  unfolding invoke_unittest
  invoke_unittest-kept c run x kept h = rw (h, invoke_unittest) refl

  invoke_unittest-done :
      (c : Str) (run : MethodRun) (x : XunitState)
      → lookup c x.failures ≡ none
      → has_name c x.done_classes ≡ true
      → invoke_unittest has_hook raises c run x ≡ method_outcome run x
  unfolding invoke_unittest
  invoke_unittest-done c run x h d = rw (h, invoke_unittest, d) refl

  abbrev entered : Str → XunitState → Called (Unit {0})
  entered c x = call_logged has_hook raises (set_up_class c) (enter_class has_hook raises c x)

  invoke_unittest-first :
      (c : Str) (run : MethodRun) (x : XunitState)
      → lookup c x.failures ≡ none
      → has_name c x.done_classes ≡ false
      → invoke_unittest has_hook raises c run x
        ≡ after_class_setup has_hook raises c run (entered c x)
  unfolding invoke_unittest
  invoke_unittest-first c run x h d = rw (h, invoke_unittest, d) refl

  entered-IsOnce :
      (c : Str) (x : XunitState)
      → has_name c x.done_classes ≡ false
      → IsOnce x
      → IsOnce (entered c x).state
  unfolding call_logged enter_class
  entered-IsOnce c x d h = enter_class-IsOnce has_hook raises c x d h

  invoke_unittest-IsOnce :
      (c : Str) (run : MethodRun) (x : XunitState)
      → IsOnce x
      → IsOnce (invoke_unittest has_hook raises c run x).state
  invoke_unittest-IsOnce c run x h = elim (Option-cases (lookup c x.failures)) [
    | inr (kept, k) ↦
        subst (λ (d : Called Reported). IsOnce d.state) (sym (invoke_unittest-kept c run x kept k))
          h
    | inl n ↦ elim (Bool-cases (has_name c x.done_classes)) [
      | inl d ↦
          subst (λ (d : Called Reported). IsOnce d.state) (sym (invoke_unittest-done c run x n d))
            (subst IsOnce (sym (method_outcome-state run x)) h)
      | inr d ↦
          subst (λ (d : Called Reported). IsOnce d.state) (sym (invoke_unittest-first c run x n d))
            (after_class_setup-IsOnce c run (entered c x) (entered-IsOnce c x d h))
    ]
  ]

  enter-IsOnce : (e : Entering) (x : XunitState) → IsOnce x → IsOnce (enter e x)
  unfolding enter
  enter-IsOnce (into_module n) x h = module_setup-IsOnce has_hook raises n x h
  enter-IsOnce (into_class c) x h = class_setup-IsOnce has_hook raises c x h
  enter-IsOnce (method c run) x h = invoke_unittest-IsOnce c run x h

  -- Until a worker leaves its classes, whatever it enters and runs and whatever the hooks raise, each
  -- class and each module is set up at most once, and only if the process counts it as done.
  pub enter_all-IsOnce : (es : List Entering) (x : XunitState) → IsOnce x → IsOnce (enter_all es x)
  unfolding enter_all
  enter_all-IsOnce [] x h = h
  enter_all-IsOnce (e ∷ es) x h = enter_all-IsOnce es (enter e x) (enter-IsOnce e x h)
