-- ===== src/Invoke/Leaving.antt =====
-- invoke.py: the teardown of the classes that a worker set up.
use tiderace.Base.{
  Bool, Bool-cases, List, Option, Option-cases, Str, [], ap, append-nil, append_assoc, arith, false,
  if◌then◌else◌, inl, inr, is_some, keep, keep_no, keep_yes, lookup, map, none, not, refl, some,
  subst, sym, true, ◌&&◌, ◌++◌, ◌∙◌, ◌∷◌, ◌≡◌,
}
use tiderace.Invoke.Call.{Raise}
use tiderace.Invoke.Xunit.{
  Called, Hook, XunitState, call_defined, call_logged, class_teardown, forget_class, goes_on,
  leave_class, leave_classes, tear_down_class,
}

module _ (has_hook : Hook → Bool) (raises : List Hook → Hook → Option Raise) where
  -- The teardown of a class runs: it is defined, and the setup of the class did not fail.
  abbrev pub is_torn_down : XunitState → Str → Bool
  is_torn_down x c = not (is_some (lookup c x.failures)) && has_hook (tear_down_class c)

  abbrev teardown_of : XunitState → Str → List Hook
  teardown_of x c = if is_torn_down x c then tear_down_class c ∷ [] else []

  -- No hook raises anything but an `Exception`.
  abbrev pub AreOrdinary : Type 0
  AreOrdinary = (hs : List Hook) (h : Hook) (r : Raise) → raises hs h ≡ some r → r.ordinary ≡ true

  call_logged-ordinary :
      (h : Hook) (x : XunitState)
      → AreOrdinary
      → goes_on has_hook raises (call_logged has_hook raises h x).raised ≡ false
  unfolding call_logged goes_on
  call_logged-ordinary h x ho = elim (Option-cases (raises x.log h)) [
    | inl n ↦ rw n refl
    | inr (r, s) ↦ rw (s, ho x.log h r s) refl
  ]

  leave_class-run :
      (c : Str) (x : XunitState)
      → is_torn_down x c ≡ true
      → leave_class has_hook raises c x ≡ call_logged has_hook raises (tear_down_class c) x
  unfolding leave_class call_defined
  leave_class-run c x = elim (Bool-cases (is_some (lookup c x.failures))) [
    | inl f ↦ λ h. absurd (ground (arith, f, h))
    | inr f ↦ λ h.
        let defined : has_hook (tear_down_class c) ≡ true = ground (arith, f, h) in
        rw (f, defined) refl
  ]

  leave_class-skip :
      (c : Str) (x : XunitState)
      → is_torn_down x c ≡ false
      → leave_class has_hook raises c x ≡ record { given = none; raised = none; state = x }
  unfolding leave_class call_defined
  leave_class-skip c x = elim (Bool-cases (is_some (lookup c x.failures))) [
    | inl f ↦ rw f (λ h. refl)
    | inr f ↦ rw f (λ h. rw h refl)
  ]

  leave_classes_on :
      (c : Str) (cs : List Str) (x : XunitState)
      → goes_on has_hook raises (leave_class has_hook raises c x).raised ≡ false
      → leave_classes has_hook raises (c ∷ cs) x
        ≡ leave_classes has_hook raises cs
            (forget_class has_hook raises c (leave_class has_hook raises c x).state)
  unfolding leave_classes
  leave_classes_on c cs x h = rw (h, leave_classes) refl

  abbrev pub teardowns : XunitState → List Str → List Hook
  teardowns x cs = map tear_down_class (keep (is_torn_down x) cs)

  -- Nothing is raised, and the history is the given one.
  abbrev pub Left : List Hook → Called (Unit {0}) → Type 0
  Left hs d = (d.state.log ≡ hs) × (d.raised ≡ none)

  leave_classes-log :
      (cs : List Str) (x : XunitState)
      → AreOrdinary
      → Left (x.log ++ teardowns x cs) (leave_classes has_hook raises cs x)
  unfolding leave_classes forget_class call_logged
  leave_classes-log [] x ho = (sym (append-nil x.log), refl)
  leave_classes-log (c ∷ cs) x ho = elim (Bool-cases (is_torn_down x c)) [
    | inl t ↦
        let run = leave_class-run c x t in
        let on =
          leave_classes_on c cs x (rw run (call_logged-ordinary (tear_down_class c) x ho))
          ∙ ap
              (λ (d : Called (Unit {0})).
                leave_classes has_hook raises cs (forget_class has_hook raises c d.state))
              run in
        let next =
          forget_class has_hook raises c
            (call_logged has_hook raises (tear_down_class c) x).state in
        let rest = leave_classes-log cs next ho in
        let hooks : teardowns x (c ∷ cs) ≡ tear_down_class c ∷ teardowns x cs =
          ap (map tear_down_class) (keep_yes (is_torn_down x) c cs t) in
        subst (Left (x.log ++ teardowns x (c ∷ cs))) (sym on) (
          rest.0
              ∙ append_assoc x.log (tear_down_class c ∷ []) (teardowns x cs)
              ∙ ap (λ hs. x.log ++ hs) (sym hooks),
          rest.1,
        )
    | inr t ↦
        let run = leave_class-skip c x t in
        let on =
          leave_classes_on c cs x (rw run refl)
          ∙ ap
              (λ (d : Called (Unit {0})).
                leave_classes has_hook raises cs (forget_class has_hook raises c d.state))
              run in
        let next = forget_class has_hook raises c x in
        let rest = leave_classes-log cs next ho in
        let hooks : teardowns x (c ∷ cs) ≡ teardowns x cs =
          ap (map tear_down_class) (keep_no (is_torn_down x) c cs t) in
        subst (Left (x.log ++ teardowns x (c ∷ cs))) (sym on)
          (rest.0 ∙ ap (λ hs. x.log ++ hs) (sym hooks), rest.1)
  ]

  -- When a worker leaves its classes, their teardowns run in the order in which the classes were set up,
  -- one to each class that defines it and whose setup is not recorded as failed, whatever the
  -- teardowns raise that derives from `Exception`; and nothing of it is raised.
  pub class_teardown-Left :
      (x : XunitState)
      → AreOrdinary
      → Left (x.log ++ teardowns x x.classes) (class_teardown has_hook raises x)
  unfolding class_teardown
  class_teardown-Left x ho = leave_classes-log x.classes x ho
