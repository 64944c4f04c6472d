-- ===== src/Invoke/Once.antt =====
-- invoke.py: how often the setups of a process run.
use tiderace.Base.{
  Bool, Bool-cases, List, Option, Str, [], arith, false, has_name, if◌then◌else◌, inl, inr, refl,
  str_eq, str_eq_sound, subst, suc, sym, ℕ, ◌++◌, ◌+◌, ◌∷◌, ◌≡◌, ◌≤◌, ◌⊎◌,
}
use tiderace.Invoke.Call.{Raise}
use tiderace.Invoke.Xunit.{
  Hook, XunitState, call_defined, call_logged, class_setup, enter_class, module_setup, set_up_class,
  set_up_module, tear_down_class, tear_down_module,
}

-- The setups of a class in a history.
unfoldable pub class_setups : Str → List Hook → ℕ
unfolding str_eq
class_setups c [] = 0
class_setups c (set_up_class d ∷ hs) =
    let rest = class_setups c hs in if str_eq d c then suc rest else rest
class_setups c (h ∷ hs) = class_setups c hs

-- The setups of a module in a history.
unfoldable pub module_setups : Str → List Hook → ℕ
unfolding str_eq
module_setups n [] = 0
module_setups n (set_up_module m ∷ hs) =
    let rest = module_setups n hs in if str_eq m n then suc rest else rest
module_setups n (h ∷ hs) = module_setups n hs

class_setups-append :
    (c : Str) (hs ks : List Hook)
    → class_setups c (hs ++ ks) ≡ class_setups c hs + class_setups c ks
unfolding class_setups
class_setups-append c [] ks = omega arith
class_setups-append c (set_up_module n ∷ hs) ks = class_setups-append c hs ks
class_setups-append c (tear_down_module n ∷ hs) ks = class_setups-append c hs ks
class_setups-append c (tear_down_class n ∷ hs) ks = class_setups-append c hs ks
class_setups-append c (set_up_class d ∷ hs) ks = ground (arith, class_setups-append c hs ks)

module_setups-append :
    (n : Str) (hs ks : List Hook)
    → module_setups n (hs ++ ks) ≡ module_setups n hs + module_setups n ks
unfolding module_setups
module_setups-append n [] ks = omega arith
module_setups-append n (set_up_class c ∷ hs) ks = module_setups-append n hs ks
module_setups-append n (tear_down_module m ∷ hs) ks = module_setups-append n hs ks
module_setups-append n (tear_down_class c ∷ hs) ks = module_setups-append n hs ks
module_setups-append n (set_up_module m ∷ hs) ks = ground (arith, module_setups-append n hs ks)

-- As often as a name is done, and not more than once.
abbrev once : Str → List Str → ℕ
once n done = if has_name n done then 1 else 0

-- Each class and each module has been set up at most once, and only if it is done.
abbrev pub IsOnce : XunitState → Type 0
IsOnce x =
    (n : Str)
    → (class_setups n x.log ≤ once n x.done_classes)
      × (module_setups n x.log ≤ once n x.done_modules)

module _ (has_hook : Hook → Bool) (raises : List Hook → Hook → Option Raise) where
  call_defined-log :
      (h : Hook) (x : XunitState)
      → ((call_defined has_hook raises h x).state ≡ x)
        ⊎ ((call_defined has_hook raises h x).state ≡ record x { log = x.log ++ h ∷ [] })
  unfolding call_defined call_logged
  call_defined-log h x = elim (Bool-cases (has_hook h)) [
    | inl e ↦ inr (rw e refl)
    | inr e ↦ inl (rw e refl)
  ]

  -- To enter a class and set it up keeps the bounds, where it was not done.
  pub enter_class-IsOnce :
      (c : Str) (x : XunitState)
      → has_name c x.done_classes ≡ false
      → IsOnce x
      → IsOnce (record (enter_class has_hook raises c x) { log = x.log ++ set_up_class c ∷ [] })
  unfolding enter_class class_setups module_setups has_name
  enter_class-IsOnce c x d h n = (
    ground (arith, (h n).0, d, class_setups-append n x.log (set_up_class c ∷ []), str_eq_sound c n),
    ground (arith, (h n).1, module_setups-append n x.log (set_up_class c ∷ [])),
  )

  enter_class_quietly :
      (c : Str) (x : XunitState) → IsOnce x → IsOnce (enter_class has_hook raises c x)
  unfolding enter_class has_name
  enter_class_quietly c x h n = (ground (arith, (h n).0), (h n).1)

  enter_module-IsOnce :
      (m : Str) (x : XunitState)
      → has_name m x.done_modules ≡ false
      → IsOnce x
      → IsOnce (record x { done_modules = m ∷ x.done_modules; log = x.log ++ set_up_module m ∷ [] })
  unfolding class_setups module_setups has_name
  enter_module-IsOnce m x d h n = (
    ground (arith, (h n).0, class_setups-append n x.log (set_up_module m ∷ [])),
    ground
        (arith, (h n).1, d, module_setups-append n x.log (set_up_module m ∷ []), str_eq_sound m n),
  )

  enter_module_quietly :
      (m : Str) (x : XunitState)
      → IsOnce x
      → IsOnce (record x { done_modules = m ∷ x.done_modules })
  unfolding has_name
  enter_module_quietly m x h n = ((h n).0, ground (arith, (h n).1))

  pub module_setup-IsOnce :
      (m : Str) (x : XunitState) → IsOnce x → IsOnce (module_setup has_hook raises m x).state
  unfolding module_setup
  module_setup-IsOnce m x h = elim (Bool-cases (has_name m x.done_modules)) [
    | inl d ↦ rw d h
    | inr d ↦
        rw d
          (elim (call_defined-log (set_up_module m)
            (record x { done_modules = m ∷ x.done_modules })) [
              | inl e ↦ subst IsOnce (sym e) (enter_module_quietly m x h)
              | inr e ↦ subst IsOnce (sym e) (enter_module-IsOnce m x d h)
            ])
  ]

  pub class_setup-IsOnce :
      (c : Str) (x : XunitState) → IsOnce x → IsOnce (class_setup has_hook raises c x).state
  unfolding class_setup
  class_setup-IsOnce c x h = elim (Bool-cases (has_name c x.done_classes)) [
    | inl d ↦ rw d h
    | inr d ↦ rw d (elim (call_defined-log (set_up_class c) (enter_class has_hook raises c x)) [
      | inl e ↦ subst IsOnce (sym e) (enter_class_quietly c x h)
      | inr e ↦ subst IsOnce (sym e) (enter_class-IsOnce c x d h)
    ])
  ]
