-- ===== src/Isolation/Swapped.antt =====
-- isolation.py: which modules `_restore_modules` puts back.
use tiderace.Base.{
  Bool-cases, Dict, Option, Option-cases, Str, [], ap, arith, false, inl, inr, insert, lookup,
  lookup-insert_other, lookup-insert_same, none, refl, some, str_eq, str_eq_refl, str_eq_sound, sym,
  true, ℕ, ◌∙◌, ◌∷◌, ◌≡◌,
}
use tiderace.Isolation.Modules.{Modules, module_at, put_module, restore_modules, swapped}

-- The names of a dict stand in it once.
abbrev pub Distinct {ℓ} : {V : Type ℓ} → Dict V → Type ℓ
Distinct [] = Unit
Distinct ((k, v) ∷ d) = (lookup k d ≡ none) × Distinct d

-- What stands under a name when the module is left: what the snapshot has there where it has the name
-- and any module is bound to it now, and else what is there now, be it a new module, `None` or nothing.
unfoldable pub settled_module : Option (Option ℕ) → Option (Option ℕ) → Option (Option ℕ)
settled_module (some m) (some (some n)) = some m
settled_module was now = now

module_at-none : (k : Str) (now : Modules) → lookup k now ≡ none → module_at k now ≡ none
unfolding module_at
module_at-none k now h = rw (h, module_at) refl

module_at-some :
    (k : Str) (c : Option ℕ) (now : Modules) → lookup k now ≡ some c → module_at k now ≡ c
unfolding module_at
module_at-some k c now h = rw (h, module_at) refl

put_module-kept :
    (k : Str) (m : Option ℕ) (now : Modules)
    → swapped (module_at k now) m ≡ false
    → put_module k m now ≡ now
unfolding put_module
put_module-kept k m now h = rw h refl

put_module-put :
    (k : Str) (m : Option ℕ) (now : Modules)
    → swapped (module_at k now) m ≡ true
    → put_module k m now ≡ insert k m now
unfolding put_module
put_module-put k m now h = rw h refl

same_module : (m : Option ℕ) (n : ℕ) → swapped (some n) m ≡ false → m ≡ some n
unfolding swapped
same_module none n h = absurd (ground arith)
same_module (some k) n h = ground arith

pub settled_module-kept :
    (m c : Option ℕ) → swapped c m ≡ false → settled_module (some m) (some c) ≡ some c
unfolding settled_module
settled_module-kept m none h = refl
settled_module-kept m (some n) h = ap some (same_module m n h)

pub settled_module-put :
    (m c : Option ℕ) → swapped c m ≡ true → settled_module (some m) (some c) ≡ some m
unfolding settled_module swapped
settled_module-put m none h = cc
settled_module-put m (some n) h = refl

put_module-settled_module :
    (k : Str) (m : Option ℕ) (now : Modules)
    → lookup k (put_module k m now) ≡ settled_module (some m) (lookup k now)
unfolding settled_module swapped
put_module-settled_module k m now = elim (Option-cases (lookup k now)) [
  | inl n ↦
      let kept : put_module k m now ≡ now =
        put_module-kept k m now (rw (module_at-none k now n) refl) in
      rw (kept, n) refl
  | inr (c, s) ↦ elim (Bool-cases (swapped c m)) [
    | inl w ↦
        rw (put_module-put k m now (rw (module_at-some k c now s) w), s)
          (lookup-insert_same k k m now (str_eq_refl k) ∙ sym (settled_module-put m c w))
    | inr w ↦
        rw (put_module-kept k m now (rw (module_at-some k c now s) w), s)
          (sym (settled_module-kept m c w))
  ]
]

put_module-lookup_same :
    (k j : Str) (m : Option ℕ) (now : Modules)
    → str_eq k j ≡ true
    → lookup j (put_module k m now) ≡ settled_module (some m) (lookup j now)
put_module-lookup_same k j m now h = rw (← str_eq_sound k j h) (put_module-settled_module k m now)

put_module-lookup_other :
    (k j : Str) (m : Option ℕ) (now : Modules)
    → str_eq k j ≡ false
    → lookup j (put_module k m now) ≡ lookup j now
unfolding put_module
put_module-lookup_other k j m now h = elim (Bool-cases (swapped (module_at k now) m)) [
  | inl w ↦ rw w (lookup-insert_other k j m now h)
  | inr w ↦ rw w refl
]

-- When a module is left, `sys.modules` holds under every name: what the snapshot has there where it
-- has the name and any module is bound to it, and else what stands there now, so that a module that
-- was added stays and one that was removed stays away. The names of the snapshot are distinct.
pub restore_modules-settled_module :
    (before now : Modules) (name : Str)
    → Distinct before
    → lookup name (restore_modules before now)
      ≡ settled_module (lookup name before) (lookup name now)
unfolding restore_modules settled_module
restore_modules-settled_module [] now name d = refl
restore_modules-settled_module ((k, m) ∷ before) now name d = elim (Bool-cases (str_eq k name)) [
  | inl e ↦
      let gone : lookup name before ≡ none = rw (← str_eq_sound k name e) d.0 in
      restore_modules-settled_module before (put_module k m now) name d.1
      ∙ rw (gone, e) (put_module-lookup_same k name m now e)
  | inr e ↦
      restore_modules-settled_module before (put_module k m now) name d.1
      ∙ rw (e, put_module-lookup_other k name m now e) refl
]
