-- ===== src/Isolation/Modules.antt =====
-- isolation.py: `_restore_modules`, and the replaced modules that a verdict names.
use tiderace.Base.{
  Bool, Dict, List, Option, Str, [], eqb, false, if◌then◌else◌, insert, keep, lookup, none, not,
  some, ℕ, ◌∷◌,
}
use tiderace.Isolation.State.{dict_names}

-- `sys.modules`: an object's identity by its name; None stands in it for a module that must not load.
abbrev pub Modules : Type 0
Modules = Dict (Option ℕ)

-- `sys.modules.get(name)`
unfoldable pub module_at : Str → Modules → Option ℕ
unfolding lookup
module_at name ms = elim (lookup name ms) [ none ↦ none | some m ↦ m ]

abbrev is_same : Option ℕ → ℕ → Bool
is_same none n = false
is_same (some m) n = eqb m n

-- `current is not None and current is not module`
unfoldable pub swapped : Option ℕ → Option ℕ → Bool
swapped none m = false
swapped (some n) m = not (is_same m n)

-- A module that was replaced is put back; one that was added stays, and one that was removed stays away.
unfoldable pub put_module : Str → Option ℕ → Modules → Modules
unfolding module_at swapped insert
put_module name m now = if swapped (module_at name now) m then insert name m now else now

unfoldable pub restore_modules : Modules → Modules → Modules
unfolding put_module
restore_modules [] now = now
restore_modules ((name, m) ∷ before) now = restore_modules before (put_module name m now)

-- The names that `_restore_modules` swapped back, in the order of the snapshot.
unfoldable pub swapped_names : Modules → Modules → List Str
unfolding module_at swapped
swapped_names before now = dict_names (keep (λ e. swapped (module_at e.0 now) e.1) before)
