-- ===== src/Isolation/Session.antt =====
-- isolation.py: the class `Isolation`, the snapshots of a level, the verdict over them and the restoring.

use tiderace.Base.{
  Bool, Dict, List, Option, Str, [], codes, false, if◌then◌else◌, map, none, some, true, ℕ, ◌++◌,
  ◌∷◌,
}
use tiderace.Results.{Purity, impure, pure, unknown}
use tiderace.Isolation.State.{
  Fingerprint, State, fingerprint_delta, shown_names, state_fingerprint, threads_part, told,
}
use tiderace.Isolation.Modules.{Modules, swapped_names}
use tiderace.Isolation.Registries.{Saved, Store, Values, registry_delta}
use tiderace.Isolation.Targets.{Memo, Namespaces, registry_targets}
use tiderace.Isolation.Globals.{Kept, Python, Space, purity_verdict, snapshot_shared}

-- Everything in the process that an isolation reads or writes; `space` is the test module's, if it has
-- one, and `files` the `__file__` of the modules.
pub record Process (H : Type 0) : Type 0 where
  pub space : Option (Space H)
  pub state : State
  pub modules : Modules
  pub namespaces : Namespaces
  pub store : Store
  pub cache : Dict Memo

-- The snapshots of a level; that of the environment is read only together with that of the globals.
pub record Isolation : Type 0 where
  pub module_key : Str
  pub roots : List Str
  pub test_module : Str
  pub globals_before : Option (Dict Kept)
  pub environ_before : Dict Str
  pub modules_before : Option Modules
  pub state_before : Option Fingerprint
  pub registries_before : Option (List Saved)

-- What the run of a test was: its purity, and what no restore can undo.
pub record Judged : Type 0 where
  pub purity : Purity
  pub leaked : Option Str

abbrev then_some {ℓ} : {A : Type ℓ} → Bool → A → Option A
then_some true a = some a
then_some false a = none

-- `_registry_snapshot`
unfoldable pub saved_of : Store → List (Str × ℕ) → List Saved
saved_of store = map (λ t. record { label = t.0; address = t.1; copy = store t.1 })

-- A later finding takes the purity only where none has taken it before.
unfoldable pub unless_impure : Purity → Option Str → Purity
unless_impure pure (some r) = impure r
unless_impure p r = p

abbrev module_state_text : Str
module_state_text = codes "mutated another module's state: "

-- The verdict once the globals have been judged: the modules of `sys.modules` that were replaced.
unfoldable pub judge_modules : Option Modules → Modules → Purity → Purity
unfolding swapped_names shown_names
judge_modules none now p = p
judge_modules (some before) now p = elim (swapped_names before now) [
  | [] ↦ p
  | n ∷ ns ↦ impure (codes "replaced modules in sys.modules: " ++ shown_names (n ∷ ns))
]

-- The drift of the interpreter's state, and the threads among it, which nothing can undo.
unfoldable pub judge_drift : Option Str → Option Str → Purity → Judged
unfolding unless_impure
judge_drift none residue p = record { purity = p; leaked = none }
judge_drift (some drift) none p = record {
  purity = unless_impure p (some (codes "changed interpreter state: " ++ drift));
  leaked = none;
}
judge_drift (some drift) (some residue) p =
    let leaked = drift ++ codes " (unrestorable: " ++ residue ++ codes ")" in
    record {
      purity = impure (codes "disturbed interpreter state: " ++ leaked);
      leaked = some leaked;
    }

module _ {H : Type 0} (py : Python H) (values : Values) where
  unfoldable pub take_globals : Bool → Option (Space H) → Option (Dict Kept) × Option (Space H)
  unfolding snapshot_shared
  take_globals measure none = (none, none)
  take_globals false (some sp) = (none, some sp)
  take_globals true (some sp) = let s = snapshot_shared py sp in (some s.0, some s.1)

  -- `Isolation.before`; the copies are allocated in the heap, and the memo of targets is filled.
  unfoldable pub before : Str → List Str → Str → Bool → Bool → Process H → Isolation × Process H
  unfolding take_globals registry_targets saved_of state_fingerprint
  before key roots test_module measure full w =
      let taken = take_globals measure w.space in
      let found = registry_targets w.cache key roots w.namespaces w.modules in
      (
        record {
          module_key = key;
          roots = roots;
          test_module = test_module;
          globals_before = taken.0;
          environ_before = w.state.environ;
          modules_before = then_some full w.modules;
          state_before = then_some full (state_fingerprint w.state);
          registries_before = then_some full (saved_of w.store found.0);
        },
        record w { space = taken.1; cache = if full then found.1 else w.cache },
      )

  unfoldable pub judge_globals : Isolation → Process H → Purity
  unfolding purity_verdict
  judge_globals iso w = elim iso.globals_before [
    | none ↦ unknown
    | some g ↦ elim w.space [
      | none ↦ unknown
      | some sp ↦ purity_verdict py sp w.state.environ g iso.environ_before
    ]
  ]

  unfoldable pub judge_registries : Isolation → Process H → Option Str
  unfolding registry_delta
  judge_registries iso w = elim iso.registries_before [
    | none ↦ none
    | some taken ↦ elim (registry_delta values iso.test_module taken w.store) [
      | none ↦ none
      | some r ↦ some (module_state_text ++ r)
    ]
  ]

  unfoldable pub judge_state : Isolation → Process H → Purity → Judged
  unfolding judge_registries unless_impure judge_drift fingerprint_delta threads_part told
  judge_state iso w p = elim iso.state_before [
    | none ↦ record { purity = p; leaked = none }
    | some fp ↦
        judge_drift (fingerprint_delta fp (state_fingerprint w.state))
          (told (threads_part fp (state_fingerprint w.state)))
          (unless_impure p (judge_registries iso w))
  ]

  -- `Isolation.verdict`
  unfoldable pub verdict : Isolation → Process H → Judged
  unfolding judge_globals judge_modules judge_state
  verdict iso w =
      judge_state iso w (judge_modules iso.modules_before w.modules (judge_globals iso w))
