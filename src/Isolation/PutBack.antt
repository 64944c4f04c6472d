-- ===== src/Isolation/PutBack.antt =====
-- isolation.py: `Isolation.restore`, what the snapshots hold put back when the worker leaves a module.
use tiderace.Base.{
  Bool, List, Str, [], false, has_name, if◌then◌else◌, keep, map, none, not, some, true, ℕ, ◌++◌,
}
use tiderace.Isolation.State.{restore_state}
use tiderace.Isolation.Modules.{restore_modules}
use tiderace.Isolation.Registries.{
  Container, Saved, Values, collection, mapping, restore_registries, sequence,
}
use tiderace.Isolation.Targets.{registry_targets}
use tiderace.Isolation.Globals.{Python}
use tiderace.Isolation.Shared.{restore_shared}
use tiderace.Isolation.Session.{Isolation, Process, before, saved_of}

-- `type(container)()`
unfoldable pub empty_like : Container → Container
empty_like (mapping d) = mapping []
empty_like (sequence xs) = sequence []
empty_like (collection xs) = collection []

-- The containers that were found only now are restored against an empty one.
unfoldable pub emptied : Saved → Saved
unfolding empty_like
emptied s = record s { copy = empty_like s.copy }

unfoldable pub with_found : List Saved → List Saved → List Saved
unfolding has_name emptied
with_found before found =
    before ++ map emptied (keep (λ s. not (has_name s.label (map (λ b. b.label) before))) found)

module _ {H : Type 0} (py : Python H) (depth : ℕ) (values : Values) (is_dir : Str → Bool) where
  unfoldable pub restore_globals : Isolation → Process H → Process H
  unfolding restore_shared
  restore_globals iso w = elim iso.globals_before [
    | none ↦ w
    | some g ↦ elim w.space [
      | none ↦ w
      | some sp ↦
          let r = restore_shared py depth g iso.environ_before sp w.state.environ in
          record w { space = some r.0.space; state = record w.state { environ = r.1 } }
    ]
  ]

  -- False where an exception came out of it.
  unfoldable pub restore_containers : Isolation → Process H → Bool × Process H
  unfolding registry_targets saved_of with_found restore_registries
  restore_containers iso w = elim iso.registries_before [
    | none ↦ (true, w)
    | some taken ↦
        let found = registry_targets w.cache iso.module_key iso.roots w.namespaces w.modules in
        let r =
          restore_registries values iso.test_module (with_found taken (saved_of w.store found.0))
            w.store in
        (r.0, record w { store = r.1; cache = found.1 })
  ]

  unfoldable pub restore_loaded : Isolation → Process H → Process H
  unfolding restore_modules
  restore_loaded iso w = elim iso.modules_before [
    | none ↦ w
    | some before ↦ record w { modules = restore_modules before w.modules }
  ]

  unfoldable pub restore_interpreter : Isolation → Process H → Process H
  unfolding restore_state
  restore_interpreter iso w = elim iso.state_before [
    | none ↦ w
    | some fp ↦ record w { state = restore_state is_dir fp w.state }
  ]

  -- `Isolation.restore`: an exception in the globals is swallowed, and the rest is put back all the
  -- same; one in the containers comes out of it, and the interpreter's state is then not put back.
  unfoldable pub restore : Isolation → Process H → Bool × Process H
  unfolding restore_globals restore_loaded restore_containers restore_interpreter
  restore iso w =
      let r = restore_containers iso (restore_loaded iso (restore_globals iso w)) in
      if r.0 then (true, restore_interpreter iso r.1) else (false, r.1)
