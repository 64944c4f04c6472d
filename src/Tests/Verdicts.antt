-- ===== src/Tests/Verdicts.antt =====
-- isolation.py: verdicts on concrete states.
use tiderace.Isolation.NothingNew.{HoldsNothingNew}
use tiderace.Base.{
  All, Str, [], codes, has_name, joined, lookup, none, refl, some, starts_with, str_eq, ◌++◌, ◌<◌,
  ◌∷◌, ◌≡◌,
}
use tiderace.Results.{impure}
use tiderace.Isolation.Modules.{module_at, swapped, swapped_names}
use tiderace.Isolation.Registries.{added_labels, registry_delta, restore_registries, same_container}
use tiderace.Isolation.Globals.{
  first_mutated, is_mutated, purity_verdict, same_dict, snapshot_names, snapshot_shared,
  snapshot_value, union_names,
}
use tiderace.Plan.{decimal, digits}
use tiderace.Isolation.State.{
  State, cwd_text, fingerprint_delta, live_threads, moved, same_list, same_names, same_option,
  state_fingerprint, thread_home, threads_part, threads_text, told, top_package,
}
use tiderace.Isolation.Session.{
  Isolation, Process, judge_drift, judge_globals, judge_modules, judge_registries, judge_state,
  saved_of, unless_impure, verdict,
}
use tiderace.Isolation.Verdicts.{verdict-leaked}
use tiderace.Isolation.Targets.{registry_targets}
use tiderace.Isolation.PutBack.{
  restore, restore_containers, restore_globals, restore_loaded, with_found,
}
use tiderace.Isolation.Reverted.{restore-Reverted}
use tiderace.Tests.Isolation.{
  at_entry, behind, every_dir, loaded_before, loaded_now, plain_values, registry_now,
  registry_saved,
}
use tiderace.Tests.Aliasing.{Cells, small_python, snapshot, two_lists}

abbrev world_at : State → Process Cells
world_at s = record {
  space = some (record { names = two_lists.names; heap = 1 ∷ 2 ∷ 1 ∷ 2 ∷ [] });
  state = s;
  modules = loaded_before;
  namespaces = λ m. none;
  store = λ a. registry_saved.copy;
  cache = [];
}

abbrev full_isolation : Isolation
full_isolation = record {
  module_key = codes "test_m.py";
  roots = codes "lib" ∷ [];
  test_module = codes "test_m";
  globals_before = some snapshot;
  environ_before = at_entry.environ;
  modules_before = some loaded_before;
  state_before = some (state_fingerprint at_entry);
  registries_before = some (registry_saved ∷ []);
}

abbrev leak_text : Str
leak_text =
    codes
      "changed sys.path; changed warnings.filters; changed logging.handlers; changed logging.level; left 1 thread(s) running; changed the working directory to /tmp (unrestorable: left 1 thread(s) running)"

verdict-leaked_example :
    ((verdict small_python plain_values full_isolation (world_at behind)).purity
      ≡ impure (codes "disturbed interpreter state: " ++ leak_text))
    × ((state_fingerprint at_entry).threads < live_threads behind.threads)
unfolding verdict judge_globals judge_state judge_registries judge_modules judge_drift unless_impure
    registry_delta added_labels same_container same_list swapped_names module_at swapped
    purity_verdict snapshot_shared snapshot_names snapshot_value first_mutated is_mutated
    union_names starts_with same_dict lookup str_eq has_name fingerprint_delta moved told joined
    threads_part threads_text decimal digits state_fingerprint live_threads thread_home top_package
    same_option same_names cwd_text
verdict-leaked_example =
    verdict-leaked small_python plain_values full_isolation (world_at behind)
      (state_fingerprint at_entry) leak_text refl refl

-- A worker leaves a module whose tests moved much of it.
abbrev left_world : Process Cells
left_world = record (world_at behind) { modules = loaded_now; store = registry_now }

restore-Reverted_example :
    (swapped_names loaded_before
        (restore small_python 9 plain_values every_dir full_isolation left_world).1.modules
      ≡ [])
    × All
        (λ c.
          HoldsNothingNew plain_values
            (codes "test_m")
            ((restore small_python 9 plain_values every_dir full_isolation left_world).1.store
              c.address)
            c.copy)
        (registry_saved ∷ [])
    × ((restore small_python 9 plain_values every_dir full_isolation left_world).1.state
        ≡ record at_entry {
          environ =
              (restore_globals small_python 9 plain_values every_dir full_isolation
                left_world).state.environ;
          threads = behind.threads;
        })
unfolding lookup str_eq restore restore_globals restore_loaded restore_containers registry_targets
    saved_of with_found restore_registries
restore-Reverted_example =
    restore-Reverted small_python 9 plain_values every_dir full_isolation left_world loaded_before
      (registry_saved ∷ []) at_entry (3 ∷ []) (codes "/p") refl refl refl (refl, (refl, (refl, tt)))
      refl refl refl refl (λ a b. refl) refl
