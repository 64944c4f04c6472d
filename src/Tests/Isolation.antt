-- ===== src/Tests/Isolation.antt =====
-- isolation.py on concrete states, and the runs that its theorems apply to.
use tiderace.Base.{
  Bool, Str, [], codes, false, insert, lookup, none, refl, some, str_eq, true, ◌∷◌, ◌≡◌,
}
use tiderace.Isolation.State.{State, Thread, drop_first, put_handlers, same_list, trim_filters}
use tiderace.Isolation.Swapped.{restore_modules-settled_module, settled_module}
use tiderace.Isolation.Modules.{Modules, module_at, put_module, restore_modules, swapped}
use tiderace.Isolation.Registries.{
  Item, Saved, Store, Values, has_item, is_added, is_test_owned, origin_of, pulled, restore_one,
  restore_registries, same_container, sequence,
}

abbrev pub main_thread : Thread
main_thread = record { is_main = true; target_module = none; class_module = codes "threading" }

abbrev pub server_thread : Thread
server_thread = record {
  is_main = false;
  target_module = some (codes "socketserver");
  class_module = codes "threading";
}

abbrev pub pool_thread : Thread
pool_thread = record {
  is_main = false;
  target_module = some (codes "concurrent.futures.thread");
  class_module = codes "threading";
}

abbrev pub at_entry : State
at_entry = record {
  sys_path = codes "/p" ∷ [];
  environ = (codes "HOME", codes "/h") ∷ [];
  filters = 1 ∷ 2 ∷ [];
  handlers = 7 ∷ [];
  level = 30;
  threads = main_thread ∷ [];
  cwd = some (codes "/p");
}

-- A test that appended to `sys.path`, put a filter first, added a handler, and moved away.
abbrev pub behind : State
behind = record {
  sys_path = codes "/p" ∷ codes "/q" ∷ [];
  environ = (codes "HOME", codes "/h") ∷ [];
  filters = 3 ∷ 1 ∷ 2 ∷ [];
  handlers = 7 ∷ 8 ∷ [];
  level = 10;
  threads = main_thread ∷ server_thread ∷ pool_thread ∷ [];
  cwd = some (codes "/tmp");
}

abbrev pub every_dir : Str → Bool
every_dir d = true

-- A test that removed one filter of three: the restoring removes another one.
filters_lost : trim_filters 3 (1 ∷ 2 ∷ []) ≡ 2 ∷ []
unfolding trim_filters drop_first
filters_lost = refl

-- A handler that a test removed is not put back.
handler_lost : put_handlers (7 ∷ 8 ∷ []) (7 ∷ []) ≡ 7 ∷ []
unfolding put_handlers same_list
handler_lost = refl

abbrev pub loaded_before : Modules
loaded_before = (codes "a", some 1) ∷ (codes "b", some 2) ∷ (codes "c", some 3) ∷ []

-- `a` was imported again, `b` was removed, and `d` was added.
abbrev pub loaded_now : Modules
loaded_now = (codes "a", some 9) ∷ (codes "c", some 3) ∷ (codes "d", some 4) ∷ []

restored_modules :
    restore_modules loaded_before loaded_now
    ≡ (codes "a", some 1) ∷ (codes "c", some 3) ∷ (codes "d", some 4) ∷ []
unfolding restore_modules put_module module_at swapped lookup insert str_eq
restored_modules = refl

restore_modules-settled_module_example :
    lookup (codes "a") (restore_modules loaded_before loaded_now)
    ≡ settled_module (lookup (codes "a") loaded_before) (lookup (codes "a") loaded_now)
unfolding lookup str_eq
restore_modules-settled_module_example =
    restore_modules-settled_module loaded_before loaded_now (codes "a") (refl, (refl, (refl, tt)))

abbrev pub library_item : Item
library_item = record { tag = 1; origin = some (codes "lib"); type_origin = codes "builtins" }

abbrev test_item : Item
test_item = record { tag = 2; origin = some (codes "test_m"); type_origin = codes "builtins" }

abbrev warm_item : Item
warm_item = record { tag = 3; origin = some (codes "lib.more"); type_origin = codes "builtins" }

abbrev pub registry_saved : Saved
registry_saved = record {
  label = codes "lib.REGISTRY";
  address = 5;
  copy = sequence (library_item ∷ []);
}

abbrev pub registry_now : Store
registry_now a = sequence (library_item ∷ test_item ∷ warm_item ∷ [])

abbrev pub plain_values : Values
plain_values = record { file_of = λ n. none; clashes = λ c d. false; balks = λ c d. false }

-- The test's own entry is pulled out, and what the library added stays.
registry_restored :
    (restore_registries plain_values (codes "test_m") (registry_saved ∷ []) registry_now).1 5
    ≡ sequence (library_item ∷ warm_item ∷ [])
unfolding restore_registries restore_one pulled same_container same_list is_added has_item
    is_test_owned origin_of str_eq
registry_restored = refl
