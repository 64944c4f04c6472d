-- ===== src/Tests/Scopes.antt =====
-- The wider-scope fixtures of engine.py, with a host that numbers the values it makes and counts
-- what it closes.
use tiderace.Base.{List, Str, [], codes, false, none, refl, some, str_eq, suc, true, ℕ, ◌∷◌, ◌≡◌}
use tiderace.Fixtures.{FixtureDef, InstanceKey, instance_key, rank, session_key}
use tiderace.Scopes.{
  Active, Engine, Host, args_of, key_live, key_same, keys, leave_module, set_up, sync_wider,
  teardown_stale, teardown_while,
}
use tiderace.Scopes.Keys.{IsDistinct}
use tiderace.Scopes.Live.{Serves, sync_wider-Serves, sync_wider-Unique}
use tiderace.Scopes.Teardown.{ClosesStale, teardown_while-ClosesStale}

-- A world is the next value and the number of fixtures closed.
abbrev World : Type 0
World = ℕ × ℕ

abbrev counting : Host ℕ ℕ World
counting = record {
  node_for = λ n w. w;
  xunit_setup = λ m w. (true, w);
  setup = λ d args w. (some (w.0, w.0), (suc w.0, w.1));
  close = λ h w. (true, (w.0, suc w.1));
  restore = λ w. w;
}

abbrev wide : Str → Str → FixtureDef
wide scope location = record {
  object_id = 1;
  name = codes "db";
  scope = scope;
  autouse = false;
  location = location;
  bindings = [];
  provides_type = none;
}

abbrev fresh : Engine ℕ ℕ World
fresh = record { active = []; guard = none; world = (0, 0) }

abbrev db_a : FixtureDef
db_a = wide (codes "session") (codes "a")

abbrev db_b : FixtureDef
db_b = wide (codes "session") (codes "b")

abbrev with_a : Engine ℕ ℕ World
with_a = record fresh {
  active = record { fdef = db_a; key = session_key (codes "db"); value = 0; handle = 0 } ∷ [];
  world = (1, 0);
}

sync_a : sync_wider counting (db_a ∷ []) (codes "a/t.py::x") fresh ≡ (true, with_a)
unfolding sync_wider teardown_stale teardown_while set_up args_of key_live key_same instance_key
    rank str_eq leave_module
sync_a = refl

-- A test of another directory that needs its own session fixture of the same name: nothing is set
-- up, and the live one of directory `a` is the value that it gets.
sync_b : sync_wider counting (db_b ∷ []) (codes "b/t.py::y") with_a ≡ (true, with_a)
unfolding sync_wider teardown_stale teardown_while set_up args_of key_live key_same instance_key
    rank str_eq leave_module
sync_b = refl

sync_wider-Serves_example :
    Serves counting
      (codes "b/t.py::y")
      (db_b ∷ [])
      (sync_wider counting (db_b ∷ []) (codes "b/t.py::y") with_a)
sync_wider-Serves_example = sync_wider-Serves counting (codes "b/t.py::y") (db_b ∷ []) with_a

sync_wider-Unique_example :
    IsDistinct
      (keys counting (sync_wider counting (db_a ∷ db_b ∷ []) (codes "a/t.py::x") fresh).1.active)
sync_wider-Unique_example =
    sync_wider-Unique counting (codes "a/t.py::x") (db_a ∷ db_b ∷ []) fresh tt

-- A module fixture below a session fixture that a later test of its module asked for first.
abbrev session_above : List (Active ℕ ℕ)
session_above =
    record { fdef = db_a; key = session_key (codes "db"); value = 1; handle = 1 }
    ∷ record {
      fdef = wide (codes "module") (codes "a");
      key = InstanceKey.module_key (codes "db") (codes "a/t.py");
      value = 0;
      handle = 0;
    }
    ∷ []

-- In another module it stays alive: the loop stops at the session fixture above it.
stale_below :
    teardown_while counting (codes "a/u.py::z") session_above (2, 0) ≡ (true, session_above, (2, 0))
unfolding teardown_while key_same instance_key str_eq
stale_below = refl

teardown_while-ClosesStale_example :
    ClosesStale counting
      (codes "a/u.py::z")
      session_above
      (2, 0)
      (teardown_while counting (codes "a/u.py::z") session_above (2, 0))
teardown_while-ClosesStale_example =
    teardown_while-ClosesStale counting (codes "a/u.py::z") session_above (2, 0)
