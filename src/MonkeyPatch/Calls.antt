-- ===== src/MonkeyPatch/Calls.antt =====
-- Any calls of a `MonkeyPatch`, and then `undo`.
use tiderace.Base.{
  Bool, List, Option, Str, [], is_some, joined, lookup, none, some, true, ℕ, ◌∷◌, ◌≡◌, ◌⊎◌,
}
use tiderace.MonkeyPatch.{
  Patched, Shape, Undo, World, chdir, delattr, delenv, delitem, getattr, setattr, setenv, setitem,
  syspath_prepend,
}

pub data Call (V : Type 0) : Type 0 where
  attr_set : ℕ → Str → V → Bool → Call V
  attr_deleted : ℕ → Str → Bool → Call V
  item_set : ℕ → Str → V → Call V
  item_deleted : ℕ → Str → Bool → Call V
  env_set : (V → V → V) → Str → V → Bool → Call V
  env_deleted : Str → Bool → Call V
  path_prepended : Str → Call V
  dir_changed : Str → Call V

module _ {V : Type 0} (shape : Shape V) where
  abbrev pub perform : Call V → World V → Patched V
  perform (attr_set o n v raising) w = setattr shape o n v raising w
  perform (attr_deleted o n raising) w = delattr shape o n raising w
  perform (item_set m k v) w = setitem shape m k v w
  perform (item_deleted m k raising) w = delitem shape m k raising w
  perform (env_set joined n v prepend) w = setenv shape joined n v prepend w
  perform (env_deleted n raising) w = delenv shape n raising w
  perform (path_prepended p) w = syspath_prepend p w
  perform (dir_changed d) w = chdir shape d w

  abbrev pub logged : Option (Undo V) → List (Undo V) → List (Undo V)
  logged none log = log
  logged (some u) log = u ∷ log

  -- Calls one after the other, whichever of them raises: the log, newest first, and the world.
  abbrev pub perform_all : List (Call V) → List (Undo V) → World V → List (Undo V) × World V
  perform_all [] log w = (log, w)
  perform_all (c ∷ cs) log w =
      perform_all cs (logged (perform c w).recorded log) (perform c w).after

  -- The store takes the value back that is there under a key.
  abbrev pub IsKept : ℕ → Str → World V → Type 0
  IsKept o n w = (old : V) → lookup n (w.cells o) ≡ some old → shape.takes o n old ≡ true

  -- So it does, or there is none and it takes the new one.
  abbrev pub IsTaken : ℕ → Str → V → World V → Type 0
  IsTaken o n v w =
      IsKept o n w × ((shape.takes o n v ≡ true) ⊎ (is_some (lookup n (w.cells o)) ≡ true))

  -- The attribute is the object's own or missing, not lent; the mapping has a `get`; the directory can
  -- be entered again; and nothing is refused but a new value for an old key.
  abbrev pub IsOwn : Call V → World V → Type 0
  IsOwn (attr_set o n v raising) w = (getattr shape o n w ≡ lookup n (w.cells o)) × IsTaken o n v w
  IsOwn (attr_deleted o n raising) w = (getattr shape o n w ≡ lookup n (w.cells o)) × IsKept o n w
  IsOwn (item_set m k v) w = (shape.has_get m ≡ true) × IsTaken m k v w
  IsOwn (item_deleted m k raising) w = IsKept m k w
  IsOwn (env_set joined n v prepend) w =
      (shape.has_get shape.environ ≡ true) × IsTaken shape.environ n v w
  IsOwn (env_deleted n raising) w = IsKept shape.environ n w
  IsOwn (path_prepended p) w = Unit {0}
  IsOwn (dir_changed d) w = shape.can_enter w.cwd ≡ true

  abbrev pub AllOwn : List (Call V) → World V → Type 0
  AllOwn [] w = Unit {0}
  AllOwn (c ∷ cs) w = IsOwn c w × AllOwn cs (perform c w).after
