-- ===== src/MonkeyPatch.antt =====
-- engine/py-tiderace/tiderace/builtins/_monkeypatch.py: the patcher and its undo log, on a store of the
-- own attributes of each object and the items of each mapping, by identity; keys are texts.
pub mod Undoing
pub mod Calls
use tiderace.Base.{
  Bool, Dict, List, Option, Str, [], eqb, erase, false, if◌then◌else◌, insert, joined, lookup, none,
  some, true, ℕ, ◌∷◌,
}

pub record World (V : Type 0) : Type 0 where
  pub cells : ℕ → Dict V
  pub sys_path : List Str
  pub cwd : Str

-- An inverse in the undo log.
pub data Undo (V : Type 0) : Type 0 where
  put : ℕ → Str → V → Undo V
  drop_key : ℕ → Str → Undo V
  put_path : List Str → Undo V
  back_to : Str → Undo V

-- What a call does: whether it raises, the inverse that it records, and the world behind it.
pub record Patched (V : Type 0) : Type 0 where
  pub raised : Bool
  pub recorded : Option (Undo V)
  pub after : World V

-- What does not change: the objects that lend an object its attributes, in the order of the lookup,
-- whether a mapping has a `get`, the mapping of the environment, whether an object or a mapping takes
-- a value under a key, or refuses it by an exception, and the same of a directory.
pub record Shape (V : Type 0) : Type 0 where
  pub lenders : ℕ → List ℕ
  pub has_get : ℕ → Bool
  pub environ : ℕ
  pub takes : ℕ → Str → V → Bool
  pub can_enter : Str → Bool

module _ {V : Type 0} where
  unfoldable pub with_cell : ℕ → Dict V → World V → World V
  with_cell o d w = record w { cells = λ p. if eqb o p then d else w.cells p }

  unfoldable pub set_key : ℕ → Str → V → World V → World V
  unfolding with_cell insert
  set_key o n v w = with_cell o (insert n v (w.cells o)) w

  unfoldable pub remove_key : ℕ → Str → World V → World V
  unfolding with_cell erase
  remove_key o n w = with_cell o (erase n (w.cells o)) w

  -- `getattr(target, name, _SENTINEL)`: the first of the objects that has it.
  unfoldable pub first_own : List ℕ → Str → World V → Option V
  unfolding lookup
  first_own [] n w = none
  first_own (o ∷ os) n w = elim (lookup n (w.cells o)) [ some v ↦ some v | none ↦ first_own os n w ]

  unfoldable pub did : Undo V → World V → Patched V
  did u w = record { raised = false; recorded = some u; after = w }

  -- The inverse stands in the log before the change: where that raises, it stays there.
  unfoldable pub did_if : Bool → Undo V → World V → World V → Patched V
  unfolding did
  did_if accepted u changed w =
      if accepted then did u changed else record { raised = true; recorded = some u; after = w }

  -- A key that is missing: the call raises if it is to, and changes nothing.
  unfoldable pub missing : Bool → World V → Patched V
  missing raising w = record { raised = raising; recorded = none; after = w }

  module _ (shape : Shape V) where
    unfoldable pub getattr : ℕ → Str → World V → Option V
    unfolding first_own
    getattr o n w = first_own (o ∷ shape.lenders o) n w

    unfoldable pub setattr : ℕ → Str → V → Bool → World V → Patched V
    unfolding getattr did_if missing set_key
    setattr o n v raising w = elim (getattr o n w) [
      | some old ↦ did_if (shape.takes o n v) (put o n old) (set_key o n v w) w
      | none ↦
          if raising
          then missing true w
          else did_if (shape.takes o n v) (drop_key o n) (set_key o n v w) w
    ]

    -- An attribute that is only lent cannot be deleted: the call raises behind its record.
    unfoldable pub delattr : ℕ → Str → Bool → World V → Patched V
    unfolding getattr did missing remove_key lookup
    delattr o n raising w = elim (getattr o n w) [
      | none ↦ missing raising w
      | some old ↦ elim (lookup n (w.cells o)) [
        | some own ↦ did (put o n old) (remove_key o n w)
        | none ↦ record { raised = true; recorded = some (put o n old); after = w }
      ]
    ]

    unfoldable pub setitem : ℕ → Str → V → World V → Patched V
    unfolding did_if set_key lookup
    setitem m k v w = elim (if shape.has_get m then lookup k (w.cells m) else none) [
      | some old ↦ did_if (shape.takes m k v) (put m k old) (set_key m k v w) w
      | none ↦ did_if (shape.takes m k v) (drop_key m k) (set_key m k v w) w
    ]

    unfoldable pub delitem : ℕ → Str → Bool → World V → Patched V
    unfolding did missing remove_key lookup
    delitem m k raising w = elim (lookup k (w.cells m)) [
      | none ↦ missing raising w
      | some old ↦ did (put m k old) (remove_key m k w)
    ]

    -- `setenv`; `joined` puts a value before what is there already.
    unfoldable pub setenv : (V → V → V) → Str → V → Bool → World V → Patched V
    unfolding setitem lookup
    setenv joined n v prepend w = elim (lookup n (w.cells shape.environ)) [
      | some old ↦ setitem shape.environ n (if prepend then joined v old else v) w
      | none ↦ setitem shape.environ n v w
    ]

    unfoldable pub delenv : Str → Bool → World V → Patched V
    unfolding delitem
    delenv n raising w = delitem shape.environ n raising w

  unfoldable pub syspath_prepend : Str → World V → Patched V
  unfolding did
  syspath_prepend path w = did (put_path w.sys_path) (record w { sys_path = path ∷ w.sys_path })

  unfoldable pub chdir : Shape V → Str → World V → Patched V
  unfolding did_if
  chdir shape path w = did_if (shape.can_enter path) (back_to w.cwd) (record w { cwd = path }) w

  -- One inverse; `none` is an exception, of a key that is gone, or of a value or a directory that is
  -- refused.
  unfoldable pub undo_one : Shape V → Undo V → World V → Option (World V)
  unfolding set_key remove_key lookup
  undo_one shape (put o n v) w = if shape.takes o n v then some (set_key o n v w) else none
  undo_one shape (drop_key o n) w = elim (lookup n (w.cells o)) [
    | some v ↦ some (remove_key o n w)
    | none ↦ none
  ]
  undo_one shape (put_path p) w = some (record w { sys_path = p })
  undo_one shape (back_to d) w = if shape.can_enter d then some (record w { cwd = d }) else none

  -- The first loop of `undo`, over the log with its newest entry first.
  unfoldable pub undo : Shape V → List (Undo V) → World V → Option (World V)
  unfolding undo_one
  undo shape [] w = some w
  undo shape (u ∷ log) w = elim (undo_one shape u w) [ none ↦ none | some w' ↦ undo shape log w' ]

  -- The second: the entries of pytest's own log, `none` being its mark of a key that was missing.
  unfoldable pub undo_items : List (ℕ × Str × Option V) → World V → World V
  unfolding set_key remove_key
  undo_items [] w = w
  undo_items ((m, k, some old) ∷ entries) w = undo_items entries (set_key m k old w)
  undo_items ((m, k, none) ∷ entries) w = undo_items entries (remove_key m k w)
