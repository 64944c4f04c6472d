-- ===== src/Isolation/Shared.antt =====
-- isolation.py: `_restore_shared`, the module's globals and the environment put back.
use tiderace.Base.{
  Bool, Dict, List, Option, Str, [], erase, false, if◌then◌else◌, insert, lookup, none, some, true,
  ℕ, ◌||◌, ◌∷◌,
}
use tiderace.Isolation.State.{dict_names}
use tiderace.Isolation.Globals.{
  Kept, Python, Restoring, Space, opaque, restore_in_place, same_dict, saved, snapshot_shared,
  union_names,
}

module _ {H : Type 0} (py : Python H) (depth : ℕ) where
  abbrev going : Space H → Restoring H
  going sp = record { raised = false; space = sp }

  -- `d[k] = copy.deepcopy(old)`
  unfoldable pub rebind : Str → ℕ → Space H → Restoring H
  unfolding insert
  rebind k old sp = elim (py.deepcopy old sp.heap) [
    | none ↦ record { raised = true; space = sp }
    | some (c, h) ↦ going (record { names = insert k c sp.names; heap = h })
  ]

  -- Contents first, so that the object stays the one that other names hold.
  unfoldable pub put_back : Str → ℕ → ℕ → Space H → Restoring H
  unfolding restore_in_place rebind
  put_back k live old sp =
      let tried = restore_in_place py depth live old sp.heap in
      if tried.raised
      then record { raised = true; space = record sp { heap = tried.heap } }
      else if tried.handled
      then going (record sp { heap = tried.heap })
      else rebind k old (record sp { heap = tried.heap })

  unfoldable pub put_saved : Str → ℕ → Space H → Restoring H
  unfolding put_back rebind lookup
  put_saved k old sp = elim (lookup k sp.names) [
    | none ↦ rebind k old sp
    | some live ↦ if py.equal sp.heap live old then going sp else put_back k live old sp
  ]

  -- One name of the union of the two snapshots.
  unfoldable pub restore_name : Str → Option Kept → Option Kept → Space H → Restoring H
  unfolding put_saved erase
  restore_name k (some opaque) current sp = going sp
  restore_name k none (some opaque) sp = going sp
  restore_name k (some (saved old)) (some opaque) sp = going sp
  restore_name k none none sp = going (record sp { names = erase k sp.names })
  restore_name k none (some (saved a)) sp = going (record sp { names = erase k sp.names })
  restore_name k (some (saved old)) none sp = put_saved k old sp
  restore_name k (some (saved old)) (some (saved a)) sp = put_saved k old sp

  unfoldable pub restore_names : Dict Kept → Dict Kept → List Str → Space H → Restoring H
  unfolding restore_name lookup
  restore_names before current [] sp = going sp
  restore_names before current (k ∷ ks) sp =
      let p = restore_name k (lookup k before) (lookup k current) sp in
      elim p.raised [ true ↦ p | false ↦ restore_names before current ks p.space ]

  -- What comes of `_restore_shared`: the module's globals, and the environment, which is put back only
  -- behind them.
  unfoldable pub restore_shared : Dict Kept → Dict Str → Space H → Dict Str → Restoring H × Dict Str
  unfolding restore_names snapshot_shared union_names same_dict
  restore_shared before env_before sp environ =
      let current = snapshot_shared py sp in
      let p =
        restore_names before current.0
          (py.arrange (union_names (dict_names before) (dict_names current.0))) current.1 in
      (p, if p.raised || same_dict environ env_before then environ else env_before)

  -- Whether a name stands in the module when it has been put back: an opaque one as before, and any
  -- other exactly if the snapshot holds it.
  unfoldable pub stands : Option Kept → Option Kept → Bool → Bool
  stands (some opaque) current now = now
  stands none (some opaque) now = now
  stands none none now = false
  stands none (some (saved a)) now = false
  stands (some (saved old)) (some opaque) now = now
  stands (some (saved old)) none now = true
  stands (some (saved old)) (some (saved a)) now = true
