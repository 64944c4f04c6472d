-- ===== src/Isolation/Globals.antt =====
-- isolation.py: the snapshot of a module's globals, the purity verdict, and the restoring in place.
use tiderace.Base.{
  Bool, Dict, List, Option, Str, [], all, codes, eqb, false, has_name, if◌then◌else◌, keep, length,
  lookup, none, not, some, starts_with, str_eq, suc, true, zero, ℕ, ◌&&◌, ◌++◌, ◌||◌, ◌∷◌,
}
use tiderace.Results.{Purity, impure, pure}
use tiderace.Isolation.State.{dict_names}

-- How `_restore_in_place` tells objects apart; `other` is every type that it has no rule for.
pub data Kind : Type 0 where
  dict_like list_like set_like bytes_like with_dict other : Kind
  with_slots : List Str → Kind

-- The interpreter's own operations on objects, which are named by their identities, over the heap `H`.
-- `fill` is `update` or a slice assignment of a builtin type, `assign` and `extend` those of `other`
-- types, which can raise; `arrange` is the order in which a set of names is walked.
pub record Python (H : Type 0) : Type 0 where
  pub is_hidden : H → ℕ → Bool
  pub by_identity : H → ℕ → Bool
  pub equal : H → ℕ → ℕ → Bool
  pub same_type : H → ℕ → ℕ → Bool
  pub kind : H → ℕ → Kind
  pub attr_names : H → ℕ → List Str
  pub attr : H → ℕ → Str → Option ℕ
  pub set_attr : ℕ → Str → ℕ → H → H
  pub del_attr : ℕ → Str → H → H
  pub deepcopy : ℕ → H → Option (ℕ × H)
  pub clear : ℕ → H → H
  pub fill : ℕ → ℕ → H → H
  pub assign : ℕ → ℕ → H → Option H
  pub extend : ℕ → ℕ → H → Option H
  pub arrange : List Str → List Str

-- What stands in a snapshot: a value, or `_OPAQUE` for one that cannot be copied.
pub data Kept : Type 0 where
  opaque : Kept
  saved : ℕ → Kept

-- What a try to restore an object came to.
pub record Attempt (H : Type 0) : Type 0 where
  pub raised : Bool
  pub handled : Bool
  pub heap : H

-- A module's names and the heap that they point into.
pub record Space (H : Type 0) : Type 0 where
  pub names : Dict ℕ
  pub heap : H

-- What `_restore_shared` has come to: an exception ends it where it stands.
pub record Restoring (H : Type 0) : Type 0 where
  pub raised : Bool
  pub space : Space H

unfoldable pub same_dict : Dict Str → Dict Str → Bool
unfolding lookup str_eq
same_dict d e =
    eqb (length d) (length e)
    && all (λ f. elim (lookup f.0 e) [ none ↦ false | some v ↦ str_eq f.1 v ]) d

-- `set(a) | set(b)`
unfoldable pub union_names : List Str → List Str → List Str
unfolding has_name
union_names a b = a ++ keep (λ n. not (has_name n a)) b

module _ {H : Type 0} (py : Python H) where
  unfoldable pub snapshot_value : ℕ → H → Kept × H
  snapshot_value v h = elim (py.deepcopy v h) [
    | none ↦ (opaque, h)
    | some (copied, h') ↦ (if py.by_identity h' v then saved v else saved copied, h')
  ]

  unfoldable pub snapshot_names : Dict ℕ → H → Dict Kept × H
  unfolding snapshot_value starts_with
  snapshot_names [] h = ([], h)
  snapshot_names ((k, v) ∷ d) h = elim (starts_with k (codes "__") || py.is_hidden h v) [
    | true ↦ snapshot_names d h
    | false ↦
        let s = snapshot_value v h in let rest = snapshot_names d s.1 in ((k, s.0) ∷ rest.0, rest.1)
  ]

  unfoldable pub snapshot_shared : Space H → Dict Kept × Space H
  unfolding snapshot_names
  snapshot_shared sp = let s = snapshot_names sp.names sp.heap in (s.0, record sp { heap = s.1 })

  -- Whether a name counts as mutated; one that is opaque on either side is not judged.
  unfoldable pub is_mutated : H → Option Kept → Option Kept → Bool
  is_mutated h (some opaque) a = false
  is_mutated h none (some opaque) = false
  is_mutated h (some (saved b)) (some opaque) = false
  is_mutated h none none = true
  is_mutated h none (some (saved a)) = true
  is_mutated h (some (saved b)) none = true
  is_mutated h (some (saved b)) (some (saved a)) = not (py.equal h b a)

  unfoldable pub first_mutated : H → Dict Kept → Dict Kept → List Str → Option Str
  unfolding is_mutated lookup
  first_mutated h before after [] = none
  first_mutated h before after (k ∷ ks) =
      let rest = first_mutated h before after ks in
      if is_mutated h (lookup k before) (lookup k after) then some k else rest

  unfoldable pub purity_verdict : Space H → Dict Str → Dict Kept → Dict Str → Purity
  unfolding snapshot_shared first_mutated same_dict union_names
  purity_verdict sp environ before env_before =
      let after = snapshot_shared sp in
      elim (first_mutated after.1.heap before after.0
        (py.arrange (union_names (dict_names before) (dict_names after.0)))) [
          | some k ↦ impure (codes "mutated module global `" ++ k ++ codes "`")
          | none ↦
              if same_dict environ env_before then pure else impure (codes "mutated os.environ")
        ]

  -- A module whose state can be put back: nothing in its snapshot is opaque.
  unfoldable pub restorable : Space H → Bool
  unfolding snapshot_shared
  restorable sp = all (λ e. elim e.1 [ opaque ↦ false | saved v ↦ true ]) (snapshot_shared sp).0

  abbrev failed : H → Attempt H
  failed h = record { raised = true; handled = false; heap = h }

  abbrev done : H → Attempt H
  done h = record { raised = false; handled = true; heap = h }

  abbrev unhandled : H → Attempt H
  unhandled h = record { raised = false; handled = false; heap = h }

  -- `fill(live, copy.deepcopy(old))`
  unfoldable pub refill : ℕ → ℕ → H → Attempt H
  refill live old h = elim (py.deepcopy old h) [
    | none ↦ failed h
    | some (c, h') ↦ done (py.fill live c h')
  ]

  -- Every other type: a slice assignment, or else `clear` and `extend`, or else nothing.
  unfoldable pub refill_extend : ℕ → ℕ → H → Attempt H
  refill_extend live old h = elim (py.deepcopy old h) [
    | none ↦ unhandled h
    | some (c, h') ↦ elim (py.extend live c (py.clear live h')) [
      | none ↦ unhandled (py.clear live h')
      | some h'' ↦ done h''
    ]
  ]

  unfoldable pub refill_other : ℕ → ℕ → H → Attempt H
  unfolding refill_extend
  refill_other live old h = elim (py.deepcopy old h) [
    | none ↦ refill_extend live old h
    | some (c, h') ↦ elim (py.assign live c h') [
      | none ↦ refill_extend live old h'
      | some h'' ↦ done h''
    ]
  ]

  -- `inst[name] = copy.deepcopy(old_vars[name])`
  unfoldable pub copy_attr : ℕ → Str → ℕ → H → Attempt H
  copy_attr live n old h = elim (py.deepcopy old h) [
    | none ↦ failed h
    | some (c, h') ↦ done (py.set_attr live n c h')
  ]

  unfoldable pub restore_attr : (ℕ → ℕ → H → Attempt H) → ℕ → ℕ → Str → H → Attempt H
  unfolding copy_attr
  restore_attr again live old n h = elim (py.attr h old n) [
    | none ↦ elim (py.attr h live n) [ none ↦ done h | some v ↦ done (py.del_attr live n h) ]
    | some o ↦ elim (py.attr h live n) [
      | none ↦ copy_attr live n o h
      | some v ↦
          let tried = again v o h in
          if tried.raised || tried.handled then tried else copy_attr live n o tried.heap
    ]
  ]

  unfoldable pub restore_attrs : (ℕ → ℕ → H → Attempt H) → ℕ → ℕ → List Str → H → Attempt H
  unfolding restore_attr
  restore_attrs again live old [] h = done h
  restore_attrs again live old (n ∷ ns) h =
      let tried = restore_attr again live old n h in
      elim tried.raised [ true ↦ tried | false ↦ restore_attrs again live old ns tried.heap ]

  -- Restores an object's contents and keeps its identity; the number is what is left of the recursion
  -- limit, and with none left the call raises.
  unfoldable pub restore_in_place : ℕ → ℕ → ℕ → H → Attempt H
  unfolding refill refill_other restore_attrs union_names
  restore_in_place zero live old h = failed h
  restore_in_place (suc depth) live old h = elim (eqb live old || not (py.same_type h live old)) [
    | true ↦ unhandled h
    | false ↦ elim (py.kind h live) [
      | dict_like ↦ refill live old (py.clear live h)
      | list_like ↦ refill live old h
      | set_like ↦ refill live old (py.clear live h)
      | bytes_like ↦ done (py.fill live old h)
      | with_dict ↦
          restore_attrs (restore_in_place depth) live old
            (py.arrange (union_names (py.attr_names h live) (py.attr_names h old))) h
      | with_slots slots ↦ restore_attrs (restore_in_place depth) live old slots h
      | other ↦ refill_other live old h
    ]
  ]
