-- ===== src/Isolation/Union.antt =====
-- isolation.py: `_restore_shared` over the union of the two snapshots.
use tiderace.Base.{
  Bool-cases, Dict, List, Str, [], arith, false, has_name, if◌then◌else◌, inl, inr, is_some, lookup,
  refl, str_eq, str_eq_refl, str_eq_sound, true, ℕ, ◌∙◌, ◌∷◌, ◌≡◌,
}
use tiderace.Isolation.State.{dict_names}
use tiderace.Isolation.Globals.{Kept, Python, Space, snapshot_shared, union_names}
use tiderace.Isolation.Shared.{restore_name, restore_names, restore_shared, stands}
use tiderace.Isolation.Standing.{restore_name-other, restore_name-same, stands-stands}

module _ {H : Type 0} (py : Python H) (depth : ℕ) where
  restore_names_stopped :
      (before current : Dict Kept) (k : Str) (ks : List Str) (sp : Space H)
      → (restore_name py depth k (lookup k before) (lookup k current) sp).raised ≡ true
      → restore_names py depth before current (k ∷ ks) sp
        ≡ restore_name py depth k (lookup k before) (lookup k current) sp
  unfolding restore_names
  restore_names_stopped before current k ks sp h = rw (h, restore_names) refl

  restore_names_on :
      (before current : Dict Kept) (k : Str) (ks : List Str) (sp : Space H)
      → (restore_name py depth k (lookup k before) (lookup k current) sp).raised ≡ false
      → restore_names py depth before current (k ∷ ks) sp
        ≡ restore_names py depth before current ks
            (restore_name py depth k (lookup k before) (lookup k current) sp).space
  unfolding restore_names
  restore_names_on before current k ks sp h = rw (h, restore_names) refl

  restore_names_step :
      (before current : Dict Kept) (k j : Str) (ks : List Str) (sp : Space H)
      → (restore_name py depth k (lookup k before) (lookup k current) sp).raised ≡ false
      → (if has_name j ks
          then stands py depth (lookup j before) (lookup j current) (
              is_some (
                lookup j
                  (restore_name py depth k (lookup k before) (lookup k current) sp).space.names))
          else is_some (
              lookup j
                (restore_name py depth k (lookup k before) (lookup k current) sp).space.names))
        ≡ (if has_name j (k ∷ ks)
            then stands py depth (lookup j before) (lookup j current) (is_some (lookup j sp.names))
            else is_some (lookup j sp.names))
  unfolding has_name
  restore_names_step before current k j ks sp r = elim (Bool-cases (str_eq k j)) [
    | inl e ↦
        rw
          (
            ← str_eq_sound k j e,
            str_eq_refl k,
            restore_name-same py depth k (lookup k before) (lookup k current) sp r,
          )
          (elim (Bool-cases (has_name k ks)) [
            | inl i ↦ rw i (stands-stands py depth (lookup k before) (lookup k current) _)
            | inr i ↦ rw i refl
          ])
    | inr e ↦ rw (e, restore_name-other py depth k j (lookup k before) (lookup k current) sp e) refl
  ]

  restore_names-stands :
      (before current : Dict Kept) (j : Str) (ks : List Str) (sp : Space H)
      → (restore_names py depth before current ks sp).raised ≡ false
      → is_some (lookup j (restore_names py depth before current ks sp).space.names) ≡ (
          if has_name j ks
          then stands py depth (lookup j before) (lookup j current) (is_some (lookup j sp.names))
          else is_some (lookup j sp.names))
  unfolding restore_names has_name
  restore_names-stands before current j [] sp = λ h. refl
  restore_names-stands before current j (k ∷ ks) sp =
      let p = restore_name py depth k (lookup k before) (lookup k current) sp in
      elim (Bool-cases p.raised) [
        | inl r ↦
            rw (restore_names_stopped before current k ks sp r) (λ e. absurd (ground (arith, r, e)))
        | inr r ↦ rw (restore_names_on before current k ks sp r) (λ e.
            restore_names-stands before current j ks p.space e
            ∙ restore_names_step before current k j ks sp r)
      ]

  -- When `_restore_shared` ends without an exception, each name of either snapshot stands in the module
  -- exactly if the snapshot of the entry holds it, so one that only the later snapshot holds is gone and
  -- one that the tests deleted is back; an opaque name is left as it is. The order of the walk is any
  -- that loses no name.
  pub restore_shared-stands :
      (before : Dict Kept) (env_before environ : Dict Str) (sp : Space H) (name : Str)
      → ((ns : List Str) → has_name name (py.arrange ns) ≡ has_name name ns)
      → has_name name (union_names (dict_names before) (dict_names (snapshot_shared py sp).0))
        ≡ true
      → (restore_shared py depth before env_before sp environ).0.raised ≡ false
      → is_some (lookup name (restore_shared py depth before env_before sp environ).0.space.names)
        ≡ stands py depth
            (lookup name before)
            (lookup name (snapshot_shared py sp).0)
            (is_some (lookup name sp.names))
  unfolding restore_shared snapshot_shared
  restore_shared-stands before env_before environ sp name ha hu hr =
      restore_names-stands before (snapshot_shared py sp).0 name _ (snapshot_shared py sp).1 hr
      ∙ rw (ha (union_names (dict_names before) (dict_names (snapshot_shared py sp).0)), hu) refl
