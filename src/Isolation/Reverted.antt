-- ===== src/Isolation/Reverted.antt =====
-- isolation.py: what `Isolation.restore` leaves behind, all of it together.
use tiderace.Isolation.NothingNew.{HoldsNothingNew, has_added-HoldsNothingNew}
use tiderace.Isolation.Registries.{Container, Saved, Store, Values}
use tiderace.Isolation.PulledOut.{IsClean, restore_registries-IsClean}
use tiderace.Isolation.Restored.{restore_state-before}
use tiderace.Isolation.Targets.{registry_targets}
use tiderace.Base.{
  All, All-intro, Bool, Bool-cases, Elem, List, Option, Option-cases, Str, [], all, ap, arith,
  false, index_in, inl, inr, keep, keep_no, lookup, none, refl, some, str_eq, str_eq_refl,
  str_eq_sound, subst, sym, true, ℕ, ◌++◌, ◌∙◌, ◌∷◌, ◌≡◌,
}
use tiderace.Isolation.State.{Fingerprint, State, dict_names, restore_state, state_fingerprint}
use tiderace.Isolation.Modules.{Modules, module_at, restore_modules, swapped, swapped_names}
use tiderace.Isolation.Swapped.{
  Distinct, restore_modules-settled_module, settled_module, settled_module-kept, settled_module-put,
}
use tiderace.Isolation.Session.{Isolation, Process, before, saved_of}
use tiderace.Isolation.Globals.{Python}
use tiderace.Isolation.PutBack.{
  restore, restore_containers, restore_globals, restore_interpreter, restore_loaded, with_found,
}

swapped_self : (m : Option ℕ) → swapped m m ≡ false
unfolding swapped
swapped_self none = refl
swapped_self (some k) = ground arith

-- A name that has been settled holds no module that is swapped.
settled_module-swapped :
    (m : Option ℕ) (o : Option (Option ℕ))
    → swapped (elim (settled_module (some m) o) [ none ↦ none | some c ↦ c ]) m ≡ false
unfolding settled_module swapped
settled_module-swapped m none = refl
settled_module-swapped m (some c) =
    let held : Option (Option ℕ) → Option ℕ = λ p. elim p [ none ↦ none | some d ↦ d ] in
    elim (Bool-cases (swapped c m)) [
      | inl w ↦ ap (λ p. swapped (held p) m) (settled_module-put m c w) ∙ swapped_self m
      | inr w ↦ ap (λ p. swapped (held p) m) (settled_module-kept m c w) ∙ w
    ]

module_at-lookup :
    (n : Str) (ms : Modules) (o : Option (Option ℕ))
    → lookup n ms ≡ o
    → module_at n ms ≡ elim o [ none ↦ none | some c ↦ c ]
unfolding module_at
module_at-lookup n ms o h = rw (← h) refl

Distinct-lookup :
    (ms : Modules) (n : Str) (m : Option ℕ) → Distinct ms → Elem (n, m) ms → lookup n ms ≡ some m
unfolding lookup
Distinct-lookup [] n m d e = absurd e
Distinct-lookup ((k, v) ∷ ms) n m d (inl e) =
    let same : k ≡ n = sym (ap (λ (p : Str × Option ℕ). p.0) e) in
    let value : v ≡ m = sym (ap (λ (p : Str × Option ℕ). p.1) e) in
    rw (same, value, str_eq_refl n) refl
Distinct-lookup ((k, v) ∷ ms) n m d (inr e) = elim (Bool-cases (str_eq k n)) [
  | inl q ↦
      let gone : lookup n ms ≡ none = rw (← str_eq_sound k n q) d.0 in
      absurd (ground (arith, gone, Distinct-lookup ms n m d.1 e))
  | inr q ↦ rw (q, lookup) (Distinct-lookup ms n m d.1 e)
]

keep-none {ℓ} :
    {A : Type ℓ} (p : A → Bool) (xs : List A) → All (λ x. p x ≡ false) xs → keep p xs ≡ []
keep-none p [] h = refl
keep-none p (x ∷ xs) h = keep_no p x xs h.0 ∙ keep-none p xs h.1

-- No module is swapped any more.
swapped_names-restore_modules :
    (before now : Modules)
    → Distinct before
    → swapped_names before (restore_modules before now) ≡ []
unfolding swapped_names
swapped_names-restore_modules before now d = ap dict_names (
    keep-none _ before (
      All-intro _ before (λ e i.
        let at =
          restore_modules-settled_module before now e.0 d
          ∙ ap (λ o. settled_module o (lookup e.0 now)) (Distinct-lookup before e.0 e.1 d i) in
        ap (λ c. swapped c e.1) (module_at-lookup e.0 (restore_modules before now) _ at)
        ∙ settled_module-swapped e.1 (lookup e.0 now))))

All-left {κ} : {A : Type 0} (P : A → Type κ) (xs ys : List A) → All P (xs ++ ys) → All P xs
All-left P [] ys h = tt
All-left P (x ∷ xs) ys h = (h.0, All-left P xs ys h.1)

module _ {H : Type 0} (py : Python H) (depth : ℕ) (values : Values) (is_dir : Str → Bool)
    (iso : Isolation) (w : Process H) where
  -- What the globals' part leaves, and then the modules' and the containers'.
  abbrev behind_globals : Process H
  behind_globals = restore_globals py depth values is_dir iso w

  abbrev behind_loaded : Process H
  behind_loaded = restore_loaded py depth values is_dir iso behind_globals

  abbrev behind_containers : Bool × Process H
  behind_containers = restore_containers py depth values is_dir iso behind_loaded

  restore_globals-state :
      behind_globals.state ≡ record w.state { environ = behind_globals.state.environ }
  unfolding restore_globals
  restore_globals-state = elim (Option-cases iso.globals_before) [
    | inl n ↦ rw (n, restore_globals) refl
    | inr (g, s) ↦ elim (Option-cases w.space) [
      | inl n ↦ rw (s, restore_globals, n) refl
      | inr (sp, q) ↦ rw (s, restore_globals, q) refl
    ]
  ]

  restore_loaded-some :
      (ms : Modules) (v : Process H)
      → iso.modules_before ≡ some ms
      → restore_loaded py depth values is_dir iso v
        ≡ record v { modules = restore_modules ms v.modules }
  unfolding restore_loaded
  restore_loaded-some ms v h = rw (h, restore_loaded) refl

  restore_interpreter-some :
      (fp : Fingerprint) (v : Process H)
      → iso.state_before ≡ some fp
      → restore_interpreter py depth values is_dir iso v
        ≡ record v { state = restore_state is_dir fp v.state }
  unfolding restore_interpreter
  restore_interpreter-some fp v h = rw (h, restore_interpreter) refl

  restore_containers-rest :
      (v : Process H)
      → ((restore_containers py depth values is_dir iso v).1.modules ≡ v.modules)
        × ((restore_containers py depth values is_dir iso v).1.state ≡ v.state)
  unfolding restore_containers
  restore_containers-rest v = elim (Option-cases iso.registries_before) [
    | inl n ↦ rw (n, restore_containers) (refl, refl)
    | inr (taken, s) ↦ rw (s, restore_containers) (refl, refl)
  ]

  -- Every watched container is clean.
  abbrev AreClean : List Saved → Process H → Type 0
  AreClean watched v =
      All (λ s. HoldsNothingNew values iso.test_module (v.store s.address) s.copy) watched

  All-holding :
      (watched : List Saved) (store : Store)
      → All (IsClean values iso.test_module store) watched
      → All (λ s. HoldsNothingNew values iso.test_module (store s.address) s.copy) watched
  All-holding [] store h = tt
  All-holding (s ∷ watched) store h = (
    has_added-HoldsNothingNew values iso.test_module (store s.address) s.copy h.0,
    All-holding watched store h.1,
  )

  restore_containers-AreClean :
      (watched : List Saved) (v : Process H)
      → iso.registries_before ≡ some watched
      → ((c d : Container) → values.balks c d ≡ false)
      → (restore_containers py depth values is_dir iso v).0 ≡ true
      → AreClean watched (restore_containers py depth values is_dir iso v).1
  unfolding restore_containers with_found
  restore_containers-AreClean watched v h calm =
      let found = (registry_targets v.cache iso.module_key iso.roots v.namespaces v.modules).0 in
      rw (h, restore_containers)
        (λ ended. All-holding watched _ (
          All-left _ watched _ (
            restore_registries-IsClean values iso.test_module
              (with_found watched (saved_of v.store found)) v.store calm ended)))

  restore-ended :
      (restore py depth values is_dir iso w).0 ≡ true
      → (behind_containers.0 ≡ true)
        × ((restore py depth values is_dir iso w).1
            ≡ restore_interpreter py depth values is_dir iso behind_containers.1)
  unfolding restore
  restore-ended h = elim (Bool-cases behind_containers.0) [
    | inl e ↦ (e, rw e refl)
    | inr e ↦ absurd (ground (arith, e, h))
  ]

  -- When a worker leaves a module of which a full isolation was taken, then whatever its tests did, if
  -- no comparison of a container raises out of the restore and none can fail to be looked through: no
  -- module of the snapshot is swapped for another; a watched container holds nothing that test code
  -- owns and the snapshot does not hold; and the interpreter's state is that of the entry but for the
  -- environment and the threads, where filters were only put before those of the entry, no handler was
  -- removed and its directory is one.
  pub restore-Reverted :
      (ms : Modules) (watched : List Saved) (s : State) (new : List ℕ) (d : Str)
      → iso.modules_before ≡ some ms
      → iso.registries_before ≡ some watched
      → iso.state_before ≡ some (state_fingerprint s)
      → Distinct ms
      → w.state.filters ≡ new ++ s.filters
      → all (λ i. index_in i w.state.handlers) s.handlers ≡ true
      → s.cwd ≡ some d
      → is_dir d ≡ true
      → ((a b : Container) → values.balks a b ≡ false)
      → (restore py depth values is_dir iso w).0 ≡ true
      → (swapped_names ms (restore py depth values is_dir iso w).1.modules ≡ [])
        × All
            (λ c.
              HoldsNothingNew values iso.test_module
                ((restore py depth values is_dir iso w).1.store c.address)
                c.copy)
            watched
        × ((restore py depth values is_dir iso w).1.state
            ≡ record s { environ = behind_globals.state.environ; threads = w.state.threads })
  restore-Reverted ms watched s new d em er es dm hf hh hc hd calm ended =
      let (done, whole) = restore-ended ended in
      let last = whole ∙ restore_interpreter-some (state_fingerprint s) behind_containers.1 es in
      let rest = restore_containers-rest behind_loaded in
      let loaded = restore_loaded-some ms behind_globals em in
      let state : behind_containers.1.state
          ≡ record w.state { environ = behind_globals.state.environ } =
        rest.1 ∙ ap (λ (v : Process H). v.state) loaded ∙ restore_globals-state in
      (
        ap (λ (v : Process H). swapped_names ms v.modules) last
            ∙ ap (swapped_names ms) (rest.0 ∙ ap (λ (v : Process H). v.modules) loaded)
            ∙ swapped_names-restore_modules ms behind_globals.modules dm,
        subst (AreClean watched) (sym last)
            (restore_containers-AreClean watched behind_loaded er calm done),
        ap (λ (v : Process H). v.state) last
            ∙ ap (restore_state is_dir (state_fingerprint s)) state
            ∙ restore_state-before is_dir s
                (record w.state { environ = behind_globals.state.environ }) new d hf hh hc hd,
      )
