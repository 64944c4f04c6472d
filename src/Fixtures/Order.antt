-- ===== src/Fixtures/Order.antt =====
-- The order of the closure of fixtures.py: dependencies before dependents, nothing twice, nothing
-- that is not needed.
use tiderace.Base.{
  All, Bool-cases, Elem, List, Option, Option-cases, Str, [], append-nil, append_assoc, arith,
  false, inl, inr, map, none, refl, some, subst, sym, true, ℕ, ℤ, ◌++◌, ◌<◌, ◌||◌, ◌∙◌, ◌∷◌, ◌≡◌,
  ◌≤◌,
}
use tiderace.Fixtures.Defs.{FixtureDef, Registry, deps}
use tiderace.Fixtures.Lookup.{all_defs, resolve}
use tiderace.Fixtures.Closing.{Key, Progress, ceiling, finish, key_eq, key_in, key_of, visit_deps}
use tiderace.Fixtures.Steps.{visit_deps-cons, visit_deps-none}
use tiderace.Fixtures.Total.{key_eq_iff}

-- What a name resolves to, if to anything, is among these definitions.
abbrev pub IsSetUp : Option FixtureDef → List FixtureDef → Type 0
IsSetUp none ds = Unit
IsSetUp (some e) ds = key_in (key_of e) (map key_of ds) ≡ true

pub IsSetUp-intro :
    (o : Option FixtureDef) (ds : List FixtureDef)
    → ((e : FixtureDef) → o ≡ some e → key_in (key_of e) (map key_of ds) ≡ true)
    → IsSetUp o ds
IsSetUp-intro none ds h = tt
IsSetUp-intro (some e) ds h = h e refl

-- The definition is among these, by name and location.
abbrev pub Has : FixtureDef → List FixtureDef → Type 0
Has d ds = key_in (key_of d) (map key_of ds) ≡ true

key_in-append :
    (k : Key) (xs : List FixtureDef) (d : FixtureDef)
    → key_in k (map key_of (xs ++ d ∷ [])) ≡ (key_in k (map key_of xs) || key_eq k (key_of d))
unfolding key_in
key_in-append k [] d = ground arith
key_in-append k (x ∷ xs) d = ground (arith, key_in-append k xs d)

module _ (reg : Registry) (module_key : Str) (classes : List Str) where
  -- What `d` is given for its dependency `dep`.
  abbrev pub provider : FixtureDef → Str → Option FixtureDef
  provider d dep = resolve reg dep module_key classes (ceiling reg module_key classes d dep)

  -- Every dependency of `d` that resolves is among the definitions set up before it.
  abbrev pub IsReady : FixtureDef → List FixtureDef → Type 0
  IsReady d before = All (λ dep. IsSetUp (provider d dep) before) (deps d)

  -- Each of `ds` is new and ready when its turn comes after `before`.
  abbrev pub IsSetUpOrder : List FixtureDef → List FixtureDef → Type 0
  IsSetUpOrder before [] = Unit
  IsSetUpOrder before (d ∷ ds) =
      (key_in (key_of d) (map key_of before) ≡ false)
      × IsReady d before
      × IsSetUpOrder (before ++ d ∷ []) ds

  -- No definition depends on itself through others: a level falls along every dependency.
  abbrev pub IsAcyclic : (Key → ℕ) → Type 0
  IsAcyclic level =
      (d : FixtureDef) (dep : Str) (e : FixtureDef)
      → Elem d (all_defs reg.by_name)
      → Elem dep (deps d)
      → provider d dep ≡ some e
      → level (key_of e) < level (key_of d)

  IsSetUpOrder-snoc :
      (before ds : List FixtureDef) (d : FixtureDef)
      → IsSetUpOrder before ds
      → key_in (key_of d) (map key_of (before ++ ds)) ≡ false
      → IsReady d (before ++ ds)
      → IsSetUpOrder before (ds ++ d ∷ [])
  IsSetUpOrder-snoc before [] d h new ready =
      (rw append-nil at new, subst (IsReady d) (append-nil before) ready, tt)
  IsSetUpOrder-snoc before (x ∷ ds) d h new ready = (
    h.0,
    h.1,
    IsSetUpOrder-snoc (before ++ x ∷ []) ds d h.2
        (subst (λ l. key_in (key_of d) (map key_of l) ≡ false)
          (sym (append_assoc before (x ∷ []) ds)) new)
        (subst (IsReady d) (sym (append_assoc before (x ∷ []) ds)) ready),
  )

  -- The invariant between visits: `seen` is the keys of `ordered`, which is a set-up order.
  pub record IsSound (st : Progress) : Type 0 where
    pub same : (k : Key) → key_in k st.seen ≡ key_in k (map key_of st.ordered)
    pub order : IsSetUpOrder [] st.ordered

  -- Later progress keeps what has been set up.
  abbrev pub Keeps : Progress → Progress → Type 0
  Keeps st st' = (d : FixtureDef) → Has d st.ordered → Has d st'.ordered

  pub finish-IsSound :
      (d : FixtureDef) (st : Progress)
      → IsSound st
      → IsReady d st.ordered
      → IsSound (finish d st) × Keeps st (finish d st) × Has d (finish d st).ordered
  unfolding finish
  finish-IsSound d st sound ready = elim (Bool-cases (key_in (key_of d) st.seen)) [
    | inl old ↦ rw old (
      record { same = sound.same; order = sound.order },
      (λ e h. h),
      sym (sound.same (key_of d)) ∙ old,
    )
    | inr new ↦ rw new (
      record {
        same = λ k. unfold key_in in ground (arith, sound.same k, key_in-append k st.ordered d);
        order =
            IsSetUpOrder-snoc [] st.ordered d sound.order (sym (sound.same (key_of d)) ∙ new) ready;
      },
      (λ e h. ground (arith, key_in-append (key_of e) st.ordered d)),
      ground (arith, key_in-append (key_of d) st.ordered d, key_eq_iff (key_of d) (key_of d)),
    )
  ]

  module _ (level : Key → ℕ) (acyclic : IsAcyclic level) where
    -- Whatever is being visited stands above the definition that `name` resolves to.
    abbrev pub Under : Str → Option ℤ → Progress → Type 0
    Under name below st =
        (e : FixtureDef) (k : Key)
        → resolve reg name module_key classes below ≡ some e
        → key_in k st.visiting ≡ true
        → level (key_of e) < level k

    abbrev pub Good : Progress → Progress → Type 0
    Good st st' = IsSound st' × Keeps st st' × (st'.visiting ≡ st.visiting)

    abbrev pub GoodCall : (Str → Option ℤ → Progress → Option Progress) → Type 0
    GoodCall call =
        (name : Str) (below : Option ℤ) (st st' : Progress)
        → IsSound st
        → Under name below st
        → call name below st ≡ some st'
        → Good st st'
          × ((e : FixtureDef)
              → resolve reg name module_key classes below ≡ some e
              → Has e st'.ordered)

    module _ (call : Str → Option ℤ → Progress → Option Progress) (good : GoodCall call)
        (d : FixtureDef) (member : Elem d (all_defs reg.by_name)) where
      pub visit_deps-Good :
          (names : List Str) (st st' : Progress)
          → ((dep : Str) → Elem dep names → Elem dep (deps d))
          → IsSound st
          → ((k : Key) → key_in k st.visiting ≡ true → level (key_of d) ≤ level k)
          → visit_deps reg module_key classes call d names st ≡ some st'
          → Good st st'
            × ((dep : Str) (e : FixtureDef)
                → Elem dep names
                → provider d dep ≡ some e
                → Has e st'.ordered)
      visit_deps-Good [] st st' own sound above h =
          let same : st ≡ st' = unfold visit_deps in cc in
          subst
            (λ t.
              Good st t
              × ((dep : Str) (e : FixtureDef) → ⊥ → provider d dep ≡ some e → Has e t.ordered))
            same ((sound, (λ e p. p), refl), (λ dep e n. absurd n))
      visit_deps-Good (dep ∷ names) st st' own sound above h =
          elim (Option-cases (call dep (ceiling reg module_key classes d dep) st)) [
            | inl e ↦ absurd (cc (visit_deps-none reg module_key classes call d dep names st e))
            | inr (t, e) ↦
                let ((sound', kept, same), found) =
                  good dep (ceiling reg module_key classes d dep) st t sound
                    (λ x k p q.
                      let a = acyclic d dep x member (own dep (inl refl)) p in
                      let b = above k q in omega arith)
                    e in
                let ((sound'', kept', same'), found') =
                  visit_deps-Good names t st' (λ y m. own y (inr m)) sound'
                    (λ k q. above k (rw same at q))
                    (sym (visit_deps-cons reg module_key classes call d dep names st t e) ∙ h) in
                (
                  (sound'', (λ x p. kept' x (kept x p)), same' ∙ same),
                  (λ y x m p. elim m [
                    | inl i ↦ kept' x (found x (rw i at p))
                    | inr j ↦ found' y x j p
                  ]),
                )
          ]
