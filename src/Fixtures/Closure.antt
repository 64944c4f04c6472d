-- ===== src/Fixtures/Closure.antt =====
-- The closure of a test, for a registry whose definitions do not depend on themselves.
use tiderace.Base.{
  All, All-intro, Bool-cases, Elem, List, Option, Option-cases, Str, [], ap, arith, false, inl, inr,
  none, of_some, refl, some, subst, suc, sym, true, zero, ℕ, ℤ, ◌||◌, ◌∙◌, ◌∷◌, ◌≡◌, ◌≤◌,
}
use tiderace.Fixtures.Defs.{FixtureDef, Registry, deps}
use tiderace.Fixtures.Lookup.{resolve}
use tiderace.Fixtures.Closing.{
  Key, Progress, closure, enough, finish, finish_all, key_eq, key_in, key_of, roots, start, visit,
  visit_all, visit_deps,
}
use tiderace.Fixtures.Members.{resolve-Elem}
use tiderace.Fixtures.Steps.{
  visit-known, visit-new, visit-none, visit_all-cons, visit_all-nil, visit_all-none,
}
use tiderace.Fixtures.Order.{
  Good, GoodCall, Has, IsAcyclic, IsReady, IsSetUp, IsSetUp-intro, IsSetUpOrder, IsSound, Keeps,
  Under, finish-IsSound, provider, visit_deps-Good,
}
use tiderace.Fixtures.Total.{closure_total, key_eq_iff, visiting-finish}

module _ (reg : Registry) (module_key : Str) (classes : List Str) (level : Key → ℕ)
    (acyclic : IsAcyclic reg module_key classes level) where
  -- What a call promises, from `st` to `st'`.
  abbrev Served : Str → Option ℤ → Progress → Progress → Type 0
  Served name below st st' =
      Good reg module_key classes level acyclic st st'
      × ((e : FixtureDef) → resolve reg name module_key classes below ≡ some e → Has e st'.ordered)

  Served-same :
      (name : Str) (below : Option ℤ) (st st' : Progress)
      → IsSound reg module_key classes st
      → some st ≡ some st'
      → ((e : FixtureDef) → resolve reg name module_key classes below ≡ some e → Has e st.ordered)
      → Served name below st st'
  Served-same name below st st' sound same found =
      subst (Served name below st) (of_some same) ((sound, (λ e p. p), refl), found)

  Served-finish :
      (name : Str) (below : Option ℤ) (st st' : Progress) (d : FixtureDef) (r : Option Progress)
      → resolve reg name module_key classes below ≡ some d
      → key_in (key_of d) st.visiting ≡ false
      → ((t : Progress)
          → r ≡ some t
          → Good reg module_key classes level acyclic
              (record st { visiting = key_of d ∷ st.visiting })
              t
            × IsReady reg module_key classes d t.ordered)
      → finish_all reg module_key classes d r ≡ some st'
      → Served name below st st'
  Served-finish name below st st' d none e new use_deps h = absurd (cc)
  Served-finish name below st st' d (some t) e new use_deps h =
      let ((sound, kept, same), ready) = use_deps t refl in
      let (sound', kept', has) = finish-IsSound reg module_key classes d t sound ready in
      subst (Served name below st) (of_some h) (
        (sound', (λ x p. kept' x (kept x p)), visiting-finish d t st.visiting same new),
        (λ x p.
            let same_def : d ≡ x = of_some (sym e ∙ p) in
            subst (λ y. Has y (finish d t).ordered) same_def has),
      )

  known-Has :
      (name : Str) (below : Option ℤ) (st : Progress)
      → IsSound reg module_key classes st
      → Under reg module_key classes level acyclic name below st
      → (d x : FixtureDef) → resolve reg name module_key classes below ≡ some d
      → resolve reg name module_key classes below ≡ some x
      → (key_in (key_of d) st.seen || key_in (key_of d) st.visiting) ≡ true
      → Has x st.ordered
  known-Has name below st sound under d x e p known =
      subst (λ y. Has y st.ordered) (of_some (sym e ∙ p))
        (elim (Bool-cases (key_in (key_of d) st.seen)) [
          | inl old ↦ sym (sound.same (key_of d)) ∙ old
          | inr new ↦ absurd (let lower = under d (key_of d) e (ground arith) in omega arith)
        ])

  at_least :
      (name : Str) (below : Option ℤ) (st : Progress)
      → Under reg module_key classes level acyclic name below st
      → (d : FixtureDef) → resolve reg name module_key classes below ≡ some d
      → (k : Key) → key_in k (key_of d ∷ st.visiting) ≡ true
      → level (key_of d) ≤ level k
  at_least name below st under d e k m = elim (Bool-cases (key_eq k (key_of d))) [
    | inl same ↦ rw ((key_eq_iff k (key_of d)).0 same) (omega arith)
    | inr other ↦ let lower = under d k e (unfold key_in in ground arith) in omega arith
  ]

  visit-Good :
      (fuel : ℕ) → GoodCall reg module_key classes level acyclic (visit reg module_key classes fuel)
  visit-Good zero name below st st' sound under h = absurd (unfold visit in cc)
  visit-Good (suc fuel) name below st st' sound under h =
      elim (Option-cases (resolve reg name module_key classes below)) [
        | inl e ↦
            Served-same name below st st' sound
              (sym (visit-none reg module_key classes fuel name below st e) ∙ h)
              (λ x p. absurd (cc))
        | inr (d, e) ↦
            elim (Bool-cases (key_in (key_of d) st.seen || key_in (key_of d) st.visiting)) [
              | inl known ↦
                  Served-same name below st st' sound
                    (sym (visit-known reg module_key classes fuel name below st d e known) ∙ h)
                    (λ x p. known-Has name below st sound under d x e p known)
              | inr new ↦
                  Served-finish name below st st' d
                    (visit_deps reg module_key classes (visit reg module_key classes fuel) d
                      (deps d) (record st { visiting = key_of d ∷ st.visiting }))
                    e (ground arith)
                    (λ t q.
                      let (good, found) =
                        visit_deps-Good reg module_key classes level acyclic
                          (visit reg module_key classes fuel) (visit-Good fuel) d
                          (resolve-Elem reg name module_key classes below d e) (deps d)
                          (record st { visiting = key_of d ∷ st.visiting }) t (λ y m. m)
                          (record { same = sound.same; order = sound.order })
                          (λ k m. at_least name below st under d e k m) q in
                      (
                        good,
                        All-intro (λ dep. IsSetUp (provider reg module_key classes d dep) t.ordered)
                            (deps d)
                            (λ dep m.
                              IsSetUp-intro (provider reg module_key classes d dep) t.ordered
                                (λ x p. found dep x m p)),
                      ))
                    (sym (visit-new reg module_key classes fuel name below st d e new) ∙ h)
            ]
      ]

  visit_all-Good :
      (fuel : ℕ) (names : List Str) (st st' : Progress)
      → IsSound reg module_key classes st
      → st.visiting ≡ []
      → visit_all reg module_key classes fuel names st ≡ some st'
      → IsSound reg module_key classes st'
        × Keeps reg module_key classes st st'
        × ((name : Str) (e : FixtureDef)
            → Elem name names
            → resolve reg name module_key classes none ≡ some e
            → Has e st'.ordered)
  visit_all-Good fuel [] st st' sound empty h =
      subst
        (λ t.
          IsSound reg module_key classes t
          × Keeps reg module_key classes st t
          × ((name : Str) (e : FixtureDef)
              → ⊥
              → resolve reg name module_key classes none ≡ some e
              → Has e t.ordered))
        (of_some (sym (visit_all-nil reg module_key classes fuel st) ∙ h))
        (sound, (λ e p. p), (λ name e n. absurd n))
  visit_all-Good fuel (name ∷ names) st st' sound empty h =
      elim (Option-cases (visit reg module_key classes fuel name none st)) [
        | inl e ↦ absurd (cc (visit_all-none reg module_key classes fuel name names st e))
        | inr (t, e) ↦
            let ((sound', kept, same), found) =
              visit-Good fuel name none st t sound
                (λ x k p m. absurd (unfold key_in in cc (ap (key_in k) empty))) e in
            let (sound'', kept', found') =
              visit_all-Good fuel names t st' sound' (same ∙ empty)
                (sym (visit_all-cons reg module_key classes fuel name names st t e) ∙ h) in
            (
              sound'',
              (λ x p. kept' x (kept x p)),
              (λ y x m p. elim m [
                | inl i ↦ kept' x (found x (rw i at p))
                | inr j ↦ found' y x j p
              ]),
            )
      ]

  -- The closure exists; its definitions stand in an order in which each is new, and everything it
  -- depends on is set up before it; and every autouse, extra and requested name that resolves is
  -- among them.
  pub closure-IsSetUpOrder :
      (requested : List (Str × Str)) (extra : List Str)
      → (st : Progress) × (closure reg module_key classes requested extra ≡ some st)
        × IsSetUpOrder reg module_key classes [] st.ordered
        × All
            (λ name. IsSetUp (resolve reg name module_key classes none) st.ordered)
            (roots reg module_key classes extra requested)
  closure-IsSetUpOrder requested extra =
      let (st, e, _) = closure_total reg module_key classes requested extra in
      let (sound, _, found) =
        visit_all-Good (enough reg module_key classes)
          (roots reg module_key classes extra requested) start st
          (record { same = λ k. refl; order = tt }) refl (unfold closure in e) in
      let all_found : All (λ name. IsSetUp (resolve reg name module_key classes none) st.ordered)
          (roots reg module_key classes extra requested) =
        All-intro (λ name. IsSetUp (resolve reg name module_key classes none) st.ordered)
          (roots reg module_key classes extra requested)
          (λ name m.
            IsSetUp-intro (resolve reg name module_key classes none) st.ordered
              (λ x p. found name x m p)) in
      (st, e, sound.order, all_found)
