-- ===== src/Fixtures/Total.antt =====
-- The visits of `_closure` of fixtures.py end: the fuel that `closure` gives is never used up.
use tiderace.Base.{
  Bool-cases, List, Option, Option-cases, Str, [], ap, arith, false, if◌then◌else◌, inl, inr, keep,
  length, length-map, map, none, not, refl, some, str_eq_iff, suc, true, zero, ℕ, ℤ, ◌<◌, ◌||◌, ◌↔◌,
  ◌∙◌, ◌∷◌, ◌≡◌, ◌≤◌,
}
use tiderace.Fixtures.Defs.{FixtureDef, Registry, deps}
use tiderace.Fixtures.Lookup.{all_defs, resolve}
use tiderace.Fixtures.Members.{key_in-map, resolve-Elem}
use tiderace.Fixtures.Steps.{visit-known, visit-new, visit-none, visit_all-cons, visit_deps-cons}
use tiderace.Fixtures.Closing.{
  Key, Progress, ceiling, closure, enough, finish, finish_all, key_eq, key_in, key_of, roots, start,
  visit, visit_all, visit_deps,
}

pub key_eq_iff : (j k : Key) → (key_eq j k ≡ true) ↔ (j ≡ k)
unfolding key_eq
key_eq_iff j k = ground (arith, str_eq_iff j.0 k.0, str_eq_iff j.1 k.1)

-- How many of the keys are not being visited.
free : List Key → List Key → ℕ
free visiting [] = 0
free visiting (k ∷ ks) = let rest = free visiting ks in if key_in k visiting then rest else suc rest

free-le : (k : Key) (visiting ks : List Key) → free (k ∷ visiting) ks ≤ free visiting ks
unfolding free key_in
free-le k visiting [] = omega arith
free-le k visiting (j ∷ ks) = ground (arith, free-le k visiting ks)

free-lt :
    (k : Key) (visiting ks : List Key)
    → key_in k ks ≡ true
    → key_in k visiting ≡ false
    → free (k ∷ visiting) ks < free visiting ks
unfolding free key_in
free-lt k visiting [] h n = cc
free-lt k visiting (j ∷ ks) h n =
    ground (arith, free-le k visiting ks, free-lt k visiting ks, key_eq_iff k j, key_eq_iff j k)

free-length : (ks : List Key) → free [] ks ≡ length ks
unfolding free key_in
free-length [] = refl
free-length (k ∷ ks) = ap suc (free-length ks)

-- `visiting.discard(key)` undoes `visiting.add(key)` of a key that was not there.
discard_absent :
    (k : Key) (ks : List Key) → key_in k ks ≡ false → keep (λ j. not (key_eq j k)) ks ≡ ks
unfolding key_in
discard_absent k [] n = refl
discard_absent k (j ∷ ks) n = ground (arith, discard_absent k ks, key_eq_iff k j, key_eq_iff j k)

pub visiting-finish :
    (d : FixtureDef) (st : Progress) (ks : List Key)
    → st.visiting ≡ key_of d ∷ ks
    → key_in (key_of d) ks ≡ false
    → (finish d st).visiting ≡ ks
unfolding finish
visiting-finish d st ks e n =
    ground (arith, discard_absent (key_of d) ks, key_eq_iff (key_of d) (key_of d))

module _ (reg : Registry) (module_key : Str) (classes : List Str) where
  -- A call that ends, and leaves the set of keys being visited as it was.
  abbrev Ends : Option Progress → Progress → Type 0
  Ends r st = (st' : Progress) × (r ≡ some st') × (st'.visiting ≡ st.visiting)

  abbrev all_keys : List Key
  all_keys = map key_of (all_defs reg.by_name)

  abbrev EndsBelow : ℕ → (Str → Option ℤ → Progress → Option Progress) → Type 0
  EndsBelow fuel call =
      (name : Str) (below : Option ℤ) (st : Progress)
      → free st.visiting all_keys < fuel
      → Ends (call name below st) st

  visit_deps-Ends :
      (fuel : ℕ) (call : Str → Option ℤ → Progress → Option Progress)
      → EndsBelow fuel call
      → (d : FixtureDef) (names : List Str) (st : Progress) → free st.visiting all_keys < fuel
      → Ends (visit_deps reg module_key classes call d names st) st
  visit_deps-Ends fuel call ends d [] st h = (st, unfold visit_deps in refl, refl)
  visit_deps-Ends fuel call ends d (name ∷ names) st h =
      let (st', e, same) = ends name (ceiling reg module_key classes d name) st h in
      let (st'', e', same') = visit_deps-Ends fuel call ends d names st' (rw same h) in
      (st'', visit_deps-cons reg module_key classes call d name names st st' e ∙ e', same' ∙ same)

  -- A visit to a definition that is neither seen nor being visited.
  visit_new-Ends :
      (fuel : ℕ)
      → EndsBelow fuel (visit reg module_key classes fuel)
      → (name : Str) (below : Option ℤ) (st : Progress) (d : FixtureDef)
      → free st.visiting all_keys < suc fuel
      → resolve reg name module_key classes below ≡ some d
      → (key_in (key_of d) st.seen || key_in (key_of d) st.visiting) ≡ false
      → Ends (visit reg module_key classes (suc fuel) name below st) st
  visit_new-Ends fuel ends name below st d h e new =
      let absent : key_in (key_of d) st.visiting ≡ false = ground arith in
      let there =
        key_in-map d (all_defs reg.by_name) (resolve-Elem reg name module_key classes below d e) in
      let lower = free-lt (key_of d) st.visiting all_keys there absent in
      let (st', e', same) =
        visit_deps-Ends fuel (visit reg module_key classes fuel) ends d (deps d)
          (record st { visiting = key_of d ∷ st.visiting }) (omega arith) in
      (
        finish d st',
        visit-new reg module_key classes fuel name below st d e new
            ∙ ap (finish_all reg module_key classes d) e',
        visiting-finish d st' st.visiting same absent,
      )

  -- Enough fuel is more than there are keys of the registry that are not being visited.
  visit-Ends : (fuel : ℕ) → EndsBelow fuel (visit reg module_key classes fuel)
  visit-Ends zero name below st h = elim h [ ]
  visit-Ends (suc fuel) name below st h =
      elim (Option-cases (resolve reg name module_key classes below)) [
        | inl e ↦ (st, visit-none reg module_key classes fuel name below st e, refl)
        | inr (d, e) ↦
            elim (Bool-cases (key_in (key_of d) st.seen || key_in (key_of d) st.visiting)) [
              | inl known ↦
                  (st, visit-known reg module_key classes fuel name below st d e known, refl)
              | inr new ↦ visit_new-Ends fuel (visit-Ends fuel) name below st d h e new
            ]
      ]

  visit_all-Ends :
      (fuel : ℕ) (names : List Str) (st : Progress)
      → free st.visiting all_keys < fuel
      → Ends (visit_all reg module_key classes fuel names st) st
  visit_all-Ends fuel [] st h = (st, unfold visit_all in refl, refl)
  visit_all-Ends fuel (name ∷ names) st h =
      let (st', e, same) = visit-Ends fuel name none st h in
      let (st'', e', same') = visit_all-Ends fuel names st' (rw same h) in
      (st'', visit_all-cons reg module_key classes fuel name names st st' e ∙ e', same' ∙ same)

  -- The closure of a test is always found, whatever the registry holds, cycles included, and no key
  -- is left marked as being visited.
  pub closure_total :
      (requested : List (Str × Str)) (extra : List Str)
      → (st : Progress) × (closure reg module_key classes requested extra ≡ some st)
        × (st.visiting ≡ [])
  unfolding closure
  closure_total requested extra =
      visit_all-Ends (enough reg module_key classes) (roots reg module_key classes extra requested)
        start (omega (arith, free-length all_keys, length-map (all_defs reg.by_name) key_of))
