-- ===== src/Fixtures/Steps.antt =====
-- One visit of `_closure` of fixtures.py, by how it goes.
use tiderace.Base.{
  List, Option, Str, [], arith, false, none, refl, some, suc, true, ℕ, ℤ, ◌||◌, ◌∷◌, ◌≡◌,
}
use tiderace.Fixtures.Defs.{FixtureDef, Registry, deps}
use tiderace.Fixtures.Lookup.{resolve}
use tiderace.Fixtures.Closing.{
  Progress, ceiling, finish_all, key_in, key_of, visit, visit_all, visit_deps,
}

module _ (reg : Registry) (module_key : Str) (classes : List Str) where
  module _ (fuel : ℕ) (name : Str) (below : Option ℤ) (st : Progress) where
    pub visit-none :
        resolve reg name module_key classes below ≡ none
        → visit reg module_key classes (suc fuel) name below st ≡ some st
    unfolding visit
    visit-none e = ground arith

    pub visit-known :
        (d : FixtureDef)
        → resolve reg name module_key classes below ≡ some d
        → (key_in (key_of d) st.seen || key_in (key_of d) st.visiting) ≡ true
        → visit reg module_key classes (suc fuel) name below st ≡ some st
    unfolding visit
    visit-known d e known = ground arith

    pub visit-new :
        (d : FixtureDef)
        → resolve reg name module_key classes below ≡ some d
        → (key_in (key_of d) st.seen || key_in (key_of d) st.visiting) ≡ false
        → visit reg module_key classes (suc fuel) name below st
          ≡ finish_all reg module_key classes d (
              visit_deps reg module_key classes
                (visit reg module_key classes fuel)
                d
                (deps d)
                (record st { visiting = key_of d ∷ st.visiting }))
    unfolding visit
    visit-new d e new = ground arith

  pub visit_deps-cons :
      (call : Str → Option ℤ → Progress → Option Progress) (d : FixtureDef) (dep : Str)
      (more : List Str) (st st' : Progress)
      → call dep (ceiling reg module_key classes d dep) st ≡ some st'
      → visit_deps reg module_key classes call d (dep ∷ more) st
        ≡ visit_deps reg module_key classes call d more st'
  unfolding visit_deps
  visit_deps-cons call d dep more st st' e = ground arith

  pub visit_deps-none :
      (call : Str → Option ℤ → Progress → Option Progress) (d : FixtureDef) (dep : Str)
      (more : List Str) (st : Progress)
      → call dep (ceiling reg module_key classes d dep) st ≡ none
      → visit_deps reg module_key classes call d (dep ∷ more) st ≡ none
  unfolding visit_deps
  visit_deps-none call d dep more st e = ground arith

  pub visit_all-cons :
      (fuel : ℕ) (name : Str) (names : List Str) (st st' : Progress)
      → visit reg module_key classes fuel name none st ≡ some st'
      → visit_all reg module_key classes fuel (name ∷ names) st
        ≡ visit_all reg module_key classes fuel names st'
  unfolding visit_all
  visit_all-cons fuel name names st st' e = rw (e, visit_all) refl

  pub visit_all-none :
      (fuel : ℕ) (name : Str) (names : List Str) (st : Progress)
      → visit reg module_key classes fuel name none st ≡ none
      → visit_all reg module_key classes fuel (name ∷ names) st ≡ none
  unfolding visit_all
  visit_all-none fuel name names st e = rw (e, visit_all) refl

  pub visit_all-nil :
      (fuel : ℕ) (st : Progress) → visit_all reg module_key classes fuel [] st ≡ some st
  unfolding visit_all
  visit_all-nil fuel st = refl
