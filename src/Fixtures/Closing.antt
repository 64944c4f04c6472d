-- ===== src/Fixtures/Closing.antt =====
-- fixtures.py: `_closure`.
use tiderace.Base.{
  Bool, List, Option, Str, [], false, if◌then◌else◌, keep, length, map, none, not, some, str_eq,
  suc, true, zero, ℕ, ℤ, ◌&&◌, ◌++◌, ◌||◌, ◌∷◌,
}
use tiderace.Fixtures.Defs.{FixtureDef, Registry, deps}
use tiderace.Fixtures.Lookup.{all_defs, autouse_for, resolve, specificity}

-- `(d.name, d.location)`
abbrev pub Key : Type 0
Key = Str × Str

abbrev pub key_of : FixtureDef → Key
key_of d = (d.name, d.location)

unfoldable pub key_eq : Key → Key → Bool
key_eq j k = str_eq j.0 k.0 && str_eq j.1 k.1

unfoldable pub key_in : Key → List Key → Bool
unfolding key_eq
key_in k [] = false
key_in k (j ∷ js) = key_eq k j || key_in k js

-- What `visit` mutates. The sets are lists; `ordered` grows at its end.
pub record Progress : Type 0 where
  pub seen : List Key
  pub visiting : List Key
  pub ordered : List FixtureDef

abbrev pub start : Progress
start = record { seen = []; visiting = []; ordered = [] }

-- `visiting.discard(key)`, then the final append unless the key has been seen.
unfoldable pub finish : FixtureDef → Progress → Progress
unfolding key_in
finish d st =
    let visiting' = keep (λ k. not (key_eq k (key_of d))) st.visiting in
    if key_in (key_of d) st.seen
    then record st { visiting = visiting' }
    else record { seen = key_of d ∷ st.seen; visiting = visiting'; ordered = st.ordered ++ d ∷ [] }

module _ (reg : Registry) (module_key : Str) (classes : List Str) where
  -- The ceiling under which `d` looks up a dependency: a fixture that requests its own name wants
  -- the definition that it overrides.
  unfoldable pub ceiling : FixtureDef → Str → Option ℤ
  ceiling d dep = if str_eq dep d.name then specificity reg d module_key classes else none

  -- `for dep in d.deps: visit(dep, ...)`
  unfoldable pub visit_deps :
      (Str → Option ℤ → Progress → Option Progress)
      → FixtureDef
      → List Str
      → Progress
      → Option Progress
  unfolding ceiling
  visit_deps call d [] st = some st
  visit_deps call d (dep ∷ more) st = elim (call dep (ceiling d dep) st) [
    | none ↦ none
    | some st' ↦ visit_deps call d more st'
  ]

  abbrev pub finish_all : FixtureDef → Option Progress → Option Progress
  finish_all d none = none
  finish_all d (some st) = some (finish d st)

  -- `visit` on fuel, `none` where the fuel ran out.
  unfoldable pub visit : ℕ → Str → Option ℤ → Progress → Option Progress
  unfolding visit_deps
  visit zero name below st = none
  visit (suc fuel) name below st = elim (resolve reg name module_key classes below) [
    | none ↦ some st
    | some d ↦ elim (key_in (key_of d) st.seen || key_in (key_of d) st.visiting) [
      | true ↦ some st
      | false ↦
          finish_all d
            (visit_deps (visit fuel) d (deps d) (record st { visiting = key_of d ∷ st.visiting }))
    ]
  ]

  -- The calls that `_closure` makes, one for each name.
  unfoldable pub visit_all : ℕ → List Str → Progress → Option Progress
  unfolding visit
  visit_all fuel [] st = some st
  visit_all fuel (name ∷ names) st = elim (visit fuel name none st) [
    | none ↦ none
    | some st' ↦ visit_all fuel names st'
  ]

  abbrev pub name_of : FixtureDef → Str
  name_of d = d.name

  -- The autouse fixtures, then the extra providers, then the requested ones.
  unfoldable pub roots : List Str → List (Str × Str) → List Str
  roots extra requested =
      map name_of (autouse_for reg module_key classes)
      ++ extra
      ++ map (λ (b : Str × Str). b.1) requested

  -- No chain of visits is longer than there are definitions.
  unfoldable pub enough : ℕ
  enough = suc (length (all_defs reg.by_name))

  -- `_closure`
  unfoldable pub closure : List (Str × Str) → List Str → Option Progress
  unfolding visit_all roots enough
  closure requested extra = visit_all enough (roots extra requested) start
