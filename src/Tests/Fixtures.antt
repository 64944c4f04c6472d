-- ===== src/Tests/Fixtures.antt =====
-- fixtures.py at a registry in which a module overrides the root's `app` and builds on it.
use tiderace.Base.{
  All, All-Elem, Option, Str, [], arith, codes, dirname, ends_with, false, insert, lookup, none,
  partition, pos, refl, some, split, starts_with, str_eq, subst, ℕ, ◌<◌, ◌∷◌, ◌≡◌,
}
use tiderace.Fixtures.{
  FixtureDef, Key, Progress, Registry, add, all_defs, autouse_for, ceiling, closure, deps, elem,
  empty_registry, enough, finish, is_ancestor_dir, key_eq, key_in, key_of, location_depth, nearest,
  push, resolve, roots, sort_by_rank, specificity, visible, visible_among, visible_here, visit,
  visit_all, visit_deps, with_spec,
}
use tiderace.Fixtures.Order.{IsAcyclic, IsSetUp, IsSetUpOrder, provider}
use tiderace.Fixtures.Nearest.{Nearest, resolve-Nearest}
use tiderace.Fixtures.Total.{closure_total}
use tiderace.Fixtures.Closure.{closure-IsSetUpOrder}

abbrev app_name : Str
app_name = codes "app"

abbrev here : Str
here = codes "t/m.py"

abbrev root_app : FixtureDef
root_app = record {
  object_id = 1;
  name = app_name;
  scope = codes "session";
  autouse = false;
  location = [];
  bindings = [];
  provides_type = none;
}

abbrev module_app : FixtureDef
module_app = record {
  object_id = 2;
  name = app_name;
  scope = codes "function";
  autouse = false;
  location = here;
  bindings = (app_name, app_name) ∷ [];
  provides_type = none;
}

abbrev two_apps : Registry
two_apps = record { by_name = (app_name, root_app ∷ module_app ∷ []) ∷ []; by_type = [] }

two_apps-add : add (add empty_registry root_app) module_app ≡ two_apps
unfolding add push insert lookup str_eq
two_apps-add = refl

abbrev app_level : Key → ℕ
app_level (name, []) = 0
app_level (name, _ ∷ _) = 1

abbrev IsBelow : ℕ → Option FixtureDef → Type 0
IsBelow n none = Unit
IsBelow n (some e) = app_level (key_of e) < n

two_apps-IsBelow :
    All
      (λ (d : FixtureDef).
        All (λ dep. IsBelow (app_level (key_of d)) (provider two_apps here [] d dep)) (deps d))
      (all_defs two_apps.by_name)
unfolding all_defs deps resolve ceiling specificity visible visible_among visible_here with_spec
    nearest lookup str_eq partition ends_with starts_with elem is_ancestor_dir location_depth split
    dirname
two_apps-IsBelow = (tt, ((omega arith, tt), tt))

app_level-IsAcyclic : IsAcyclic two_apps here [] app_level
app_level-IsAcyclic d dep e m n p = subst (IsBelow (app_level (key_of d))) p (
    All-Elem (λ dep. IsBelow (app_level (key_of d)) (provider two_apps here [] d dep)) (deps d) dep
      (All-Elem
        (λ (d : FixtureDef).
          All (λ dep. IsBelow (app_level (key_of d)) (provider two_apps here [] d dep)) (deps d))
        (all_defs two_apps.by_name) d two_apps-IsBelow m)
      n)

closure-IsSetUpOrder_example :
    (st : Progress) × (closure two_apps here [] ((app_name, app_name) ∷ []) [] ≡ some st)
    × IsSetUpOrder two_apps here [] [] st.ordered
    × All
        (λ name. IsSetUp (resolve two_apps name here [] none) st.ordered)
        (roots two_apps here [] [] ((app_name, app_name) ∷ []))
closure-IsSetUpOrder_example =
    closure-IsSetUpOrder two_apps here [] app_level app_level-IsAcyclic ((app_name, app_name) ∷ [])
      []

closure_total_example :
    (st : Progress) × (closure two_apps here [] ((app_name, app_name) ∷ []) [] ≡ some st)
    × (st.visiting ≡ [])
closure_total_example = closure_total two_apps here [] ((app_name, app_name) ∷ []) []

resolve-Nearest_example :
    Nearest
      (some (pos 10000))
      (visible two_apps app_name here [])
      (resolve two_apps app_name here [] (some (pos 10000)))
resolve-Nearest_example = resolve-Nearest two_apps app_name here [] (some (pos 10000))

-- Under the ceiling of its own definition, the override resolves to what it overrides.
resolve_below : resolve two_apps app_name here [] (some (pos 10000)) ≡ some root_app
unfolding resolve visible visible_among visible_here with_spec nearest lookup str_eq partition
    ends_with starts_with is_ancestor_dir location_depth dirname
resolve_below = refl

closure_order :
    closure two_apps here [] ((app_name, app_name) ∷ []) []
    ≡ some (record {
      seen = key_of module_app ∷ key_of root_app ∷ [];
      visiting = [];
      ordered = root_app ∷ module_app ∷ [];
    })
unfolding closure enough roots visit_all visit visit_deps finish key_in key_eq all_defs deps resolve
    ceiling specificity autouse_for sort_by_rank visible visible_among visible_here with_spec
    nearest lookup str_eq partition ends_with starts_with elem is_ancestor_dir location_depth split
    dirname
closure_order = refl
