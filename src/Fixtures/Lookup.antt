-- ===== src/Fixtures/Lookup.antt =====
-- fixtures.py: `Registry.visible`, `resolve`, `specificity` and `autouse_for`.
use tiderace.Base.{
  Bool, Dict, List, Option, Str, [], dirname, ends_with, eqb, false, if◌then◌else◌, is_some, keep,
  leb_ℤ, lookup, ltb, ltb_ℤ, none, not, or_else, partition, pos, some, str_eq, true, ℤ, ◌&&◌, ◌++◌,
  ◌||◌, ◌∷◌,
}
use tiderace.Fixtures.Defs.{
  FixtureDef, Registry, colons, is_ancestor_dir, location_depth, py_suffix, rank,
}

-- `x in xs` over texts
unfoldable pub elem : Str → List Str → Bool
elem x [] = false
elem x (y ∷ ys) = str_eq x y || elem x ys

-- One step of `Registry.visible`: how specific the definition is for this module and these classes,
-- `none` where it is out of scope.
unfoldable pub visible_here : Str → List Str → FixtureDef → Option ℤ
unfolding elem
visible_here module_key classes d = elim (partition colons d.location) [
  | some (owner_module, owner_cls) ↦
      if str_eq owner_module module_key && elem owner_cls classes then some (pos 20000) else none
  | none ↦
      if ends_with d.location py_suffix
      then (if str_eq d.location module_key then some (pos 10000) else none)
      else if is_ancestor_dir d.location (dirname module_key)
      then some (location_depth d.location)
      else none
]

unfoldable pub with_spec : FixtureDef → Option ℤ → List (ℤ × FixtureDef) → List (ℤ × FixtureDef)
with_spec d none rest = rest
with_spec d (some spec) rest = (spec, d) ∷ rest

unfoldable pub visible_among : Str → List Str → List FixtureDef → List (ℤ × FixtureDef)
unfolding with_spec
visible_among module_key classes [] = []
visible_among module_key classes (d ∷ ds) =
    with_spec d (visible_here module_key classes d) (visible_among module_key classes ds)

abbrev pub named : Registry → Str → List FixtureDef
named reg name = or_else (lookup name reg.by_name) []

unfoldable pub visible : Registry → Str → Str → List Str → List (ℤ × FixtureDef)
unfolding visible_among
visible reg name module_key classes = visible_among module_key classes (named reg name)

-- `below is not None and spec >= below`
abbrev pub passed_over : Option ℤ → ℤ → Bool
passed_over none spec = false
passed_over (some b) spec = leb_ℤ b spec

abbrev pub better : Option (ℤ × FixtureDef) → ℤ → Bool
better none spec = true
better (some (best, _)) spec = ltb_ℤ best spec

-- The loop of `Registry.resolve`.
unfoldable pub nearest :
    Option ℤ → Option (ℤ × FixtureDef) → List (ℤ × FixtureDef) → Option (ℤ × FixtureDef)
nearest below best [] = best
nearest below best ((spec, d) ∷ rest) =
    nearest below
      (if not (passed_over below spec) && better best spec then some (spec, d) else best) rest

abbrev pub def_of : Option (ℤ × FixtureDef) → Option FixtureDef
def_of none = none
def_of (some (_, d)) = some d

unfoldable pub resolve : Registry → Str → Str → List Str → Option ℤ → Option FixtureDef
unfolding nearest
resolve reg name module_key classes below =
    def_of (nearest below none (visible reg name module_key classes))

find_spec : FixtureDef → List (ℤ × FixtureDef) → Option ℤ
find_spec d [] = none
find_spec d ((spec, e) ∷ rest) = if eqb e.object_id d.object_id then some spec else find_spec d rest

-- `Registry.specificity`
unfoldable pub specificity : Registry → FixtureDef → Str → List Str → Option ℤ
unfolding find_spec
specificity reg d module_key classes = find_spec d (visible reg d.name module_key classes)

-- `out.sort(key=lambda d: -d.rank)`, which is stable.
unfoldable pub insert_by_rank : FixtureDef → List FixtureDef → List FixtureDef
insert_by_rank d [] = d ∷ []
insert_by_rank d (e ∷ es) =
    let rest = insert_by_rank d es in if ltb (rank d) (rank e) then e ∷ rest else d ∷ e ∷ es

unfoldable pub sort_by_rank : List FixtureDef → List FixtureDef
unfolding insert_by_rank
sort_by_rank [] = []
sort_by_rank (d ∷ ds) = insert_by_rank d (sort_by_rank ds)

unfoldable pub all_defs : Dict (List FixtureDef) → List FixtureDef
all_defs [] = []
all_defs ((_, ds) ∷ rest) = ds ++ all_defs rest

abbrev pub is_autouse_here : Str → List Str → FixtureDef → Bool
is_autouse_here module_key classes d = d.autouse && is_some (visible_here module_key classes d)

unfoldable pub autouse_for : Registry → Str → List Str → List FixtureDef
unfolding all_defs sort_by_rank
autouse_for reg module_key classes =
    sort_by_rank (keep (is_autouse_here module_key classes) (all_defs reg.by_name))
