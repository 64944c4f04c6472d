-- ===== src/Footprint/Closure.antt =====
-- footprint.py: `_import_closure`, the files that a module reaches by imports, and the conftests above it.
use mathlib.Core.Option
use tiderace.Base.{
  Bool, Dict, List, Option, Str, [], codes, dirname, false, has_name, if◌then◌else◌, insert, length,
  lookup, map, none, not, some, starts_with, str_eq, suc, true, zero, ℕ, ◌&&◌, ◌∷◌,
}
use tiderace.Footprint.Deps.{Caches, file_deps_of, Sources}
use tiderace.Footprint.Resolve.{Disk, join}

-- The body of the inner loop: what is new is seen, and pushed on the stack.
unfoldable pub offer : List Str → List Str × List Str → List Str × List Str
unfolding has_name
offer [] (queue, seen) = (queue, seen)
offer (f ∷ deps) (queue, seen) = elim (has_name f seen) [
  | true ↦ offer deps (queue, seen)
  | false ↦ offer deps (f ∷ queue, f ∷ seen)
]

-- The loop over the stack, whose top is the head, with a fuel of one unit for each file that leaves
-- it; `deps` is asked in the state that the loop threads. `none` is a loop that is out of fuel.
unfoldable pub reach_from :
    {W : Type 0} → (Str → W → List Str × W) → ℕ → List Str × List Str → W → Option (List Str) × W
unfolding offer
reach_from deps fuel ([], seen) w = (some seen, w)
reach_from deps zero (current ∷ queue, seen) w = (none, w)
reach_from deps (suc fuel) (current ∷ queue, seen) w =
    let (found, w') = deps current w in reach_from deps fuel (offer found (queue, seen)) w'

-- `if os.path.isfile(conftest): seen.add(os.path.abspath(conftest))`
unfoldable pub add_conftest : Disk → Str → List Str → List Str
unfolding join has_name
add_conftest disk directory seen =
    let conftest = join directory (codes "conftest.py") in
    if disk.is_file conftest && not (has_name (disk.abspath conftest) seen)
    then disk.abspath conftest ∷ seen
    else seen

-- The loop over the directories above the module, with a fuel of one unit for each of them.
unfoldable pub add_conftests : Disk → ℕ → Str → List Str → Option (List Str)
unfolding starts_with str_eq dirname add_conftest
add_conftests disk zero directory seen = none
add_conftests disk (suc fuel) directory seen =
    elim (starts_with directory (disk.abspath disk.root)) [
      | false ↦ some seen
      | true ↦ elim (str_eq directory (disk.abspath disk.root)) [
        | true ↦ some (add_conftest disk directory seen)
        | false ↦ add_conftests disk fuel (dirname directory) (add_conftest disk directory seen)
      ]
    ]

-- `setdefault(rel, [])` for each file of the closure
unfoldable pub add_imports : List Str → Dict (List ℕ) → Dict (List ℕ)
unfolding lookup insert
add_imports [] report = report
add_imports (rel ∷ rels) report =
    add_imports rels
      (elim (lookup rel report) [ none ↦ insert rel [] report | some lines ↦ report ])

module _ (src : Sources) (relpath : Str → Str) where
  -- `closure`, from what the stack reached: `relpath` is the path relative to the root, its separators
  -- replaced by slashes.
  unfoldable pub closed : Str → Option (List Str) → Option (List Str)
  unfolding add_conftests dirname
  closed start none = none
  closed start (some seen) =
      Option.map (map relpath) (add_conftests src.disk (suc (length start)) (dirname start) seen)

  -- `_import_closure`, with the fuel of its stack
  unfoldable pub import_closure_of : ℕ → Str → Caches → Option (List Str) × Caches
  unfolding lookup insert join reach_from file_deps_of closed
  import_closure_of fuel module_key c = elim (lookup module_key c.import_closure) [
    | some closure ↦ (some closure, c)
    | none ↦
        (let start = join (src.disk.abspath src.disk.root) module_key in
          let (seen, c') = reach_from (file_deps_of src) fuel (start ∷ [], []) c in
          (
            closed start seen,
            elim (closed start seen) [
              | none ↦ c'
              | some closure ↦ record c' {
                import_closure = insert module_key closure c'.import_closure;
              }
            ],
          ))
  ]

  -- `report_with_imports`, over the runtime footprint `_report()`
  unfoldable pub report_with_imports :
      ℕ → Bool → Str → Dict (List ℕ) → Caches → Option (Dict (List ℕ)) × Caches
  unfolding import_closure_of add_imports
  report_with_imports fuel enabled module_key report c = elim enabled [
    | false ↦ (some report, c)
    | true ↦
        (let (closure, c') = import_closure_of fuel module_key c in
          (Option.map (λ rels. add_imports rels report) closure, c'))
  ]
