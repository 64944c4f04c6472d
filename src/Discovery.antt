-- ===== src/Discovery.antt =====
-- engine/py-shim/tiderace_shim/discovery.py: the marks that cover a directory, and the conftests that
-- govern a module.
pub mod Depth
pub mod Governing
use tiderace.Base.{
  Dict, List, Option, Str, [], codes, eqb, if◌then◌else◌, is_nil, leb, lookup, map, none, or_else,
  some, split, starts_with, str_eq, suc, ℕ, ◌++◌, ◌+◌, ◌/◌, ◌||◌, ◌∷◌,
}

-- `"/".join(parts[:depth])` for every depth, the deepest first, behind what comes before the parts.
unfoldable pub deep_first : Str → List Str → List Str
deep_first before [] = []
deep_first before (part ∷ parts) =
    deep_first (before ++ part ++ codes "/") parts ++ (before ++ part) ∷ []

unfoldable pub first_mark : Dict Str → List Str → Option Str
unfolding lookup
first_mark marks [] = none
first_mark marks (d ∷ ds) = elim (lookup d marks) [
  | some mark ↦ some mark
  | none ↦ first_mark marks ds
]

-- `dir_mark`; for no marks the walk finds none.
unfoldable pub dir_mark : Dict Str → Str → Option Str
unfolding lookup first_mark deep_first split
dir_mark marks rel_path = elim (lookup [] marks) [
  | some mark ↦ some mark
  | none ↦ first_mark marks (deep_first [] (split 47 rel_path))
]

-- `loc.count("/")`
unfoldable pub count_slashes : Str → ℕ
count_slashes [] = 0
count_slashes (c ∷ s) = let n = count_slashes s in if eqb c 47 then suc n else n

-- `module_key.rsplit("/", 1)[0] if "/" in module_key else ""`: `none` is a text without a slash.
unfoldable pub before_last : Str → Option Str
before_last [] = none
before_last (c ∷ s) = elim (before_last s) [
  | some t ↦ some (c ∷ t)
  | none ↦ if eqb c 47 then some [] else none
]

unfoldable pub parent_of : Str → Str
unfolding before_last
parent_of module_key = or_else (before_last module_key) []

-- `location`, with its root spelled "" and not "."
unfoldable pub governed_dir : Str → Str
unfolding str_eq
governed_dir location = if str_eq location (codes ".") then [] else location

-- One more than the depth of a conftest that governs the module, so that 0 is an ancestor's.
unfoldable pub governing_depth : Str → Str → Option ℕ
unfolding starts_with str_eq count_slashes
governing_depth module_dir loc =
    if starts_with loc (codes "..")
    then some 0
    else if is_nil loc || (str_eq module_dir loc || starts_with module_dir (loc ++ codes "/"))
    then some (if is_nil loc then 1 else count_slashes loc + 2)
    else none

module _ {M : Type 0} where
  unfoldable pub governing : Str → List (Str × M) → List (ℕ × M)
  unfolding governing_depth governed_dir
  governing module_dir [] = []
  governing module_dir ((location, conftest) ∷ scopes) =
      let rest = governing module_dir scopes in
      elim (governing_depth module_dir (governed_dir location)) [
        | none ↦ rest
        | some d ↦ (d, conftest) ∷ rest
      ]

  -- `sort(key=lambda d: -d[0])`, which keeps the order of equal depths.
  unfoldable pub insert_deep : ℕ × M → List (ℕ × M) → List (ℕ × M)
  insert_deep e [] = e ∷ []
  insert_deep e (f ∷ fs) =
      let rest = insert_deep e fs in if leb f.0 e.0 then e ∷ f ∷ fs else f ∷ rest

  unfoldable pub sort_deep : List (ℕ × M) → List (ℕ × M)
  unfolding insert_deep
  sort_deep [] = []
  sort_deep (e ∷ es) = insert_deep e (sort_deep es)

  -- `conftests_governing`, over `conftest_scopes`
  unfoldable pub conftests_governing : List (Str × M) → Str → List M
  unfolding governing sort_deep parent_of
  conftests_governing scopes module_key =
      map (λ e. e.1) (sort_deep (governing (parent_of module_key) scopes))
