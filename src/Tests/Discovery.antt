-- ===== src/Tests/Discovery.antt =====
-- discovery.py at conftests of the run root, of two directories and of an ancestor.
use tiderace.Base.{
  Elem, List, Str, [], codes, lookup, map, refl, some, split, starts_with, str_eq, ℕ, ◌↔◌, ◌∷◌, ◌≡◌,
}
use tiderace.Discovery.{
  before_last, conftests_governing, count_slashes, deep_first, dir_mark, first_mark, governed_dir,
  governing, governing_depth, insert_deep, parent_of, sort_deep,
}
use tiderace.Discovery.Governing.{Descends, Governs, conftests_governing_lem}

abbrev conftests : List (Str × ℕ)
conftests =
    (codes ".", 1) ∷ (codes "a", 2) ∷ (codes "..", 3) ∷ (codes "a/b", 4) ∷ (codes "c", 5) ∷ []

deepest_called_first : conftests_governing conftests (codes "a/b/test_x.py") ≡ 4 ∷ 2 ∷ 1 ∷ 3 ∷ []
unfolding conftests_governing governing governing_depth governed_dir insert_deep sort_deep parent_of
    before_last count_slashes str_eq starts_with
deepest_called_first = refl

mark_of_nearest_dir :
    dir_mark ((codes "a", codes "far") ∷ (codes "a/b", codes "near") ∷ []) (codes "a/b/test_x.py")
    ≡ some (codes "near")
unfolding dir_mark first_mark deep_first split lookup str_eq
mark_of_nearest_dir = refl

conftests_governing_lem_example :
    (entries : List (ℕ × ℕ)) × (conftests_governing conftests (codes "a/b/test_x.py")
      ≡ map (λ e. e.1) entries)
    × Descends entries
    × ((e : ℕ × ℕ) → Elem e entries ↔ Governs (parent_of (codes "a/b/test_x.py")) conftests e)
conftests_governing_lem_example = conftests_governing_lem conftests (codes "a/b/test_x.py")
