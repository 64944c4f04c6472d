-- ===== src/Isolation/Registries.antt =====
-- isolation.py: the watched libraries' containers, what the suite put into them, and its taking out.
use tiderace.Base.{
  Bool, Dict, List, Option, Str, [], all, any, codes, ends_with, eqb, false, if◌then◌else◌, is_nil,
  is_some, keep, length, lookup, none, not, some, starts_with, str_eq, true, ℕ, ◌&&◌, ◌||◌, ◌∷◌,
}
use tiderace.Isolation.State.{same_list, shown_names}

-- A value in a container: equal values have one tag. `origin` is its `__module__`, `type_origin` its type's.
pub record Item : Type 0 where
  pub tag : ℕ
  pub origin : Option Str
  pub type_origin : Str

pub data Container : Type 0 where
  mapping : Dict Item → Container
  sequence collection : List Item → Container

-- A snapshot of one container: its label, its identity and a shallow copy.
pub record Saved : Type 0 where
  pub label : Str
  pub address : ℕ
  pub copy : Container

abbrev pub Store : Type 0
Store = ℕ → Container

-- `os.path.basename(file)`
unfoldable pub basename : Str → Str
basename [] = []
basename (c ∷ s) = let rest = basename s in if any (λ d. eqb d 47) (c ∷ s) then rest else c ∷ s

unfoldable pub is_test_file : Str → Bool
unfolding basename str_eq starts_with ends_with
is_test_file file =
    str_eq (basename file) (codes "conftest.py")
    || starts_with (basename file) (codes "test_")
    || ends_with (basename file) (codes "_test.py")

-- `value.__module__ or type(value).__module__`
unfoldable pub origin_of : Item → Str
origin_of v = elim v.origin [
  | none ↦ v.type_origin
  | some m ↦ if is_nil m then v.type_origin else m
]

-- `container == saved`
unfoldable pub is_saved_entry : Dict Item → Str × Item → Bool
unfolding lookup
is_saved_entry saved e = elim (lookup e.0 saved) [ none ↦ false | some w ↦ eqb e.1.tag w.tag ]

unfoldable pub has_item : List Item → Item → Bool
has_item saved v = any (λ w. eqb w.tag v.tag) saved

unfoldable pub same_container : Container → Container → Bool
unfolding is_saved_entry has_item same_list
same_container (mapping d) (mapping saved) =
    eqb (length d) (length saved) && all (is_saved_entry saved) d
same_container (sequence xs) (sequence saved) = same_list (λ v w. eqb v.tag w.tag) xs saved
same_container (collection xs) (collection saved) =
    eqb (length xs) (length saved) && all (has_item saved) xs
same_container c saved = false

-- What Python says of foreign values: the `__file__` of the module that `sys.modules` holds under a
-- name; whether `container == saved` raises; and whether looking for additions to it raises.
pub record Values : Type 0 where
  pub file_of : Str → Option Str
  pub clashes : Container → Container → Bool
  pub balks : Container → Container → Bool

module _ (values : Values) (test_module : Str) where
  unfoldable pub is_test_owned : Item → Bool
  unfolding origin_of is_test_file str_eq
  is_test_owned v =
      not (is_nil (origin_of v))
      && (str_eq (origin_of v) test_module || elim (values.file_of (origin_of v)) [
        | none ↦ false
        | some f ↦ not (is_nil f) && is_test_file f
      ])

  -- An entry that the suite added: it is not in the saved copy, and test code owns it.
  unfoldable pub is_added : List Item → Item → Bool
  unfolding has_item is_test_owned
  is_added saved v = not (has_item saved v) && is_test_owned v

  unfoldable pub is_added_key : Dict Item → Str × Item → Bool
  unfolding lookup is_test_owned
  is_added_key saved e = not (is_some (lookup e.0 saved)) && is_test_owned e.1

  -- Whether the suite added to a container. A snapshot is of the container's own type.
  unfoldable pub has_added : Container → Container → Bool
  unfolding is_added is_added_key
  has_added (mapping d) (mapping saved) = any (is_added_key saved) d
  has_added (sequence xs) (sequence saved) = any (is_added saved) xs
  has_added (collection xs) (collection saved) = any (is_added saved) xs
  has_added c saved = false

  unfoldable pub pulled : Container → Container → Container
  unfolding is_added is_added_key
  pulled (mapping d) (mapping saved) = mapping (keep (λ e. not (is_added_key saved e)) d)
  pulled (sequence xs) (sequence saved) = sequence (keep (λ v. not (is_added saved v)) xs)
  pulled (collection xs) (collection saved) = collection (keep (λ v. not (is_added saved v)) xs)
  pulled c saved = c

  -- The labels of the containers that the suite added to; one that raises is passed over.
  unfoldable pub added_labels : List Saved → Store → List Str
  unfolding has_added same_container
  added_labels [] store = []
  added_labels (s ∷ before) store =
      let rest = added_labels before store in
      if values.clashes (store s.address) s.copy
      then rest
      else if same_container (store s.address) s.copy
      then rest
      else if values.balks (store s.address) s.copy
      then rest
      else if has_added (store s.address) s.copy
      then s.label ∷ rest
      else rest

  unfoldable pub registry_delta : List Saved → Store → Option Str
  unfolding added_labels shown_names
  registry_delta before store = elim (added_labels before store) [
    | [] ↦ none
    | l ∷ ls ↦ some (shown_names (l ∷ ls))
  ]

  -- In place. An exception while the additions are looked for is swallowed.
  unfoldable pub restore_one : Saved → Store → Store
  unfolding pulled same_container
  restore_one s store =
      if same_container (store s.address) s.copy || values.balks (store s.address) s.copy
      then store
      else λ a. if eqb s.address a then pulled (store a) s.copy else store a

  -- One after another: two labels may stand for one container. The comparison stands before the `try`:
  -- where it raises, the loop ends with that exception, which is the answer false.
  unfoldable pub restore_registries : List Saved → Store → Bool × Store
  unfolding restore_one
  restore_registries [] store = (true, store)
  restore_registries (s ∷ before) store =
      let rest = restore_registries before (restore_one s store) in
      if values.clashes (store s.address) s.copy then (false, store) else rest
