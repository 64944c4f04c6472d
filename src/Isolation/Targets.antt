-- ===== src/Isolation/Targets.antt =====
-- isolation.py: the containers worth watching, found by a scan of the watched packages and remembered.
use tiderace.Base.{
  Bool, Dict, List, Option, Str, [], all, codes, eqb, false, has_name, if◌then◌else◌, insert,
  length, lookup, map, none, not, some, starts_with, ℕ, ◌&&◌, ◌++◌, ◌∷◌,
}
use tiderace.Isolation.State.{same_list, top_package}
use tiderace.Isolation.Modules.{Modules, module_at}

-- A module's namespace: a name holds the identity of a container of exactly a dict, a list or a set, or
-- something else. A module may have no namespace.
abbrev pub Namespace : Type 0
Namespace = Dict (Option ℕ)

abbrev pub Namespaces : Type 0
Namespaces = ℕ → Option Namespace

-- The process's memo for one test module.
pub record Memo : Type 0 where
  pub size : ℕ
  pub watched : List (Str × ℕ)
  pub sizes : List ℕ
  pub targets : List (Str × ℕ)

-- `len(vars(module))`
unfoldable pub size_of : Namespaces → ℕ → ℕ
size_of spaces m = elim (spaces m) [ none ↦ 0 | some ns ↦ length ns ]

unfoldable pub is_bound : Modules → Str × ℕ → Bool
unfolding module_at
is_bound ms w = elim (module_at w.0 ms) [ none ↦ false | some m ↦ eqb m w.1 ]

-- The memo still stands: `sys.modules` has its size, and each watched module is the one that was
-- scanned, with as many names.
unfoldable pub is_fresh : Memo → Modules → Namespaces → Bool
unfolding is_bound size_of same_list
is_fresh memo ms spaces =
    eqb memo.size (length ms)
    && all (is_bound ms) memo.watched
    && same_list eqb (map (λ w. size_of spaces w.1) memo.watched) memo.sizes

-- The containers among a module's names, less the dunders.
unfoldable pub containers_of : Str → Namespace → List (Str × ℕ)
unfolding starts_with
containers_of name [] = []
containers_of name ((attr, none) ∷ ns) = containers_of name ns
containers_of name ((attr, some a) ∷ ns) =
    let rest = containers_of name ns in
    if starts_with attr (codes "__") then rest else (name ++ codes "." ++ attr, a) ∷ rest

-- A module of the watched packages, with its namespace, unless that is empty.
unfoldable pub scanned_module : List Str → Namespaces → Str → Option ℕ → Option (ℕ × Namespace)
unfolding top_package has_name
scanned_module roots spaces name none = none
scanned_module roots spaces name (some m) =
    if not (has_name (top_package name) roots)
    then none
    else elim (spaces m) [ none ↦ none | some [] ↦ none | some (e ∷ ns) ↦ some (m, e ∷ ns) ]

unfoldable pub watched_in : List Str → Namespaces → Modules → List (Str × ℕ)
unfolding scanned_module
watched_in roots spaces [] = []
watched_in roots spaces ((name, m) ∷ ms) =
    let rest = watched_in roots spaces ms in
    elim (scanned_module roots spaces name m) [ none ↦ rest | some s ↦ (name, s.0) ∷ rest ]

unfoldable pub targets_in : List Str → Namespaces → Modules → List (Str × ℕ)
unfolding scanned_module containers_of
targets_in roots spaces [] = []
targets_in roots spaces ((name, m) ∷ ms) =
    let rest = targets_in roots spaces ms in
    elim (scanned_module roots spaces name m) [
      | none ↦ rest
      | some s ↦ containers_of name s.1 ++ rest
    ]

unfoldable pub scan : List Str → Namespaces → Modules → Memo
unfolding watched_in targets_in size_of
scan roots spaces ms = record {
  size = length ms;
  watched = watched_in roots spaces ms;
  sizes = map (λ w. size_of spaces w.1) (watched_in roots spaces ms);
  targets = targets_in roots spaces ms;
}

-- The targets, and the memo behind the call.
unfoldable pub registry_targets :
    Dict Memo → Str → List Str → Namespaces → Modules → List (Str × ℕ) × Dict Memo
unfolding is_fresh scan lookup insert
registry_targets cache key roots spaces ms =
    let anew = scan roots spaces ms in
    elim (lookup key cache) [
      | none ↦ (anew.targets, insert key anew cache)
      | some memo ↦
          if is_fresh memo ms spaces
          then (memo.targets, cache)
          else (anew.targets, insert key anew cache)
    ]
