-- ===== src/Footprint/Carried.antt =====
-- What `_load_file_deps_cache` of footprint.py carries over from earlier runs.
use tiderace.Base.{
  Dict, Elem, List, Option, Str, [], if◌then◌else◌, lookup, none, some, sorted_names, str_eq, ◌∷◌,
  ◌≡◌,
}
use tiderace.Isolation.Swapped.{Distinct}
use tiderace.Footprint.Deps.{Caches, Entry}
use tiderace.Footprint.Index.{CacheDir, Folded, content_at, entries, not_object, passed_over}

-- The first of the two that there is.
unfoldable pub first_of : Option Entry → Option Entry → Option Entry
first_of none f = f
first_of (some e) f = some e

-- The last entry of a path, as JSON keeps it.
unfoldable pub last_entry : Str → Dict Entry → Option Entry
unfolding first_of
last_entry path [] = none
last_entry path ((k, e) ∷ d) = first_of (last_entry path d) (if str_eq k path then some e else none)

module _ (dir : CacheDir) where
  -- What a file has for a path.
  unfoldable pub entry_in : Str → Str → Option Entry
  unfolding last_entry
  entry_in path name = elim (content_at dir name) [
    | passed_over ↦ none
    | not_object ↦ none
    | entries files ↦ last_entry path files
  ]

  -- What the last of the files that has the path has for it.
  unfoldable pub latest : Str → List Str → Option Entry
  unfolding first_of entry_in
  latest path [] = none
  latest path (name ∷ names) = first_of (latest path names) (entry_in path name)

  -- No file holds JSON that is not an object.
  abbrev pub AreObjects : List Str → Type 0
  AreObjects names = (name : Str) → Elem name names → ¬ (content_at dir name ≡ not_object)

  -- The merging raises at a file with JSON that is no object, or every path has its latest entry.
  abbrev Merges : List Str → Dict Entry → Option (Dict Entry) → Type 0
  Merges names merged none = (name : Str) × Elem name names × (content_at dir name ≡ not_object)
  Merges names merged (some m) =
      ((path : Str) → lookup path m ≡ first_of (latest path names) (lookup path merged))
      × Distinct m
      × AreObjects names

  -- The load raises and there is a file whose JSON is no object, or there is none, and the caches have
  -- for every path its latest entry, and what they had before where no file has the path.
  abbrev pub Loads : List Str → Caches → Option (Caches × Folded) → Type 0
  Loads names c none =
      (name : Str) × Elem name (sorted_names names) × (content_at dir name ≡ not_object)
  Loads names c (some (c', folded)) =
      AreObjects (sorted_names names)
      × ((path : Str)
          → lookup path c'.file_deps_cache
            ≡ first_of (latest path (sorted_names names)) (lookup path c.file_deps_cache))
