-- ===== src/Footprint/Index.antt =====
-- footprint.py: the dependency entries that are carried from one run to the next.
use tiderace.Base.{
  Dict, List, Option, Str, [], codes, ends_with, if◌then◌else◌, is_nil, keep, none, not, some,
  sorted_names, str_eq, ◌&&◌, ◌∷◌,
}
use tiderace.Plan.{update}
use tiderace.Footprint.Deps.{Caches, Entry}

-- `"index.json"`
abbrev pub index_name : Str
index_name = codes "index.json"

-- What a file of the cache directory is to a load: it is passed over, because it cannot be read, does
-- not parse or is of another version; or it holds JSON that is not an object; or these entries.
pub data Content : Type 0 where
  passed_over not_object : Content
  entries : Dict Entry → Content

-- The files of the cache directory: its names, `none` where it cannot be listed, and their contents.
pub record CacheDir : Type 0 where
  pub listed : Option (List Str)
  pub content_of : Str → Content

-- What a load does to the directory: the index that is written, and the worker files that are dropped.
pub record Folded : Type 0 where
  pub index : Option (Dict Entry)
  pub dropped : List Str

module _ (dir : CacheDir) where
  -- A name that does not end in `.json` is passed over too.
  unfoldable pub content_at : Str → Content
  unfolding ends_with
  content_at name = if ends_with name (codes ".json") then dir.content_of name else passed_over

  -- The loop over the names: the entries of a later file replace those of an earlier one. It raises,
  -- which is `none`, at JSON that is not an object: that has no `get`.
  unfoldable pub merge_files : List Str → Dict Entry → Option (Dict Entry)
  unfolding update content_at
  merge_files [] merged = some merged
  merge_files (name ∷ names) merged = elim (content_at name) [
    | passed_over ↦ merge_files names merged
    | not_object ↦ none
    | entries files ↦ merge_files names (update merged files)
  ]

  -- `worker_files`, by name
  unfoldable pub worker_files : List Str → List Str
  unfolding ends_with str_eq
  worker_files names = keep (λ n. ends_with n (codes ".json") && not (str_eq n index_name)) names

  unfoldable pub folded : Dict Entry → List Str → Folded
  folded merged [] = record { index = none; dropped = [] }
  folded merged (f ∷ fs) = record { index = some merged; dropped = f ∷ fs }

  -- `_load_file_deps_cache`; `none` where an exception comes out of it.
  unfoldable pub load_file_deps_cache : Caches → Option (Caches × Folded)
  unfolding merge_files worker_files folded sorted_names update
  load_file_deps_cache c = elim dir.listed [
    | none ↦ some (c, record { index = none; dropped = [] })
    | some names ↦ elim (merge_files (sorted_names names) []) [
      | none ↦ none
      | some merged ↦ some (
        record c { file_deps_cache = update c.file_deps_cache merged },
        folded merged (worker_files (sorted_names names)),
      )
    ]
  ]

-- `_save_file_deps_cache`: what a process writes to its own file, if anything.
unfoldable pub save_file_deps_cache : Caches → Str → Option (Dict Entry)
save_file_deps_cache c root = elim c.file_deps_new [
  | [] ↦ none
  | e ∷ es ↦ if is_nil root then none else some (e ∷ es)
]
