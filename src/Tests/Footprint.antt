-- ===== src/Tests/Footprint.antt =====
-- footprint.py at a suite of three files, two of which import each other.
use tiderace.Base.{
  Elem, List, Str, [], arith, codes, dirname, ends_with, has_name, if◌then◌else◌, inl, inr, insert,
  lookup, refl, some, sorted_names, split, starts_with, str_eq, subst, ◌↔◌, ◌∷◌, ◌≡◌,
}
use tiderace.Plan.{update}
use tiderace.Footprint.{
  content_at, CacheDir, Caches, Disk, Entry, Name, Sources, add_found, cached_deps, climb, entries,
  entry_deps, file_deps_of, find_key, first_file, folded, join, join_all, Entry, key_eq,
  load_file_deps_cache, merge_files, note_new, offer, parsed_deps, probes, reach_from, resolve_key,
  resolve_module_file, resolve_names, resolve_uncached, stems, worker_files,
}
use tiderace.Footprint.Fresh.{IsFresh, plain_deps}
use tiderace.Footprint.Reach.{Reaches, Spans}
use tiderace.Footprint.Closing.{reach_from-plain_deps}

abbrev path_t : Str
path_t = codes "/r/t.py"

abbrev path_a : Str
path_a = codes "/r/a.py"

abbrev path_b : Str
path_b = codes "/r/b.py"

abbrev suite : Disk
suite = record {
  is_file = λ p. has_name p (path_t ∷ path_a ∷ path_b ∷ []);
  abspath = λ p. p;
  sys_path = codes "/r" ∷ [];
  root = codes "/r";
}

-- `t` imports `a` and a package from elsewhere, `a` imports `b`, and `b` imports `a`.
abbrev suite_names : Str → List Name
suite_names p =
    if str_eq p path_t
    then (codes "a", 0) ∷ (codes "os", 0) ∷ []
    else if str_eq p path_a
    then (codes "b", 0) ∷ []
    else if str_eq p path_b
    then (codes "a", 1) ∷ []
    else []

abbrev suite_sources : Sources
suite_sources = record {
  disk = suite;
  stat = λ p. some (7, 9);
  names = suite_names;
  sys_path_key = codes "k";
}

abbrev no_caches : Caches
no_caches = record {
  watched_packages = [];
  import_closure = [];
  file_deps = [];
  file_deps_cache = [];
  file_deps_new = [];
  hits = 0;
  parsed = 0;
  resolved = [];
}

no_caches-IsFresh : IsFresh suite_sources no_caches
unfolding lookup cached_deps entry_deps find_key
no_caches-IsFresh = record {
  deps_right = λ p deps normal h. absurd (ground arith);
  cache_trusted = λ p deps normal h. absurd (ground arith);
  new_trusted = λ p deps normal h. absurd (ground arith);
  memo_right = λ dotted level f v normal h. absurd (ground arith);
}

abbrev suite_files : List Str
suite_files = path_a ∷ path_b ∷ []

closure_of_t :
    (reach_from (file_deps_of suite_sources) 3 (path_t ∷ [], []) no_caches).0
    ≡ some (path_b ∷ path_a ∷ [])
unfolding reach_from file_deps_of offer parsed_deps cached_deps entry_deps lookup insert
    resolve_names resolve_module_file resolve_uncached stems probes first_file find_key resolve_key
    key_eq add_found note_new join join_all climb dirname split starts_with ends_with str_eq
    has_name
closure_of_t = refl

imports_of_t : plain_deps suite_sources path_t ≡ path_a ∷ []
unfolding resolve_uncached stems probes first_file add_found join join_all climb dirname split
    starts_with ends_with str_eq has_name
imports_of_t = refl

imports_of_a : plain_deps suite_sources path_a ≡ path_b ∷ []
unfolding resolve_uncached stems probes first_file add_found join join_all climb dirname split
    starts_with ends_with str_eq has_name
imports_of_a = refl

imports_of_b : plain_deps suite_sources path_b ≡ path_a ∷ []
unfolding resolve_uncached stems probes first_file add_found join join_all climb dirname split
    starts_with ends_with str_eq has_name
imports_of_b = refl

-- The imports of `g`, if they are the one file `d`.
only_import :
    (g x d f : Str)
    → g ≡ x
    → plain_deps suite_sources x ≡ d ∷ []
    → Elem f (plain_deps suite_sources g)
    → f ≡ d
only_import g x d f e one h =
    elim (subst (Elem f) one (subst (λ y. Elem f (plain_deps suite_sources y)) e h)) [
      | inl same ↦ same
      | inr never ↦ absurd never
    ]

suite_spans : Spans (plain_deps suite_sources) path_t suite_files
suite_spans g f (inl e) h = inl (only_import g path_t path_a f e imports_of_t h)
suite_spans g f (inr (inl e)) h = inr (inl (only_import g path_a path_b f e imports_of_a h))
suite_spans g f (inr (inr (inl e))) h = inl (only_import g path_b path_a f e imports_of_b h)
suite_spans g f (inr (inr (inr never))) h = absurd never

reach_from-plain_deps_example :
    (found : List Str) × ((reach_from (file_deps_of suite_sources) 3 (path_t ∷ [], []) no_caches).0
      ≡ some found)
    × ((f : Str) → Elem f found ↔ Reaches (plain_deps suite_sources) path_t f)
    × IsFresh suite_sources
        (reach_from (file_deps_of suite_sources) 3 (path_t ∷ [], []) no_caches).1
reach_from-plain_deps_example =
    reach_from-plain_deps suite_sources (λ p. refl) path_t suite_files no_caches refl
      no_caches-IsFresh suite_spans

-- A worker of an earlier run left what `a` imports.
abbrev entry_of_a : Entry
entry_of_a = record { mtime_ns = 7; size = 9; key = codes "k"; deps = path_b ∷ [] }

abbrev left_behind : CacheDir
left_behind = record {
  listed = some (codes "w-1.json" ∷ []);
  content_of = λ name. entries ((path_a, entry_of_a) ∷ []);
}

loaded_left_behind :
    load_file_deps_cache left_behind no_caches
    ≡ some (
      record no_caches { file_deps_cache = (path_a, entry_of_a) ∷ [] },
      record { index = some ((path_a, entry_of_a) ∷ []); dropped = codes "w-1.json" ∷ [] },
    )
unfolding load_file_deps_cache merge_files content_at worker_files folded sorted_names update insert
    ends_with str_eq
loaded_left_behind = refl
