-- ===== src/Footprint/Deps.antt =====
-- footprint.py: `Caches`, `_file_deps` and the entries it carries across runs, `_watched_packages`.
use tiderace.Base.{
  Dict, List, Option, Str, [], codes, eqb, has_name, if◌then◌else◌, insert, is_nil, lookup, none,
  not, partition, some, sorted_names, str_eq, suc, ℕ, ◌&&◌, ◌++◌, ◌∷◌,
}
use tiderace.Footprint.Scan.{Name}
use tiderace.Footprint.Resolve.{Disk, Resolved, join, resolve_module_file}

-- `os.stat(path)`: the modification time and the size
abbrev pub Stat : Type 0
Stat = ℕ × ℕ

-- `[mtime_ns, size, sys.path hash, deps]`
pub record Entry : Type 0 where
  pub mtime_ns : ℕ
  pub size : ℕ
  pub key : Str
  pub deps : List Str

pub record Caches : Type 0 where
  pub watched_packages : Dict (List Str)
  pub import_closure : Dict (List Str)
  pub file_deps : Dict (List Str)
  pub file_deps_cache : Dict Entry
  pub file_deps_new : Dict Entry
  pub hits : ℕ
  pub parsed : ℕ
  pub resolved : Resolved

-- What a process reads while it serves a run: the disk, each file's status, the names that each file
-- imports, and the key of its `sys.path`.
pub record Sources : Type 0 where
  pub disk : Disk
  pub stat : Str → Option Stat
  pub names : Str → List Name
  pub sys_path_key : Str

-- `if resolved: deps[resolved] = None`
unfoldable pub add_found : Option Str → List Str → List Str
unfolding has_name
add_found none deps = deps
add_found (some f) deps = if has_name f deps then deps else deps ++ f ∷ []

module _ (src : Sources) where
  -- The loop of `_file_deps` over the imported names, with the dict that keeps the first of each.
  unfoldable pub resolve_names : Str → List Name → List Str → Resolved → List Str × Resolved
  unfolding resolve_module_file add_found
  resolve_names path [] deps memo = (deps, memo)
  resolve_names path ((dotted, level) ∷ names) deps memo =
      let (found, memo') = resolve_module_file src.disk dotted level path memo in
      resolve_names path names (add_found found deps) memo'

  -- What an entry of an earlier run says, if the file and the `sys.path` are as they were.
  unfoldable pub entry_deps : Str → Option Entry → Option (List Str)
  unfolding str_eq
  entry_deps path none = none
  entry_deps path (some e) = elim (src.stat path) [
    | none ↦ none
    | some (mtime, bytes) ↦
        if eqb mtime e.mtime_ns && (eqb bytes e.size && str_eq e.key src.sys_path_key)
        then some e.deps
        else none
  ]

  -- `_file_deps_from_cache`, up to the count of the hits
  unfoldable pub cached_deps : Dict Entry → Str → Option (List Str)
  unfolding lookup entry_deps
  cached_deps cache path = entry_deps path (lookup path cache)

  -- `caches.file_deps_new[path] = [...]`, unless the file's status cannot be read
  unfoldable pub note_new : Str → List Str → Dict Entry → Dict Entry
  unfolding insert
  note_new path deps new = elim (src.stat path) [
    | none ↦ new
    | some (mtime, bytes) ↦
        insert path (record { mtime_ns = mtime; size = bytes; key = src.sys_path_key; deps = deps })
          new
  ]

  -- The file is parsed and its names resolved.
  unfoldable pub parsed_deps : Str → Caches → List Str × Caches
  unfolding resolve_names note_new insert
  parsed_deps path c =
      let (deps, memo) = resolve_names path (src.names path) [] c.resolved in
      (
        deps,
        record c {
          file_deps = insert path deps c.file_deps;
          file_deps_new = note_new path deps c.file_deps_new;
          parsed = suc c.parsed;
          resolved = memo;
        },
      )

  -- `_file_deps`
  unfoldable pub file_deps_of : Str → Caches → List Str × Caches
  unfolding lookup insert cached_deps parsed_deps
  file_deps_of path c = elim (lookup path c.file_deps) [
    | some deps ↦ (deps, c)
    | none ↦ elim (cached_deps c.file_deps_cache path) [
      | some deps ↦ (deps, record c { file_deps = insert path deps c.file_deps; hits = suc c.hits })
      | none ↦ parsed_deps path c
    ]
  ]

-- `_UNWATCHED_PACKAGES`
abbrev pub unwatched_packages : List Str
unwatched_packages =
    codes "pytest"
    ∷ codes "_pytest"
    ∷ codes "py"
    ∷ codes "tiderace"
    ∷ codes "unittest"
    ∷ codes "hypothesis"
    ∷ []

-- `name.partition(".")[0]`
unfoldable pub package_of : Str → Str
unfolding partition
package_of name = elim (partition (codes ".") name) [ none ↦ name | some (head, tail) ↦ head ]

module _ (stdlib_names : List Str) where
  -- The loop of `_watched_packages` over the imported names.
  unfoldable pub watched_roots : List Name → List Str → List Str
  unfolding package_of has_name
  watched_roots [] roots = roots
  watched_roots ((name, level) ∷ names) roots =
      let package_root = package_of name in
      let wanted =
        eqb level 0
        && (not (is_nil package_root)
            && (not (has_name package_root stdlib_names)
                && not (has_name package_root (unwatched_packages ++ roots)))) in
      watched_roots names (if wanted then package_root ∷ roots else roots)

  -- `_watched_packages`; `names` is what a file imports.
  unfoldable pub watched_packages_of : (Str → List Name) → Str → Str → Caches → List Str × Caches
  unfolding lookup insert join sorted_names watched_roots
  watched_packages_of names root module_key c = elim (lookup module_key c.watched_packages) [
    | some packages ↦ (packages, c)
    | none ↦
        (let found = sorted_names (
            watched_roots (names (join (if is_nil root then codes "." else root) module_key)) []) in
          (found, record c { watched_packages = insert module_key found c.watched_packages }))
  ]
