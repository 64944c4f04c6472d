-- ===== src/Footprint/Resolve.antt =====
-- footprint.py: `_resolve_module_file`, its memo, and `_watched_packages`. `os.path` is as on posix.
use tiderace.Base.{
  Bool, List, Option, Str, [], codes, dirname, ends_with, eqb, if◌then◌else◌, is_nil, keep, map,
  none, not, some, split, starts_with, str_eq, suc, zero, ℕ, ◌&&◌, ◌++◌, ◌||◌, ◌∷◌,
}

-- `os.path.join(a, b)`
unfoldable pub join : Str → Str → Str
unfolding starts_with ends_with
join a b =
    if starts_with b (codes "/")
    then b
    else if is_nil a || ends_with a (codes "/")
    then a ++ b
    else a ++ codes "/" ++ b

unfoldable pub join_all : Str → List Str → Str
unfolding join
join_all a [] = a
join_all a (b ∷ bs) = join_all (join a b) bs

-- The parts of the process and of the file system that a resolution reads.
pub record Disk : Type 0 where
  pub is_file : Str → Bool
  pub abspath : Str → Str
  pub sys_path : List Str
  pub root : Str

-- `base_dir = os.path.dirname(base_dir)`, a number of times
unfoldable pub climb : ℕ → Str → Str
unfolding dirname
climb zero d = d
climb (suc n) d = climb n (dirname d)

-- `candidates`
unfoldable pub stems : Disk → Str → ℕ → Str → List Str
unfolding climb dirname join_all split
stems disk dotted zero from_file =
    map (λ p. join_all p (split 46 dotted)) (keep (λ p. not (is_nil p)) disk.sys_path)
stems disk dotted (suc level) from_file =
    let base_dir = climb level (dirname (disk.abspath from_file)) in
    (if is_nil dotted then base_dir else join_all base_dir (split 46 dotted)) ∷ []

unfoldable pub probes : List Str → List Str
unfolding join
probes [] = []
probes (stem ∷ others) = (stem ++ codes ".py") ∷ (join stem (codes "__init__.py") ∷ probes others)

-- The loop over the candidates: the first that is a file, if it lives under the root.
unfoldable pub first_file : Disk → List Str → Option Str
unfolding starts_with
first_file disk [] = none
first_file disk (c ∷ cs) =
    let rest = first_file disk cs in
    if disk.is_file c
    then (if starts_with (disk.abspath c) (disk.abspath disk.root ++ codes "/")
        then some (disk.abspath c)
        else none)
    else rest

-- `_resolve_module_file_uncached`
unfoldable pub resolve_uncached : Disk → Str → ℕ → Str → Option Str
unfolding stems probes first_file
resolve_uncached disk dotted level from_file =
    first_file disk (probes (stems disk dotted level from_file))

abbrev pub ResolveKey : Type 0
ResolveKey = Str × ℕ × Str

-- `(dotted, level, os.path.dirname(from_file) if level else "")`
unfoldable pub resolve_key : Str → ℕ → Str → ResolveKey
unfolding dirname
resolve_key dotted zero from_file = (dotted, 0, [])
resolve_key dotted (suc level) from_file = (dotted, suc level, dirname from_file)

unfoldable pub key_eq : ResolveKey → ResolveKey → Bool
unfolding str_eq
key_eq (a, m, d) (b, n, e) = str_eq a b && (eqb m n && str_eq d e)

abbrev pub Resolved : Type 0
Resolved = List (ResolveKey × Option Str)

unfoldable pub find_key : ResolveKey → Resolved → Option (Option Str)
unfolding key_eq
find_key k [] = none
find_key k ((j, v) ∷ memo) = if key_eq j k then some v else find_key k memo

-- `_resolve_module_file`; a key is written only while it is absent.
unfoldable pub resolve_module_file : Disk → Str → ℕ → Str → Resolved → Option Str × Resolved
unfolding resolve_key find_key resolve_uncached
resolve_module_file disk dotted level from_file memo =
    elim (find_key (resolve_key dotted level from_file) memo) [
      | some v ↦ (v, memo)
      | none ↦
          (let v = resolve_uncached disk dotted level from_file in
            (v, (resolve_key dotted level from_file, v) ∷ memo))
    ]
