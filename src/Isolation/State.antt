-- ===== src/Isolation/State.antt =====
-- isolation.py: the fingerprint of the interpreter, what moved between two of them, and its restoring.
use tiderace.Base.{
  Bool, Dict, List, Option, Str, [], all, codes, eqb, false, has_name, if◌then◌else◌, index_in,
  is_nil, joined, keep, leb, length, ltb, map, none, not, some, sorted_names, str_eq, suc, true,
  zero, ℕ, ◌&&◌, ◌++◌, ◌-◌, ◌∷◌,
}
use tiderace.Plan.{decimal}

-- A thread: the module of its target, when it has one, and the module of its class.
pub record Thread : Type 0 where
  pub is_main : Bool
  pub target_module : Option Str
  pub class_module : Str

-- The interpreter's state that a test can disturb; filters and handlers by their identities.
pub record State : Type 0 where
  pub sys_path : List Str
  pub environ : Dict Str
  pub filters : List ℕ
  pub handlers : List ℕ
  pub level : ℕ
  pub threads : List Thread
  pub cwd : Option Str

pub record Fingerprint : Type 0 where
  pub sys_path : List Str
  pub environ : List Str
  pub filters : ℕ
  pub handlers : List ℕ
  pub level : ℕ
  pub threads : ℕ
  pub cwd : Option Str

abbrev pool_packages : List Str
pool_packages = codes "anyio" ∷ codes "trio" ∷ codes "concurrent" ∷ codes "asyncio" ∷ []

-- `origin.partition(".")[0]`
unfoldable pub top_package : Str → Str
top_package [] = []
top_package (c ∷ s) = let rest = top_package s in if eqb c 46 then [] else c ∷ rest

unfoldable pub thread_home : Thread → Str
unfolding top_package
thread_home t = elim t.target_module [
  | none ↦ top_package t.class_module
  | some m ↦ if is_nil m then top_package t.class_module else top_package m
]

unfoldable pub live_threads : List Thread → ℕ
unfolding thread_home has_name
live_threads ts =
    length (keep (λ t. not t.is_main && not (has_name (thread_home t) pool_packages)) ts)

abbrev pub dict_names {ℓ} : {V : Type ℓ} → Dict V → List Str
dict_names d = map (λ e. e.0) d

unfoldable pub state_fingerprint : State → Fingerprint
unfolding live_threads
state_fingerprint s = record {
  sys_path = s.sys_path;
  environ = dict_names s.environ;
  filters = length s.filters;
  handlers = s.handlers;
  level = s.level;
  threads = live_threads s.threads;
  cwd = s.cwd;
}

-- `xs == ys` on sequences, and `a == b` where either may be None.
unfoldable pub same_list {ℓ} : {A : Type ℓ} → (A → A → Bool) → List A → List A → Bool
same_list eq [] [] = true
same_list eq [] (y ∷ ys) = false
same_list eq (x ∷ xs) [] = false
same_list eq (x ∷ xs) (y ∷ ys) = eq x y && same_list eq xs ys

unfoldable pub same_option {ℓ} : {A : Type ℓ} → (A → A → Bool) → Option A → Option A → Bool
same_option eq none none = true
same_option eq none (some b) = false
same_option eq (some a) none = false
same_option eq (some a) (some b) = eq a b

-- `b - a` on sets of names, and their equality.
unfoldable pub less_names : List Str → List Str → List Str
unfolding has_name
less_names a b = keep (λ n. not (has_name n b)) a

unfoldable pub same_names : List Str → List Str → Bool
unfolding has_name
same_names a b = all (λ n. has_name n b) a && all (λ n. has_name n a) b

abbrev pub first_three : List Str → List Str
first_three (a ∷ b ∷ c ∷ ns) = a ∷ b ∷ c ∷ []
first_three ns = ns

-- `f"left {n} thread(s) running"`
unfoldable pub threads_text : ℕ → Str
unfolding decimal
threads_text n = codes "left " ++ decimal n ++ codes " thread(s) running"

unfoldable pub cwd_text : Option Str → Str
cwd_text none = codes "changed the working directory to None"
cwd_text (some d) = codes "changed the working directory to " ++ d

-- Every name that was added, and at most three of those that were removed.
unfoldable pub environ_text : List Str → List Str → Str
unfolding less_names sorted_names joined
environ_text before after =
    codes "changed os.environ ("
    ++ joined (codes ", ") (
        sorted_names (less_names after before)
        ++ first_three (map (λ n. codes "-" ++ n) (sorted_names (less_names before after))))
    ++ codes ")"

-- `", ".join(sorted(changed)[:3])`, and how many there are more.
unfoldable pub shown_names : List Str → Str
unfolding sorted_names joined decimal
shown_names ns =
    joined (codes ", ") (first_three (sorted_names ns))
    ++ (if leb (length ns) 3 then [] else codes " (+" ++ decimal (length ns - 3) ++ codes " more)")

abbrev pub part_if : Bool → Str → List Str
part_if true text = text ∷ []
part_if false text = []

-- The part of the delta under the key `threads`: only growth counts.
unfoldable pub threads_part : Fingerprint → Fingerprint → List Str
unfolding threads_text
threads_part b a = part_if (ltb b.threads a.threads) (threads_text (a.threads - b.threads))

-- The parts of `_fingerprint_delta`, in the order of the fingerprint's keys.
unfoldable pub moved : Fingerprint → Fingerprint → List Str
unfolding same_list same_option same_names environ_text threads_part cwd_text str_eq
moved b a =
    part_if (not (same_list str_eq b.sys_path a.sys_path)) (codes "changed sys.path")
    ++ part_if (not (same_names b.environ a.environ)) (environ_text b.environ a.environ)
    ++ part_if (not (eqb b.filters a.filters)) (codes "changed warnings.filters")
    ++ part_if (not (same_list eqb b.handlers a.handlers)) (codes "changed logging.handlers")
    ++ part_if (not (eqb b.level a.level)) (codes "changed logging.level")
    ++ threads_part b a
    ++ part_if (not (same_option str_eq b.cwd a.cwd)) (cwd_text a.cwd)

unfoldable pub told : List Str → Option Str
unfolding joined
told [] = none
told (p ∷ ps) = some (joined (codes "; ") (p ∷ ps))

unfoldable pub fingerprint_delta : Fingerprint → Fingerprint → Option Str
unfolding moved told
fingerprint_delta b a = told (moved b a)

-- `del xs[:n - m]` where `n` is the length and `n` is not `m`: a negative bound counts from the end.
unfoldable pub drop_first {ℓ} : {A : Type ℓ} → ℕ → List A → List A
drop_first zero xs = xs
drop_first (suc n) [] = []
drop_first (suc n) (x ∷ xs) = drop_first n xs

unfoldable pub trim_filters : ℕ → List ℕ → List ℕ
unfolding drop_first
trim_filters m xs =
    let n = length xs in
    if eqb n m then xs else if ltb m n then drop_first (n - m) xs else drop_first (n - (m - n)) xs

unfoldable pub put_handlers : List ℕ → List ℕ → List ℕ
unfolding same_list
put_handlers before now =
    if same_list eqb now before then now else keep (λ i. index_in i now) before

-- `chdir` raises for a directory that is gone, and that is swallowed.
unfoldable pub put_cwd : (Str → Bool) → Option Str → Option Str → Option Str
unfolding same_option str_eq
put_cwd is_dir none now = now
put_cwd is_dir (some d) now =
    if same_option str_eq now (some d) then now else if is_dir d then some d else now

unfoldable pub restore_state : (Str → Bool) → Fingerprint → State → State
unfolding trim_filters put_handlers put_cwd
restore_state is_dir before s = record s {
  sys_path = before.sys_path;
  filters = trim_filters before.filters s.filters;
  handlers = put_handlers before.handlers s.handlers;
  level = before.level;
  cwd = put_cwd is_dir before.cwd s.cwd;
}
