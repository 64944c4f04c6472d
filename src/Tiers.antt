-- ===== src/Tiers.antt =====
-- engine/py-shim/tiderace_shim/tiers.py: the isolation tier of a node, and the response assembled
-- from its variants. The in-process deadline (signals, watchdog threads) is not modelled.
pub mod Routes
pub mod Coverage
pub mod Verdicts
use mathlib.Core.Option
use tiderace.Base.{
  Bool, Dict, List, Option, Str, [], any, eqb, false, if◌then◌else◌, insert, is_some, lookup, ltb,
  map, none, not, or_else, some, true, ℕ, ◌&&◌, ◌++◌, ◌||◌, ◌∷◌,
}
use tiderace.Results.{
  Frame, Outcome, Purity, Reported, Variant, Verdict, impure, no_verdict, pure, response, unknown,
  variant, with_purity, worst,
}
use tiderace.Marks.{Mark, fold}

pub data Tier : Type 0 where
  bare restore_tier in_process_tier fork module_child refused : Tier

-- `Tier.in_process`
unfoldable pub in_process : Tier → Bool
in_process bare = true
in_process restore_tier = true
in_process in_process_tier = true
in_process _ = false

pub record Routing : Type 0 where
  pub fork_available : Bool
  pub in_module_child : Bool
  pub module_child_holds_module : Bool
  pub no_fork : Bool
  pub restore : Bool
  pub force_no_fork : Bool
  pub trusted_pure : Bool
  pub recorded_must_fork : Bool

-- The callable that `route` is handed. It is costly and may raise (`none`), so it runs in a state
-- by which its calls can be observed.
abbrev pub Probe : Type 0 → Type 0
Probe S = S → Option Bool × S

-- `not restorable()`, and `True` where it raised.
abbrev pub denied : Option Bool → Bool
denied none = true
denied (some b) = not b

-- The first gate: the snapshot check, made only where the answer depends on it.
unfoldable pub probed : {S : Type 0} → Routing → Probe S → S → Bool × S
probed r probe s =
    if r.restore && not r.trusted_pure && (r.force_no_fork || r.no_fork)
    then (let (answer, s') = probe s in (denied answer, s'))
    else (false, s)

-- The two gates after it, and the tier that follows from `must_fork`.
unfoldable pub must_fork_after : Routing → Bool → Bool
must_fork_after r must_fork =
    must_fork
    || (r.recorded_must_fork && r.restore && not r.no_fork)
    || (r.module_child_holds_module
        && not r.in_module_child
        && r.fork_available
        && r.restore
        && not r.no_fork)

unfoldable pub tier_for : Routing → Bool → Tier
tier_for r must_fork =
    if must_fork
    then (if not r.fork_available
        then refused
        else if r.in_module_child
        then fork
        else module_child)
    else if r.no_fork || r.force_no_fork
    then (if r.trusted_pure then bare else if r.restore then restore_tier else in_process_tier)
    else fork

unfoldable pub route : {S : Type 0} → Routing → Probe S → S → Tier × S
unfolding probed must_fork_after tier_for
route r probe s =
    let (must_fork, s') = probed r probe s in (tier_for r (must_fork_after r must_fork), s')

pub record VariantResult : Type 0 where
  pub variant_id : Str
  pub outcome : Outcome
  pub detail : Str
  pub coverage : Dict (List ℕ)
  pub purity : Purity
  pub disturbed : Bool
  pub duration_ms : ℕ

-- `sorted(lines)` of a set of lines, whatever order and repetition the list that stands for it has.
unfoldable pub insert_line : ℕ → List ℕ → List ℕ
insert_line n [] = n ∷ []
insert_line n (m ∷ ms) =
    let rest = insert_line n ms in
    if ltb n m then n ∷ m ∷ ms else if eqb n m then m ∷ ms else m ∷ rest

unfoldable pub sorted_lines : List ℕ → List ℕ
unfolding insert_line
sorted_lines [] = []
sorted_lines (n ∷ ns) = insert_line n (sorted_lines ns)

unfoldable pub sorted_coverage : Dict (List ℕ) → Dict (List ℕ)
unfolding sorted_lines
sorted_coverage = map (λ (path, lines). (path, sorted_lines lines))

-- `coverage.setdefault(path, set()).update(lines)`
unfoldable pub add_lines : Str → List ℕ → Dict (List ℕ) → Dict (List ℕ)
add_lines path lines cov = insert path (or_else (lookup path cov) [] ++ lines) cov

unfoldable pub add_coverage : Dict (List ℕ) → Dict (List ℕ) → Dict (List ℕ)
unfolding add_lines
add_coverage [] cov = cov
add_coverage ((path, lines) ∷ more) cov = add_coverage more (add_lines path lines cov)

unfoldable pub union_coverage : List VariantResult → Dict (List ℕ) → Dict (List ℕ)
unfolding add_coverage
union_coverage [] cov = cov
union_coverage (r ∷ rs) cov = union_coverage rs (add_coverage r.coverage cov)

-- `if coverage: ...`
abbrev pub when_any : Dict (List ℕ) → Option (Dict (List ℕ))
when_any [] = none
when_any (e ∷ cov) = some (e ∷ cov)

-- One step of the loop over the purities: the node's verdict and its first reason so far.
unfoldable pub purity_step : Verdict → Purity → Verdict
purity_step v unknown = v
purity_step v pure = record v { pure_flag = if is_some v.pure_flag then v.pure_flag else some true }
purity_step v (impure reason) = record {
  pure_flag = some false;
  impurity = if is_some v.impurity then v.impurity else some reason;
}

unfoldable pub purity_loop : Verdict → List VariantResult → Verdict
unfolding purity_step
purity_loop v [] = v
purity_loop v (r ∷ rs) = purity_loop (purity_step v r.purity) rs

-- `if any(r.disturbed for r in results): resp["must_fork"] = True`
abbrev pub flag_if : Bool → Option Bool
flag_if true = some true
flag_if false = none

unfoldable pub case_of : (Str → List Str) → VariantResult → Variant
unfolding variant with_purity sorted_coverage
case_of keywords r =
    record (variant r.variant_id r.outcome r.detail r.duration_ms (keywords r.variant_id)) {
      coverage = Option.map sorted_coverage (when_any r.coverage);
      verdict = with_purity no_verdict r.purity false;
      must_fork = flag_if r.disturbed;
    }

abbrev pub reported : VariantResult → Reported
reported r = (r.outcome, r.detail)

-- The marks of both dialects folded in, the native ones first.
unfoldable pub fold_both : List Mark → List Mark → Reported → Reported
unfolding fold
fold_both native_marks pytest_marks o =
    let (o', d') = fold native_marks o.0 o.1 false in fold pytest_marks o' d' false

abbrev pub disturbs : VariantResult → Bool
disturbs r = r.disturbed

-- `assemble`; `none` where there is no result, on which `max` raises.
unfoldable pub assemble :
    Str → List VariantResult → Bool → List Mark → List Mark → (Str → List Str) → Option Frame
unfolding worst fold_both response case_of union_coverage purity_loop
assemble node results parametrized native_marks pytest_marks keywords =
    Option.map
      (λ w.
        let (o, d) = fold_both native_marks pytest_marks w in
        record (response node o (some d) (some (keywords node))) {
          variants = if parametrized then some (map (case_of keywords) results) else none;
          coverage = Option.map sorted_coverage (when_any (union_coverage results []));
          verdict = purity_loop no_verdict results;
          must_fork = flag_if (any disturbs results);
        })
      (worst (map reported results))
