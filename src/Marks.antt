-- ===== src/Marks.antt =====
-- engine/py-shim/tiderace_shim/pytest_compat.py: marks in one dialect, their fold into an outcome,
-- and the objects that bear markers.
pub mod Folding
pub mod Bearers
use tiderace.Base.{
  Bool, List, Option, Str, [], codes, false, if◌then◌else◌, keep, map, none, or_else, reverse, some,
  str_eq, strip, true, ℕ, ◌&&◌, ◌++◌, ◌||◌, ◌∷◌,
}
use tiderace.Results.{Outcome, Reported, error, failed, nonempty_or, passed, skipped, xfail, xpass}

-- A value that a mark carries. `other` is any object that is neither a bool nor a text nor `None`.
pub data Value : Type 0 where
  nothing : Value
  flag : Bool → Value
  text : Str → Value
  other : ℕ → Value

-- `Mark`, less its `source`, which the shim only hands back to the author's own code.
pub record Mark : Type 0 where
  pub kind : Str
  pub name : Str
  pub reason : Str
  pub condition : Value
  pub strict : Bool
  pub default_reason : Str

-- A mark as the author wrote it: normalised already, tiderace's own, or pytest's. Of pytest's
-- keyword arguments stand the three that `normalise` reads.
pub data Raw : Type 0 where
  normal : Mark → Raw
  native : (kind name reason : Str) (condition : Value) (strict : Bool) → Raw
  pytest :
      (name : Str) (args : List Value) (reason : Option Str) (condition : Option Value)
      (strict : Bool)
      → Raw

abbrev pub skip_kind : Str
skip_kind = codes "skip"

abbrev pub skip_if_kind : Str
skip_if_kind = codes "skip_if"

abbrev pub skipif_name : Str
skipif_name = codes "skipif"

abbrev pub xfail_kind : Str
xfail_kind = codes "xfail"

-- `args[0] if args else d`
unfoldable pub first_or : List Value → Value → Value
first_or [] d = d
first_or (a ∷ as') d = a

-- `args[0]` where it is a text
unfoldable pub first_text : List Value → Str
first_text (text s ∷ _) = s
first_text _ = []

-- `args[0] if args and not isinstance(args[0], str) else d`
unfoldable pub first_not_text : List Value → Value → Value
first_not_text [] d = d
first_not_text (text s ∷ _) d = d
first_not_text (a ∷ _) d = a

-- The pytest half of `normalise`.
unfoldable pub normalise_pytest : Str → List Value → Option Str → Option Value → Bool → Mark
unfolding first_or first_text first_not_text nonempty_or
normalise_pytest name args reason condition strict =
    let given = or_else reason [] in
    if str_eq name skipif_name
    then record {
      kind = skip_if_kind;
      name = name;
      reason = given;
      condition = first_or args (or_else condition nothing);
      strict = false;
      default_reason = skipif_name;
    }
    else if str_eq name skip_kind
    then record {
      kind = skip_kind;
      name = name;
      reason = nonempty_or given (first_text args);
      condition = nothing;
      strict = false;
      default_reason = skip_kind;
    }
    else if str_eq name xfail_kind
    then record {
      kind = xfail_kind;
      name = name;
      reason = given;
      condition = first_not_text args (or_else condition (flag true));
      strict = strict;
      default_reason = xfail_kind;
    }
    else record {
      kind = name;
      name = name;
      reason = given;
      condition = nothing;
      strict = false;
      default_reason = name;
    }

unfoldable pub normalise : Raw → Mark
unfolding normalise_pytest
normalise (normal m) = m
normalise (native kind name reason condition strict) = record {
  kind = kind;
  name = nonempty_or name kind;
  reason = reason;
  condition = if str_eq kind skip_if_kind then condition else nothing;
  strict = strict;
  default_reason = kind;
}
normalise (pytest name args reason condition strict) =
    normalise_pytest name args reason condition strict

unfoldable pub normalise_all : List Raw → List Mark
unfolding normalise
normalise_all = map normalise

-- `isinstance(v, bool) and v`
abbrev pub is_true : Value → Bool
is_true (flag b) = b
is_true _ = false

-- `v is not False`
abbrev pub is_not_false : Value → Bool
is_not_false (flag b) = b
is_not_false _ = true

unfoldable pub skips : Mark → Bool
skips m = str_eq m.kind skip_kind || (str_eq m.kind skip_if_kind && is_true m.condition)

unfoldable pub expects_failure : Mark → Bool
expects_failure m = str_eq m.kind xfail_kind && is_not_false m.condition

unfoldable pub skip_reason : List Mark → Option Str
unfolding skips nonempty_or
skip_reason [] = none
skip_reason (m ∷ ms) =
    if skips m then some (nonempty_or m.reason m.default_reason) else skip_reason ms

abbrev pub strict_prefix : Str
strict_prefix = codes "[xpass strict] "

unfoldable pub apply_xfail : Mark → Outcome → Str → Reported
unfolding nonempty_or strip
apply_xfail m failed detail = (xfail, nonempty_or m.reason detail)
apply_xfail m error detail = (xfail, nonempty_or m.reason detail)
apply_xfail m passed detail =
    if m.strict then (failed, strip (strict_prefix ++ m.reason)) else (xpass, m.reason)
apply_xfail m o detail = (o, detail)

abbrev pub runtime_reason : Str
runtime_reason = codes "skipped at runtime"

-- `outcome in ("failed", "error", "passed")`
abbrev pub is_run : Outcome → Bool
is_run failed = true
is_run error = true
is_run passed = true
is_run _ = false

unfoldable pub fold : List Mark → Outcome → Str → Bool → Reported
unfolding expects_failure apply_xfail
fold [] o detail runtime = (o, detail)
fold (m ∷ ms) o detail runtime =
    if str_eq m.kind skip_kind
    then (skipped, nonempty_or m.reason (if runtime then runtime_reason else m.default_reason))
    else if expects_failure m && is_run o
    then apply_xfail m o detail
    else fold ms o detail runtime

-- `MarkerBearer.own_markers`, and its `add_marker`.
unfoldable pub add_marker : List Raw → Raw → Bool → List Raw
add_marker own m append = if append then own ++ m ∷ [] else m ∷ own

-- `getattr(m, "name", None)`
unfoldable pub marker_name : Raw → Str
marker_name (normal m) = m.name
marker_name (native kind name reason condition strict) = name
marker_name (pytest name args reason condition strict) = name

-- `name is None or m.name == name`
unfoldable pub name_fits : Option Str → Raw → Bool
unfolding marker_name
name_fits none m = true
name_fits (some name) m = str_eq (marker_name m) name

unfoldable pub iter_markers : List Raw → Option Str → List Raw
unfolding name_fits
iter_markers own name = keep (name_fits name) (reverse own)

first {ℓ} : {A : Type ℓ} → List A → Option A
first [] = none
first (a ∷ _) = some a

unfoldable pub get_closest_marker : List Raw → Str → Option Raw
unfolding iter_markers first
get_closest_marker own name = first (iter_markers own (some name))

-- `_runtime_outcome`, for a node with these markers.
unfoldable pub runtime_outcome : List Raw → Outcome → Str → Reported
unfolding fold normalise_all iter_markers
runtime_outcome [] o detail = (o, detail)
runtime_outcome (m ∷ own) o detail =
    fold (normalise_all (iter_markers (m ∷ own) none)) o detail true

-- `_own_markers`: the `pytestmark` of each owner, widest first; an absent owner or attribute
-- contributes nothing, and a single mark is a list of one.
unfoldable pub own_markers : List (Option (List Raw)) → List Raw
own_markers [] = []
own_markers (none ∷ owners) = own_markers owners
own_markers (some marks ∷ owners) = marks ++ own_markers owners
