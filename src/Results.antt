-- ===== src/Results.antt =====
-- engine/py-shim/tiderace_shim/results.py: the outcomes, the frames that carry them to the Rust
-- side, and the purity verdict. A field that a frame may leave out is an `Option`.
pub mod Ordering
pub mod Encoding
pub mod History
use tiderace.Base.{
  Bool, Dict, List, Option, Str, [], codes, contains_str, false, if◌then◌else◌, leb, ltb, map, none,
  not, some, true, ℕ, ◌&&◌, ◌++◌, ◌∷◌,
}

pub data Outcome : Type 0 where
  passed failed error skipped xfail xpass : Outcome

-- `_SEVERITY.get(o, 0)`
unfoldable pub severity : Outcome → ℕ
severity error = 3
severity failed = 2
severity skipped = 1
severity passed = 0
severity xfail = 0
severity xpass = 0

abbrev pub Reported : Type 0
Reported = Outcome × Str

-- The rest of `max(outcomes, key=...)`: a later entry replaces the best one only if it is worse.
unfoldable pub worst_from : Reported → List Reported → Reported
unfolding severity
worst_from best [] = best
worst_from best (o ∷ os) = worst_from (if ltb (severity best.0) (severity o.0) then o else best) os

-- `Outcome.worst`; `max` of an empty list raises.
unfoldable pub worst : List Reported → Option Reported
unfolding worst_from
worst [] = none
worst (o ∷ os) = some (worst_from o os)

-- A reason (impure), `None` (measured pure), or `UNKNOWN_PURITY`.
pub data Purity : Type 0 where
  unknown pure : Purity
  impure : Str → Purity

-- The two fields of a frame that carry a purity: `pure` and `impurity`.
pub record Verdict : Type 0 where
  pub pure_flag : Option Bool
  pub impurity : Option Str

abbrev pub no_verdict : Verdict
no_verdict = record { pure_flag = none; impurity = none }

-- `with_purity(result, purity, reason_key=...)`; the key that callers give is `"impurity"`.
unfoldable pub with_purity : Verdict → Purity → Bool → Verdict
with_purity v unknown keyed = v
with_purity v pure keyed = record v { pure_flag = some true }
with_purity v (impure reason) keyed = record {
  pure_flag = some false;
  impurity = if keyed then some reason else v.impurity;
}

-- `text or default`
unfoldable pub nonempty_or : Str → Str → Str
nonempty_or [] d = d
nonempty_or (c ∷ s) d = c ∷ s

abbrev pub impure_text : Str
impure_text = codes "impure"

decode : Option Bool → Option Str → Purity
unfolding nonempty_or
decode none reason = unknown
decode (some true) reason = pure
decode (some false) none = impure impure_text
decode (some false) (some reason) = impure (nonempty_or reason impure_text)

-- `purity_from`
unfoldable pub purity_from : Verdict → Purity
unfolding decode
purity_from v = decode v.pure_flag v.impurity

-- One case of a parametrized node: `variant(...)` with the fields that `assemble` adds.
pub record Variant : Type 0 where
  pub node_id : Str
  pub outcome : Outcome
  pub detail : Str
  pub duration_ms : ℕ
  pub keywords : List Str
  pub coverage : Option (Dict (List ℕ))
  pub verdict : Verdict
  pub must_fork : Option Bool

-- A result frame: `response(...)`, with the fields that its callers add.
pub record Frame : Type 0 where
  pub node_id : Str
  pub outcome : Outcome
  pub detail : Option Str
  pub keywords : Option (List Str)
  pub expanded : Option Bool
  pub variants : Option (List Variant)
  pub coverage : Option (Dict (List ℕ))
  pub verdict : Verdict
  pub must_fork : Option Bool
  pub skip_origin : Option Str

unfoldable pub response : Str → Outcome → Option Str → Option (List Str) → Frame
response node outcome detail keywords = record {
  node_id = node;
  outcome = outcome;
  detail = detail;
  keywords = keywords;
  expanded = none;
  variants = none;
  coverage = none;
  verdict = no_verdict;
  must_fork = none;
  skip_origin = none;
}

unfoldable pub errored : Str → Str → Frame
unfolding response
errored node detail = response node error (some detail) none

-- `skipped(...)`
unfoldable pub skip_frame : Str → Str → Option (List Str) → Frame
unfolding response
skip_frame node reason keywords = response node skipped (some reason) keywords

unfoldable pub empty_expansion : Str → Frame
unfolding response
empty_expansion node = record (response node passed none none) {
  expanded = some true;
  variants = some [];
}

unfoldable pub expansion : Str → Outcome → Str → List Variant → Frame
unfolding response
expansion node outcome detail variants = record (response node outcome (some detail) none) {
  expanded = some true;
  variants = some variants;
}

-- `variant(...)`
unfoldable pub variant : Str → Outcome → Str → ℕ → List Str → Variant
variant node outcome detail ms keywords = record {
  node_id = node;
  outcome = outcome;
  detail = detail;
  duration_ms = ms;
  keywords = keywords;
  coverage = none;
  verdict = no_verdict;
  must_fork = none;
}

abbrev pub sys_modules : Str
sys_modules = codes "sys.modules"

abbrev pub fails : Outcome → Bool
fails failed = true
fails error = true
fails _ = false

-- What `_note_import_history` does to the detail of one record.
unfoldable pub noted : Str → Outcome → Str → Str
noted note outcome detail =
    if fails outcome && (contains_str sys_modules detail && not (contains_str note detail))
    then detail ++ note
    else detail

noted_variant : Str → Variant → Variant
unfolding noted
noted_variant note v = record v { detail = noted note v.outcome v.detail }

-- `record.get("detail") or ""`; a record that is not noted keeps its detail, absent or not.
noted_detail : Str → Outcome → Option Str → Option Str
unfolding noted
noted_detail note outcome none = none
noted_detail note outcome (some detail) = some (noted note outcome detail)

noted_variants : Str → Option (List Variant) → Option (List Variant)
unfolding noted_variant
noted_variants note none = none
noted_variants note (some vs) = some (map (noted_variant note) vs)

-- `_note_import_history(result, nodes_run, pristine=...)`, over the text of the note.
unfoldable pub note_import_history : Str → Frame → ℕ → Bool → Frame
unfolding noted_detail noted_variants
note_import_history note result nodes_run pristine =
    if not pristine && leb nodes_run 1 then result else record result {
      detail = noted_detail note result.outcome result.detail;
      variants = noted_variants note result.variants;
    }
