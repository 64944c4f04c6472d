-- ===== src/Run/Child.antt =====
-- engine.py: `_run_variant`, in this process or in a forked child, and the child's frame.
use tiderace.Base.{
  Bool, Dict, List, Option, Str, [], codes, eqb, false, if◌then◌else◌, ltb, none, not, or_else,
  some, true, ℕ, ◌&&◌, ◌++◌,
}
use tiderace.Results.{
  Outcome, Purity, Verdict, error, impure, no_verdict, purity_from, unknown, with_purity,
}
use tiderace.Tiers.{Tier, in_process, refused, when_any}
use tiderace.Plan.{decimal}
use tiderace.Protocol.{take}

-- `(outcome, detail, coverage, purity)`
pub record Ran : Type 0 where
  pub outcome : Outcome
  pub detail : Str
  pub coverage : Dict (List ℕ)
  pub purity : Purity

-- What the child writes as its one frame.
pub record Payload : Type 0 where
  pub outcome : Outcome
  pub detail : Option Str
  pub coverage : Option (Dict (List ℕ))
  pub verdict : Verdict

abbrev pub detail_limit : ℕ
detail_limit = 4000

unfoldable pub payload_of : Ran → Payload
unfolding take with_purity
payload_of r = record {
  outcome = r.outcome;
  detail = some (take detail_limit r.detail);
  coverage = when_any r.coverage;
  verdict = with_purity no_verdict r.purity true;
}

unfoldable pub fault_payload : Str → Payload
unfolding take
fault_payload text = record {
  outcome = error;
  detail = some (take detail_limit text);
  coverage = none;
  verdict = no_verdict;
}

-- `body`: what the child reports of an execution, or of the exception it ended in.
unfoldable pub child_body : Option Ran → Str → Payload
unfolding payload_of fault_payload
child_body (some r) text = payload_of r
child_body none text = fault_payload text

pub data Status : Type 0 where
  exited signaled : ℕ → Status

-- `ChildResult`
pub record Got : Type 0 where
  pub reply : Option Payload
  pub timed_out : Bool
  pub status : Status
  pub received : ℕ
  pub decode_error : Option Str

unfoldable pub error_of : Str → Ran
error_of detail = record { outcome = error; detail = detail; coverage = []; purity = unknown }

abbrev pub partial_text : ℕ → Str
partial_text n =
    codes "timeout after writing "
    ++ decimal n
    ++ codes " bytes of a partial result frame — the child began reporting and then stopped"

abbrev pub lost_text : Str
lost_text =
    codes "child ran the test but could not serialise its result frame — the outcome is lost. Most "
    ++ codes "likely an unserialisable coverage map or a detail string that is not valid JSON."

abbrev pub silent_text : Str
silent_text =
    codes "child exited 0 without sending a result — the test process terminated itself "
    ++ codes "(os._exit/os.abort) or the interpreter died before the result frame was written."

abbrev pub unreadable_text : Str → ℕ → Str
unreadable_text e n =
    codes "child sent an unreadable result frame ("
    ++ e
    ++ codes "); "
    ++ decimal n
    ++ codes " bytes received"

-- `EXIT_UNREPORTABLE`
abbrev pub exit_unreportable : ℕ
exit_unreportable = 199

unfoldable pub exit_detail : Status → Str
exit_detail (signaled n) = codes "child killed by signal " ++ decimal n
exit_detail (exited n) =
    if eqb n exit_unreportable
    then lost_text
    else if eqb n 0
    then silent_text
    else codes "child exited " ++ decimal n

unfoldable pub read_reply : Payload → Ran
unfolding purity_from
read_reply p = record {
  outcome = p.outcome;
  detail = or_else p.detail [];
  coverage = or_else p.coverage [];
  purity = purity_from p.verdict;
}

unfoldable pub answered_by : Got → Ran
unfolding error_of exit_detail read_reply
answered_by res = elim res.decode_error [
  | some e ↦ error_of (unreadable_text e res.received)
  | none ↦ elim res.reply [ none ↦ error_of (exit_detail res.status) | some p ↦ read_reply p ]
]

-- The parent's half of the fork tier.
unfoldable pub forked : Got → Ran
unfolding answered_by
forked res =
    if res.timed_out
    then error_of (if ltb 0 res.received then partial_text res.received else codes "timeout")
    else answered_by res

-- How an execution in this process ends, with what it leaked where that was measured: the deadline
-- interrupted it, or an exception ended it.
pub data Ended : Type 0 where
  completed : Ran → Option Str → Ended
  interrupted : Str → Ended
  threw : Str → Option Str → Ended

-- `_state_disturbed`, `_disturbance` and `_timed_out`
pub record Flags : Type 0 where
  pub disturbed : Bool
  pub disturbance : Option Str
  pub overran : Bool

pub record VariantHost (W : Type 0) : Type 0 where
  pub exec : Tier → W → Ended × W
  pub fork_child : W → Got × W
  pub fork_available : Bool
  pub no_fork : Bool
  pub has_clean_room : Bool

abbrev pub drift_text : Str → Str
drift_text drift = codes "disturbed interpreter state: " ++ drift

abbrev pub drifted : Flags → Str → Flags
drifted fl drift = record fl { disturbed = true; disturbance = some drift }

module _ {W : Type 0} (host : VariantHost W) (refusal : Str) where
  unfoldable pub run_forked : Flags → W → Ran × Flags × W
  unfolding forked
  run_forked fl w = let (res, w') = host.fork_child w in (forked res, fl, w')

  -- A drift: the clean room takes the node over, or a fork re-runs the case, or there is neither.
  unfoldable pub after_drift : Ran → Str → Flags → W → Ran × Flags × W
  unfolding run_forked
  after_drift r drift fl w =
      if host.has_clean_room && not host.no_fork
      then (r, drifted fl drift, w)
      else if host.fork_available && not host.no_fork
      then (let (r', fl', w') = run_forked (drifted fl drift) w in
          (record r' { purity = impure (drift_text drift) }, fl', w'))
      else (r, drifted fl drift, w)

  unfoldable pub concluded : Ended → Flags → W → Ran × Flags × W
  unfolding after_drift error_of
  concluded (completed r none) fl w = (r, fl, w)
  concluded (completed r (some drift)) fl w = after_drift r drift fl w
  concluded (interrupted message) fl w =
      (error_of message, record { disturbed = true; disturbance = some message; overran = true }, w)
  concluded (threw text leaked) fl w = (error_of text, fl, w)

  -- `_run_variant`; `refusal` is the text of the refused tier.
  unfoldable pub run_variant : Tier → Flags → W → Ran × Flags × W
  unfolding concluded in_process run_forked error_of
  run_variant refused fl w = (error_of refusal, fl, w)
  run_variant tier fl w = elim (in_process tier) [
    | true ↦ (let (how, w') = host.exec tier w in concluded how fl w')
    | false ↦ run_forked fl w
  ]
