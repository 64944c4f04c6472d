-- ===== src/Modes/Subinterp.antt =====
-- modes.py, `subinterp`: a batch of tasks put on the queue of a pool, and its answers, in input order.
use tiderace.Base.{
  Bool, Dict, List, Option, Str, [], codes, false, if◌then◌else◌, insert, is_some, joined, keep,
  lookup, ltb, map, none, not, or_else, some, true, ℕ, ◌++◌, ◌+◌, ◌∷◌,
}
use tiderace.Results.{Frame, errored}

pub record Task : Type 0 where
  pub node_id : Str
  pub style : Str
  pub deadline_ms : Option ℕ

-- What a worker's run of a task comes to: its response, which may lack its `node_id`, or an exception.
pub data Worked : Type 0 where
  returned : Frame → Bool → Worked
  raised : Str → Worked

-- One round of a worker's loop: a task never goes without its response.
unfoldable pub worker_answer : Task → Worked → Frame
unfolding errored
worker_answer t (returned f true) = f
worker_answer t (returned f false) = record f { node_id = t.node_id }
worker_answer t (raised exc) = errored t.node_id exc

-- A batch is answered by its results, or it is answered and the process exits, or an answer is missing,
-- which is a `KeyError`.
pub data Handled : Type 0 where
  results exited : List Frame → Handled
  missing_key : Handled

abbrev default_deadline : ℕ
default_deadline = 5000

abbrev larger : ℕ → ℕ → ℕ
larger a b = if ltb a b then b else a

-- The longest deadline of the batch, in milliseconds, and the margin.
unfoldable pub budget_ms : List Task → ℕ
budget_ms [] = 15000
budget_ms (t ∷ []) = or_else t.deadline_ms default_deadline + 10000
budget_ms (t ∷ u ∷ ts) =
    larger (or_else t.deadline_ms default_deadline + 10000) (budget_ms (u ∷ ts))

-- `[t["node_id"] for t in batch if t["node_id"] not in collected]`
unfoldable pub pending : List Task → Dict Frame → List Str
unfolding lookup
pending ts collected =
    keep (λ n. not (is_some (lookup n collected))) (map (λ (t : Task). t.node_id) ts)

-- `[collected[t["node_id"]] for t in batch]`
unfoldable pub gather : List Task → Dict Frame → Option (List Frame)
unfolding lookup
gather [] collected = some []
gather (t ∷ ts) collected =
    let rest = gather ts collected in
    elim (lookup t.node_id collected) [
      | none ↦ none
      | some f ↦ elim rest [ none ↦ none | some fs ↦ some (f ∷ fs) ]
    ]

unfoldable pub error_all : (Str → Frame) → List Str → Dict Frame → Dict Frame
unfolding insert
error_all frame_of [] collected = collected
error_all frame_of (n ∷ ns) collected = error_all frame_of ns (insert n (frame_of n) collected)

unfoldable pub timeout_text : Str → List Str → Str
unfolding joined
timeout_text budget nodes =
    codes "no result within "
    ++ budget
    ++ codes
        "s — a test in this batch blocked in a sub-interpreter, where nothing can interrupt it (TID-104); outstanding: "
    ++ joined (codes ", ") nodes

unfoldable pub gave_up : Option (List Frame) → Handled
gave_up none = missing_key
gave_up (some fs) = exited fs

unfoldable pub gave : Option (List Frame) → Handled
gave none = missing_key
gave (some fs) = results fs

-- `budget_text` is the budget in seconds, as `:g` prints it.
module _ (budget_text : ℕ → Str) where
  -- A wait that nothing ended: every task still outstanding is reported as an error.
  unfoldable pub time_out : List Task → Dict Frame → Handled
  unfolding pending error_all timeout_text budget_ms gather gave_up errored
  time_out batch collected =
      let nodes = pending batch collected in
      let detail = timeout_text (budget_text (budget_ms batch)) nodes in
      gave_up (gather batch (error_all (λ n. errored n detail) nodes collected))

  -- The waits, one to a task: each gives the next answer off the queue, or times out. A queue that has
  -- run dry times out too.
  unfoldable pub collect_answers :
      List Task → List Task → List (Option Frame) → Dict Frame → Handled
  unfolding time_out gather gave insert
  collect_answers batch [] waits collected = gave (gather batch collected)
  collect_answers batch (t ∷ rounds) [] collected = time_out batch collected
  collect_answers batch (t ∷ rounds) (none ∷ waits) collected = time_out batch collected
  collect_answers batch (t ∷ rounds) (some f ∷ waits) collected =
      collect_answers batch rounds waits (insert f.node_id f collected)

  unfoldable pub handle : List Task → List (Option Frame) → Handled
  unfolding collect_answers
  handle batch waits = collect_answers batch batch waits []
