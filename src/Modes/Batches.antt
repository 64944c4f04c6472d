-- ===== src/Modes/Batches.antt =====
-- modes.py, `subinterp`: what comes of a batch, with and without a wait that times out.
use tiderace.Base.{All, Dict, Elem, List, Option, Str, [], none, some, ◌∷◌, ◌≡◌, ◌⊎◌}
use tiderace.Results.{Frame, errored}
use tiderace.Modes.Subinterp.{Handled, Task, exited, results}
use tiderace.Modes.Answering.{answered_ids, ids_of}

-- The answers that a batch collects, unless a wait times out before the last.
unfoldable pub taken : List Task → List (Option Frame) → Option (List Frame)
taken [] waits = some []
taken (t ∷ rounds) [] = none
taken (t ∷ rounds) (none ∷ waits) = none
taken (t ∷ rounds) (some f ∷ waits) = elim (taken rounds waits) [
  | none ↦ none
  | some fs ↦ some (f ∷ fs)
]

-- An answer that the batch was given, or the error of a task that no answer came for.
abbrev pub IsAnswer : List (Option Frame) → Frame → Type 0
IsAnswer waits f = Elem (some f) waits ⊎ ((text : Str) × (f ≡ errored f.node_id text))

-- What comes of a batch: an answer to each of its tasks, in their order, each of them one that the
-- waits gave or an error.
abbrev pub Answers : List Task → List (Option Frame) → Handled → Type 0
Answers batch waits r =
    (fs : List Frame) × ((r ≡ results fs) ⊎ (r ≡ exited fs))
    × (answered_ids fs ≡ ids_of batch)
    × All (IsAnswer waits) fs

-- The same of what was collected so far.
abbrev AreAnswers : List (Option Frame) → Dict Frame → Type 0
AreAnswers waits = All (λ (e : Str × Frame). IsAnswer waits e.1)
