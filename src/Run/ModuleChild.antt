-- ===== src/Run/ModuleChild.antt =====
-- engine.py: `_module_child_run` and the life of the one live module child.
use tiderace.Base.{
  Bool, Option, Str, codes, false, if◌then◌else◌, none, some, str_eq, true, ℕ, ◌++◌,
}
use tiderace.Plan.{decimal}
use tiderace.Results.{Frame, errored}

-- What the parent reads before the deadline: nothing in time, the end of the pipe, a frame that
-- decodes, or bytes that do not (with the text of the exception and how many they were).
pub data Heard : Type 0 where
  overdue closed_pipe : Heard
  decoded : Frame → Heard
  garbled : Str → ℕ → Heard

-- The processes and pipes under a module child, and the closing of the stale wider fixtures. A child is
-- handed the key of its module. The closing and the spawn can raise, which is the answer false.
pub record ChildHost (W : Type 0) : Type 0 where
  pub teardown_stale : Str → W → Bool × W
  pub spawn_child : Str → W → Bool × W
  pub close_child : W → W
  -- whether the request could be written to the live child's pipe
  pub send : Str → W → Bool × W
  pub receive : W → Heard × W
  -- `_exit_text` of the status that the reaped child left
  pub reap_child : W → Str × W
  pub kill_child : W → W

abbrev pub gone_text : Str → Str
gone_text status =
    codes "the module's child process was gone before this test could be sent to it ("
    ++ status
    ++ codes ")"

abbrev pub died_text : Str → Str
died_text status =
    codes "the module's child process died running this test ("
    ++ status
    ++ codes "); the module's remaining tests run in a fresh one"

abbrev pub garbled_text : Str → ℕ → Str
garbled_text e n =
    codes "child sent an unreadable result frame ("
    ++ e
    ++ codes "); "
    ++ decimal n
    ++ codes " bytes received"

module _ {W : Type 0} (host : ChildHost W) where
  -- The stale wider fixtures go first, in the process that owns them.
  unfoldable pub fresh_child : Str → Str → W → Bool × W
  fresh_child node key w =
      let (closed, w') = host.teardown_stale node w in
      if closed then host.spawn_child key w' else (false, w')

  -- The child that serves the module: the live one if it is this module's.
  unfoldable pub child_for : Str → Str → Option Str → W → Bool × W
  unfolding fresh_child
  child_for node key none w = fresh_child node key w
  child_for node key (some live) w =
      if str_eq live key then (true, w) else fresh_child node key (host.close_child w)

  -- The frame of a node that was heard of, and the module of the child that stays alive.
  unfoldable pub heard_frame : Str → Str → Heard → W → Frame × Option Str × W
  unfolding errored
  heard_frame node key overdue w = (errored node (codes "timeout"), none, host.kill_child w)
  heard_frame node key closed_pipe w =
      let (status, w') = host.reap_child w in (errored node (died_text status), none, w')
  heard_frame node key (decoded f) w = (f, some key, w)
  heard_frame node key (garbled e n) w = (errored node (garbled_text e n), none, host.kill_child w)

  -- The request to the child and what comes of it.
  unfoldable pub child_answer : Str → Str → W → Frame × Option Str × W
  unfolding heard_frame errored
  child_answer node key w =
      let (sent, w1) = host.send node w in
      elim sent [
        | true ↦ (let (heard, w2) = host.receive w1 in heard_frame node key heard w2)
        | false ↦
            (let (status, w2) = host.reap_child w1 in (errored node (gone_text status), none, w2))
      ]

  -- `_module_child_run`, over the key of the live child's module; there is no frame where an exception
  -- comes out of it, and then no child is on record: another module's was closed before.
  unfoldable pub module_child_run : Str → Str → Option Str → W → Option Frame × Option Str × W
  unfolding child_for child_answer
  module_child_run node key live w =
      let (ready, w') = child_for node key live w in
      elim ready [
        | true ↦ (let (f, live', w2) = child_answer node key w' in (some f, live', w2))
        | false ↦ (none, none, w')
      ]
