-- ===== src/Tests/Children.antt =====
-- engine.py at a child that answers and at one that hangs, at module children that die, and at a class
-- whose inherited tests are deselected.

use tiderace.Run.Outcomes.{child_body_bounded, forked_passed}
use tiderace.Base.{
  Option, Str, [], codes, false, if◌then◌else◌, length, none, refl, some, str_eq, suc, true, ℕ, ◌∷◌,
  ◌≡◌, ◌≤◌,
}
use tiderace.Results.{Frame, empty_expansion, passed, pure, response}
use tiderace.Run.{
  ChildHost, Flags, Got, LiveClass, Payload, Ran, Style, VariantHost, answered_by, child_body,
  closed_pipe, completed, decoded, detail_limit, exited, forked, payload_of, read_reply,
}

abbrev fine : Ran
fine = record { outcome = passed; detail = codes "ok"; coverage = []; purity = pure }

abbrev told : Got
told = record {
  reply = some (child_body (some fine) []);
  timed_out = false;
  status = exited 0;
  received = 40;
  decode_error = none;
}

abbrev hung : Got
hung = record told { reply = none; timed_out = true; received = 0 }

forked_passed_example :
    (p : Payload) × (told.reply ≡ some p)
    × (p.outcome ≡ passed)
    × (told.timed_out ≡ false)
    × (told.decode_error ≡ none)
unfolding forked answered_by read_reply child_body payload_of
forked_passed_example = forked_passed told refl

child_body_bounded_example :
    (d : Str) × ((child_body (some fine) []).detail ≡ some d) × (length d ≤ detail_limit)
child_body_bounded_example = child_body_bounded (some fine) []

-- In this process every case passes and leaves a changed setting behind; a forked one is told of.
abbrev leaking : VariantHost ℕ
leaking = record {
  exec = λ tier w. (completed fine (some (codes "os.environ")), suc w);
  fork_child = λ w. (told, suc w);
  fork_available = true;
  no_fork = false;
  has_clean_room = false;
}

abbrev calm : Flags
calm = record { disturbed = false; disturbance = none; overran = false }

-- The state is the module of the live child; the child of the module `bad` dies on every test.
abbrev mortal : ChildHost (Option Str)
mortal = record {
  teardown_stale = λ node w. (true, w);
  spawn_child = λ key w. (true, some key);
  close_child = λ w. none;
  send = λ node w. (true, w);
  receive = λ w. (
    elim w [
      | none ↦ closed_pipe
      | some key ↦
          if str_eq key (codes "bad") then closed_pipe else decoded (response key passed none none)
    ],
    w,
  );
  reap_child = λ w. (codes "exit 1", none);
  kill_child = λ w. none;
}

-- Of its two inherited tests the class defines one itself.
abbrev heir : LiveClass
heir = record {
  class_name = codes "TestHeir";
  is_test_case = false;
  own_names = codes "test_own" ∷ [];
  all_names = (codes "setup", true) ∷ (codes "test_b", true) ∷ (codes "test_own", true) ∷ [];
}

-- Every child is deselected.
abbrev deselecting : Str → Style → ℕ → (Frame × ℕ) × ℕ
deselecting node style w = ((empty_expansion node, 1), suc w)
