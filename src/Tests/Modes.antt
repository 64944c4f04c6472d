-- ===== src/Tests/Modes.antt =====
-- modes.py: a batch of two tasks, and the requests of a connection.
use tiderace.Base.{
  List, Option, Str, [], any, codes, contains_str, dirname, drop_slashes, ends_with, eqb, false,
  head_part, insert, lookup, none, or_whole, refl, some, starts_with, str_eq, true, ℕ, ◌+◌, ◌∷◌,
  ◌≡◌, ◌⊎◌,
}
use tiderace.Results.{Frame, passed, response}
use tiderace.Modes.Subinterp.{Task, collect_answers, gather, gave, handle, results}
use tiderace.Modes.Pool.{
  Arrival, handle_request, reap_rest, serve_pool_persistent, serve_requests, sweep,
}
use tiderace.Modes.Reaping.{serve_pool_persistent-reaped, times}
use tiderace.Isolation.Registries.{basename}
use tiderace.Modes.Probe.{
  call_name, candidates, first_call, first_touch, join_path, touches_process_globals,
}

abbrev task_a : Task
task_a = record { node_id = codes "a"; style = codes "function"; deadline_ms = some 20000 }

abbrev task_b : Task
task_b = record { node_id = codes "b"; style = codes "function"; deadline_ms = none }

abbrev answer_a : Frame
answer_a = response (codes "a") passed none none

abbrev answer_b : Frame
answer_b = response (codes "b") passed none none

abbrev two_tasks : List Task
two_tasks = task_a ∷ task_b ∷ []

abbrev no_text : ℕ → Str
no_text n = codes "30"

-- The answers come in the other order, and are given in the order of the tasks.
both_answered :
    handle no_text two_tasks (some answer_b ∷ some answer_a ∷ [])
    ≡ results (answer_a ∷ answer_b ∷ [])
unfolding handle collect_answers gave gather lookup insert str_eq response
both_answered = refl

abbrev one_run : List Arrival
one_run =
    record {
      request = record { ping = false; spawn = 2 };
      finished = λ p. false;
      children = 11 ∷ 12 ∷ [];
      fork_raises = false;
    }
    ∷ record {
      request = record { ping = true; spawn = 0 };
      finished = λ p. eqb p 11;
      children = [];
      fork_raises = false;
    }
    ∷ []

-- The second request sweeps one worker; the other is waited for at the end.
both_reaped : (serve_pool_persistent one_run).reaped ≡ 11 ∷ 12 ∷ []
unfolding serve_pool_persistent serve_requests handle_request sweep reap_rest
both_reaped = refl

serve_pool_persistent-reaped_example :
    ((p : ℕ)
      → times p (serve_pool_persistent one_run).reaped
          + times p (serve_pool_persistent one_run).lost
        ≡ times p (serve_pool_persistent one_run).forked)
    × (((serve_pool_persistent one_run).lost ≡ [])
        ⊎ (any (λ (e : Arrival). e.fork_raises) one_run ≡ true))
serve_pool_persistent-reaped_example = serve_pool_persistent-reaped one_run

abbrev chdir_text : Str → Option Str
chdir_text path = some (codes "monkeypatch.chdir(tmp)")

found_chdir :
    touches_process_globals chdir_text (codes "/r") (codes "t/test_a.py")
    ≡ codes "chdir in test_a.py"
unfolding touches_process_globals first_touch candidates join_path dirname first_call call_name
    basename contains_str starts_with ends_with str_eq drop_slashes head_part or_whole
found_chdir = refl
