-- ===== src/Tests/Results.antt =====
-- results.py at a node of three cases, and at a failure that mentions `sys.modules`.
use tiderace.Base.{[], codes, none, refl, some, ◌∷◌, ◌≡◌}
use tiderace.Results.{Frame, failed, no_verdict, passed, severity, sys_modules, worst, worst_from}

worst_first :
    worst ((passed, []) ∷ (failed, codes "a") ∷ (failed, codes "b") ∷ []) ≡ some (failed, codes "a")
unfolding worst worst_from severity
worst_first = refl

abbrev stale : Frame
stale = record {
  node_id = codes "t";
  outcome = failed;
  detail = some sys_modules;
  keywords = none;
  expanded = none;
  variants = none;
  coverage = none;
  verdict = no_verdict;
  must_fork = none;
  skip_origin = none;
}
