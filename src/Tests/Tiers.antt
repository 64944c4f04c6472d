-- ===== src/Tests/Tiers.antt =====
-- tiers.py at one routing for each condition, and at a node of two cases.
use tiderace.Base.{List, Option, Str, [], codes, false, none, refl, some, suc, true, ℕ, ◌∷◌, ◌≡◌}
use tiderace.Results.{Frame, impure, passed, pure}
use tiderace.Tiers.{Probe, Routing, VariantResult, assemble, in_process, restore_tier, route}
use tiderace.Tiers.Routes.{route_sound}

-- Under `--no-fork` with the snapshot ladder, for a node that nothing is known of.
abbrev laddered : Routing
laddered = record {
  fork_available = true;
  in_module_child = false;
  module_child_holds_module = false;
  no_fork = true;
  restore = true;
  force_no_fork = false;
  trusted_pure = false;
  recorded_must_fork = false;
}

-- Counts its calls, and answers that the module can be restored.
abbrev yes_probe : Probe ℕ
yes_probe n = (some true, suc n)

route_sound_example : (some true ≡ some true) × ((route laddered yes_probe 0).0 ≡ restore_tier)
unfolding route in_process
route_sound_example = route_sound laddered yes_probe 0 refl refl refl

-- Nothing forks here, and the node was recorded as a disturber.
abbrev forkless : Routing
forkless = record laddered { fork_available = false; recorded_must_fork = true; no_fork = false }

abbrev nested : Routing
nested = record laddered { in_module_child = true; no_fork = false; recorded_must_fork = true }

abbrev first_case : VariantResult
first_case = record {
  variant_id = codes "t[0]";
  outcome = passed;
  detail = [];
  coverage = (codes "a.py", 3 ∷ 1 ∷ []) ∷ [];
  purity = pure;
  disturbed = false;
  duration_ms = 2;
}

abbrev second_case : VariantResult
second_case = record {
  variant_id = codes "t[1]";
  outcome = passed;
  detail = [];
  coverage = (codes "a.py", 2 ∷ []) ∷ [];
  purity = impure (codes "wrote x");
  disturbed = false;
  duration_ms = 1;
}

abbrev both_cases : List VariantResult
both_cases = first_case ∷ second_case ∷ []

abbrev no_keywords : Str → List Str
no_keywords s = []

abbrev both_frame : Option Frame
both_frame = assemble (codes "t") both_cases true [] [] no_keywords

abbrev passed_frame : Frame
passed_frame = record {
  node_id = codes "t";
  outcome = passed;
  detail = some [];
  keywords = some [];
  expanded = none;
  variants = none;
  coverage = some ((codes "a.py", 1 ∷ 3 ∷ []) ∷ []);
  verdict = record { pure_flag = some true; impurity = none };
  must_fork = none;
  skip_origin = none;
}
