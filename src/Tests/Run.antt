-- ===== src/Tests/Run.antt =====
-- engine.py at a parametrized node of two cases under `-k`, and at a node that the clean room takes over.

use tiderace.Run.Settled.{answer_of_must_fork}
use tiderace.Marks.{fold}
use tiderace.Run.Kept.{execute-keep}
use tiderace.Run.Walk.{Runs}
use tiderace.Tiers.{
  VariantResult, assemble, fold_both, purity_loop, route, sorted_coverage, union_coverage,
}
use tiderace.Base.{
  List, Str, [], codes, contains_str, false, inl, inr, keep, none, refl, some, starts_with, strip,
  suc, true, ℕ, ◌∷◌, ◌≡◌,
}
use tiderace.Results.{
  Frame, errored, note_import_history, passed, response, unknown, worst, worst_from,
}
use tiderace.Selection.{
  Selection, evaluate, ident, keyword_matches, keyword_verdict, marker_allows, resolve_keyword,
  unknown_marks,
}
use tiderace.Run.{
  Asked, NodeHost, Plan, Runner, answer_of, case_verdict, clean_room_handoff, drift_text, execute,
  fixture_gate, gate, get_elem?, handed_over, handed_verdict, import_gate, imported, in_range,
  is_blank, is_fixture_node, keyword_gate, names_gate, plain_function, ran, run_cases, run_gated,
  run_node, run_plan, selected, settled, split_case, style_gate,
}
use tiderace.Run.Choice.{node_verdict}

abbrev as_is : Str → Str
as_is s = s

-- `-k a`
abbrev with_a : Selection
with_a = record {
  keyword = some (ident (codes "a"));
  marker = none;
  strict_markers = false;
  declared_marks = [];
}

abbrev node_id : Str
node_id = codes "m"

-- Nothing stands in the way of the node; a case has its id for a keyword, and so does the node.
abbrev willing : Asked ℕ
willing = record {
  ignored = false;
  dir_error = none;
  dir_skip = none;
  is_fixture = λ w. (false, suc w);
  import_module = λ w. (imported, suc w);
  mark_names = λ w. ([], w);
  plugin_marks = none;
  keyword_names = λ id names. id ∷ names;
}

abbrev case_ids : List Str
case_ids = codes "m[a]" ∷ codes "m[b]" ∷ []

-- Every case passes, in a state that counts them.
abbrev passing : Runner Str ℕ
passing = record {
  sync = λ w. (none, w);
  run_variant = λ combo kwargs id w. (
    record {
      variant_id = id;
      outcome = passed;
      detail = [];
      coverage = [];
      purity = unknown;
      disturbed = false;
      duration_ms = 3;
    },
    suc w,
  );
}

execute-keep_example :
    Runs passing node_id [] case_ids
      (selected as_is with_a willing node_id []
        (node_verdict as_is with_a willing node_id [])
        case_ids)
      []
      (keep (case_verdict as_is with_a willing node_id []) case_ids)
      (execute passing node_id [] case_ids
        (selected as_is with_a willing node_id []
          (node_verdict as_is with_a willing node_id [])
          case_ids)
        ([] ∷ [] ∷ [])
        ([] ∷ [])
        0
        []
        0).0
unfolding keyword_verdict evaluate resolve_keyword keyword_matches contains_str starts_with
execute-keep_example =
    execute-keep as_is with_a willing passing node_id [] case_ids [] ([] ∷ [] ∷ []) ([] ∷ []) 0 refl
      ((inl refl, tt), ((inl refl, tt), tt)) refl

-- The case ran in this process and disturbed it; the clean room then answers that it passes.
abbrev disturbing : VariantResult
disturbing = record {
  variant_id = codes "m";
  outcome = passed;
  detail = [];
  coverage = [];
  purity = unknown;
  disturbed = true;
  duration_ms = 3;
}

abbrev one_case : Plan Str
one_case = record {
  indirect = [];
  variant_ids = codes "m" ∷ [];
  selected_cases = 0 ∷ [];
  case_kwargs_list = [] ∷ [];
  combos = [] ∷ [];
  parametrized_node = false;
  native_marks = [];
  pytest_marks = [];
  case_keywords = λ id. [];
}

abbrev roomy : NodeHost Str ℕ
roomy = record {
  count_run = suc;
  nodes_run = λ w. w;
  inherited = λ own_too w. (none, w);
  plan = λ names verdict w. (inr one_case, w);
  routing = λ w. record {
    fork_available = true;
    in_module_child = false;
    module_child_holds_module = false;
    no_fork = false;
    restore = true;
    force_no_fork = true;
    trusted_pure = true;
    recorded_must_fork = false;
  };
  probe = λ w. (some true, w);
  case_runner =
      λ tier. record { sync = λ w. (none, w); run_variant = λ combo kwargs id w. (disturbing, w) };
  run_in_child = λ w. (errored node_id [], w);
  flags =
      λ w. record { disturbed = true; disturbance = some (codes "os.environ"); overran = false };
  clean_run = λ w. (some (response node_id passed none none), w);
  clean_room = true;
  forkless = false;
  history_note = codes "imported earlier";
}

-- From the gates to the clean room's answer.
run_of_disturber :
    (f : Frame) × ((run_node roomy node_id as_is
        (record with_a { keyword = none })
        willing
        plain_function
        0).0
      ≡ some f)
    × (f.must_fork ≡ some true)
    × (f.outcome ≡ passed)
    × (f.verdict
        ≡ record { pure_flag = some false; impurity = some (drift_text (codes "os.environ")) })
unfolding run_node run_gated run_plan answer_of settled clean_room_handoff handed_over
    handed_verdict note_import_history route execute run_cases in_range get_elem? split_case
    assemble worst worst_from fold_both fold gate style_gate fixture_gate is_fixture_node
    import_gate names_gate keyword_gate keyword_verdict unknown_marks marker_allows is_blank strip
    response union_coverage purity_loop sorted_coverage
run_of_disturber = (_, refl, refl, refl, refl)

answer_of_must_fork_example :
    (f : Frame) × ((answer_of roomy node_id one_case (ran (disturbing ∷ [])) 1).0 ≡ some f)
    × (f.must_fork ≡ some true)
unfolding is_blank
answer_of_must_fork_example =
    answer_of_must_fork roomy node_id one_case (disturbing ∷ []) 1 refl refl
