-- ===== src/Run/Node.antt =====
-- engine.py: `Engine.run`, from the gates of a node to its response, and `_clean_room_handoff`.
use tiderace.Base.{
  Bool, Dict, List, Option, Str, [], any, false, if◌then◌else◌, inl, inr, is_nil, none, not, some,
  strip, true, ℕ, ◌&&◌, ◌||◌, ◌∷◌, ◌⊎◌,
}
use tiderace.Marks.{Mark}
use tiderace.Results.{Frame, Verdict, note_import_history}
use tiderace.Selection.{Selection}
use tiderace.Tiers.{Probe, Routing, Tier, VariantResult, assemble, disturbs, module_child, route}
use tiderace.Run.Gate.{Asked, Gate, Style, gate, go, respond, to_inherited}
use tiderace.Run.Cases.{Executed, Runner, broken, execute, ran, responded}
use tiderace.Run.Child.{Flags, drift_text}

-- What `run` reads of a `Plan`, its marks normalised.
pub record Plan (V : Type 0) : Type 0 where
  pub indirect : List Str
  pub variant_ids : List Str
  pub selected_cases : List ℕ
  pub case_kwargs_list : List (Dict V)
  pub combos : List (Dict V)
  pub parametrized_node : Bool
  pub native_marks : List Mark
  pub pytest_marks : List Mark
  pub case_keywords : Str → List Str

-- The rest of the engine: what plans and runs the cases of a node, in a state `W` of its own.
pub record NodeHost (V W : Type 0) : Type 0 where
  pub count_run : W → W
  pub nodes_run : W → ℕ
  pub inherited : Bool → W → Option Frame × W
  pub plan : List Str → Option Bool → W → (Frame ⊎ Plan V) × W
  pub routing : W → Routing
  pub probe : Probe W
  pub case_runner : Tier → Runner V W
  pub run_in_child : W → Frame × W
  pub flags : W → Flags
  pub clean_run : W → Option Frame × W
  pub clean_room : Bool
  pub forkless : Bool
  pub history_note : Str

-- `f"disturbed interpreter state: {self._disturbance}"`, if there is one
unfoldable pub handed_verdict : Option Str → Verdict → Verdict
handed_verdict none v = record v { pure_flag = some false }
handed_verdict (some []) v = record v { pure_flag = some false }
handed_verdict (some (c ∷ s)) v = record {
  pure_flag = some false;
  impurity = some (drift_text (c ∷ s));
}

-- The clean room's answer stands in for a node that disturbed this process.
unfoldable pub handed_over : Str → Flags → ℕ → Frame → Frame
unfolding note_import_history handed_verdict
handed_over note fl runs clean =
    note_import_history note
      (record clean {
        must_fork = some true;
        verdict = handed_verdict fl.disturbance clean.verdict;
      })
      runs true

-- `tier is Tier.MODULE_CHILD`
abbrev pub is_module_child : Tier → Bool
is_module_child module_child = true
is_module_child _ = false

-- How the handoff ends: there is nothing better, the clean room's response, or an exception.
pub data Handoff : Type 0 where
  not_handed raising : Handoff
  handed : Frame → Handoff

-- `r.detail.strip().splitlines()[-1]` raises: there is a detail, and it has no line.
unfoldable pub is_blank : VariantResult → Bool
unfolding strip
is_blank r = not (is_nil r.detail) && is_nil (strip r.detail)

module _ {V W : Type 0} (host : NodeHost V W) (node : Str) where
  -- `_clean_room_handoff`; the warning reads the last line of every detail.
  unfoldable pub clean_room_handoff : List VariantResult → W → Handoff × W
  unfolding handed_over is_blank
  clean_room_handoff results w =
      if not host.clean_room || (host.forkless || (host.flags w).overran)
      then (not_handed, w)
      else if any is_blank results
      then (raising, w)
      else (let (clean, w') = host.clean_run w in
          (
            elim clean [
              | none ↦ not_handed
              | some f ↦ handed (handed_over host.history_note (host.flags w) (host.nodes_run w) f)
            ],
            w',
          ))

  -- The response of this process, `none` being an exception, or the clean room's if a case disturbed it.
  unfoldable pub settled : List VariantResult → Frame → W → Option Frame × W
  unfolding clean_room_handoff note_import_history
  settled results resp w = elim (any disturbs results) [
    | false ↦ (some (note_import_history host.history_note resp (host.nodes_run w) false), w)
    | true ↦
        (let (end, w') = clean_room_handoff results w in
          (
            elim end [
              | not_handed ↦
                  some (note_import_history host.history_note resp (host.nodes_run w') false)
              | raising ↦ none
              | handed f ↦ some f
            ],
            w',
          ))
  ]

  -- What follows `_execute`; `none` is an exception.
  unfoldable pub answer_of : Plan V → Executed → W → Option Frame × W
  unfolding settled assemble
  answer_of plan (responded f) w = (some f, w)
  answer_of plan broken w = (none, w)
  answer_of plan (ran results) w =
      elim (assemble node results plan.parametrized_node plan.native_marks plan.pytest_marks
        plan.case_keywords) [ none ↦ (none, w) | some resp ↦ settled results resp w ]

  unfoldable pub run_plan : Plan V → W → Option Frame × W
  unfolding route execute answer_of
  run_plan plan w =
      let (tier, w1) = route (host.routing w) host.probe w in
      elim (is_module_child tier) [
        | true ↦ (let (f, w2) = host.run_in_child w1 in (some f, w2))
        | false ↦
            (let (executed, w2) =
                execute (host.case_runner tier) node plan.indirect plan.variant_ids
                  plan.selected_cases plan.case_kwargs_list plan.combos 0 [] w1 in
              answer_of plan executed w2)
      ]

  unfoldable pub run_gated : Gate → W → Option Frame × W
  unfolding run_plan
  run_gated (respond f) w = (some f, w)
  run_gated (to_inherited own_too) w = host.inherited own_too w
  run_gated (go names verdict) w =
      let (planned_node, w') = host.plan names verdict w in
      elim planned_node [ inl f ↦ (some f, w') | inr plan ↦ run_plan plan w' ]

  -- `Engine.run`
  unfoldable pub run_node : (Str → Str) → Selection → Asked W → Style → W → Option Frame × W
  unfolding gate run_gated
  run_node lower s ask style w =
      let (g, w') = gate lower s ask node style (host.count_run w) in run_gated g w'
