-- ===== src/Run/Gate.antt =====
-- engine.py: `_gate`, and the part of `_plan` that decides which cases run.
use tiderace.Base.{
  Bool, List, Option, Str, [], codes, eqb, false, if◌then◌else◌, index_in, length, none, some, suc,
  true, ℕ, ◌&&◌, ◌++◌, ◌∷◌,
}
use tiderace.Fixtures.{module_of}
use tiderace.Results.{Frame, Variant, empty_expansion, errored, skip_frame, skipped, variant}
use tiderace.Selection.{
  Selection, is_false, is_unknown, keyword_verdict, marker_allows, truthy, unknown_marks,
}

-- The styles of a node that the engine tells apart.
pub data Style : Type 0 where
  plain_function method_of_class unittest_method inherited_methods unresolved_class : Style

-- How the import of a node's module ends: also with a skip, or with any other exception.
pub data Imported : Type 0 where
  imported unimportable : Imported
  skip_at_import : Str → Imported

-- What the configuration and the discovery say of a node, and what it takes user code to know.
pub record Asked (W : Type 0) : Type 0 where
  pub ignored : Bool
  pub dir_error : Option Str
  pub dir_skip : Option Str
  pub is_fixture : W → Bool × W
  pub import_module : W → Imported × W
  pub mark_names : W → List Str × W
  pub plugin_marks : Option (List Str)
  pub keyword_names : Str → List Str → List Str

-- A ready response, a class whose inherited methods run (and its own too), or the node's mark names
-- and what `-k` says of it.
pub data Gate : Type 0 where
  respond : Frame → Gate
  to_inherited : Bool → Gate
  go : List Str → Option Bool → Gate

abbrev comma_joined : List Str → Str
comma_joined [] = []
comma_joined (s ∷ []) = s
comma_joined (s ∷ t ∷ ts) = s ++ codes ", " ++ comma_joined (t ∷ ts)

unfoldable pub unknown_text : List Str → Str
unknown_text names = comma_joined names ++ codes " not found in `markers` configuration option"

unfoldable pub empty_with : Str → List Str → Frame
unfolding empty_expansion
empty_with node keywords = record (empty_expansion node) { keywords = some keywords }

unfoldable pub skip_from : Str → Str → Str → Frame
unfolding skip_frame
skip_from node reason origin = record (skip_frame node reason none) { skip_origin = some origin }

-- `style in ("inherited_methods", "unresolved_class")`, with `own_too`.
abbrev pub inherits : Style → Option Bool
inherits inherited_methods = some false
inherits unresolved_class = some true
inherits _ = none

-- `{i for i, vid in enumerate(variant_ids) if ...}`, from this index on.
unfoldable pub indices_where : (Str → Bool) → ℕ → List Str → List ℕ
indices_where keeps i [] = []
indices_where keeps i (id ∷ ids) =
    let rest = indices_where keeps (suc i) ids in if keeps id then i ∷ rest else rest

module _ (lower : Str → Str) (s : Selection) {W : Type 0} (ask : Asked W) (node : Str) where
  unfoldable pub keyword_gate : List Str → Option Bool → Gate
  unfolding empty_with
  keyword_gate names verdict = elim (is_false verdict) [
    | true ↦ respond (empty_with node (ask.keyword_names node names))
    | false ↦ go names verdict
  ]

  -- The gates that read the node's mark names: `--strict-markers`, `-m`, `-k`.
  unfoldable pub names_gate : List Str → Gate
  unfolding keyword_gate unknown_marks marker_allows keyword_verdict unknown_text empty_expansion
      errored
  names_gate names = elim (unknown_marks s ask.plugin_marks names) [
    | u ∷ us ↦ respond (errored node (unknown_text (u ∷ us)))
    | [] ↦ elim (marker_allows s names) [
      | false ↦ respond (empty_expansion node)
      | true ↦ keyword_gate names (keyword_verdict lower s (ask.keyword_names node names) false)
    ]
  ]

  unfoldable pub import_gate : W → Gate × W
  unfolding names_gate skip_from
  import_gate w =
      let (how, w') = ask.import_module w in
      elim how [
        | skip_at_import reason ↦ (respond (skip_from node reason (module_of node)), w')
        | imported ↦ (let (names, w'') = ask.mark_names w' in (names_gate names, w''))
        | unimportable ↦ (let (names, w'') = ask.mark_names w' in (names_gate names, w''))
      ]

  -- `_is_fixture_node`: of a unittest method it is not asked.
  unfoldable pub is_fixture_node : Style → W → Bool × W
  is_fixture_node unittest_method w = (false, w)
  is_fixture_node _ w = ask.is_fixture w

  unfoldable pub fixture_gate : Style → W → Gate × W
  unfolding is_fixture_node import_gate empty_expansion
  fixture_gate style w =
      let (fixture, w') = is_fixture_node style w in
      elim fixture [ true ↦ (respond (empty_expansion node), w') | false ↦ import_gate w' ]

  unfoldable pub style_gate : Style → W → Gate × W
  unfolding fixture_gate
  style_gate style w = elim (inherits style) [
    | some own_too ↦ (to_inherited own_too, w)
    | none ↦ fixture_gate style w
  ]

  -- `_gate`
  unfoldable pub gate : Style → W → Gate × W
  unfolding style_gate empty_expansion errored skip_from
  gate style w = elim ask.ignored [
    | true ↦ (respond (empty_expansion node), w)
    | false ↦ elim ask.dir_error [
      | some e ↦ (respond (errored node e), w)
      | none ↦ elim ask.dir_skip [
        | some reason ↦ (respond (skip_from node reason (module_of node)), w)
        | none ↦ style_gate style w
      ]
    ]
  ]

  -- `-k` on the full id of a case.
  unfoldable pub case_verdict : List Str → Str → Bool
  unfolding keyword_verdict
  case_verdict names id = truthy (keyword_verdict lower s (ask.keyword_names id names) true)

  -- `selected` of `_plan`.
  unfoldable pub selected : List Str → Option Bool → List Str → List ℕ
  unfolding indices_where case_verdict
  selected names verdict ids = elim (is_unknown verdict) [
    | true ↦ indices_where (case_verdict names) 0 ids
    | false ↦ indices_where (λ id. true) 0 ids
  ]

  pub data Planned : Type 0 where
    answered : Frame → Planned
    cases : List ℕ → Planned

  -- One skipped variant for each selected case.
  unfoldable pub skip_variants : Str → List Str → List ℕ → ℕ → List Str → List Variant
  unfolding variant
  skip_variants reason names chosen i [] = []
  skip_variants reason names chosen i (id ∷ ids) =
      let rest = skip_variants reason names chosen (suc i) ids in
      if index_in i chosen
      then variant id skipped reason 0 (ask.keyword_names id names) ∷ rest
      else rest

  unfoldable pub skip_response : Str → Bool → List Str → List Str → List ℕ → Frame
  unfolding skip_frame skip_variants
  skip_response reason parametrized names ids chosen =
      record (skip_frame node reason (some (ask.keyword_names node names))) {
        variants = if parametrized then some (skip_variants reason names chosen 0 ids) else none;
      }

  -- The end of `_plan`: nothing selected, a skip of the whole node, or the cases to run.
  unfoldable pub planned : List Str → Option Bool → Option Str → Bool → List Str → Planned
  unfolding selected skip_response empty_with
  planned names verdict skip_reason parametrized ids =
      let chosen = selected names verdict ids in
      if is_unknown verdict && eqb (length chosen) 0
      then answered (empty_with node (ask.keyword_names node names))
      else elim skip_reason [
        | some reason ↦ answered (skip_response reason parametrized names ids chosen)
        | none ↦ cases chosen
      ]
