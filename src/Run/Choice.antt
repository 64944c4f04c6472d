-- ===== src/Run/Choice.antt =====
-- What the gates let through, and that deciding `-k` before the cases exist changes nothing.
use tiderace.Base.{
  All, Bool, List, Option, Option-cases, Str, [], arith, false, inl, inr, none, refl, some, suc,
  true, ℕ, ◌∷◌, ◌≡◌,
}
use tiderace.Selection.{Selection, is_false, keyword_verdict, marker_allows, unknown_marks}
use tiderace.Selection.Verdicts.{CaseNames, keyword_verdict-stable}
use tiderace.Run.{
  Asked, Style, case_verdict, empty_with, fixture_gate, gate, go, import_gate, indices_where,
  inherits, is_fixture_node, keyword_gate, names_gate, selected, style_gate,
}

module _ (lower : Str → Str) (s : Selection) {W : Type 0} (ask : Asked W) (node : Str) where
  abbrev pub node_verdict : List Str → Option Bool
  node_verdict names = keyword_verdict lower s (ask.keyword_names node names) false

  names_gate-go :
      (names names' : List Str) (v : Option Bool)
      → names_gate lower s ask node names' ≡ go names v
      → (names' ≡ names)
        × (unknown_marks s ask.plugin_marks names ≡ [])
        × (marker_allows s names ≡ true)
        × (v ≡ node_verdict names)
        × (is_false v ≡ false)
  unfolding names_gate keyword_gate empty_with
  names_gate-go names names' v h = ground arith

  -- What holds of a node that the gates let through.
  pub record IsLetThrough (style : Style) (w : W) (names : List Str) (v : Option Bool)
      : Type 0 where
    pub collected : ask.ignored ≡ false
    pub no_dir_error : ask.dir_error ≡ none
    pub no_dir_skip : ask.dir_skip ≡ none
    pub own_style : inherits style ≡ none
    pub no_fixture : (is_fixture_node lower s ask node style w).0 ≡ false
    pub known : unknown_marks s ask.plugin_marks names ≡ []
    pub marked : marker_allows s names ≡ true
    pub verdict : v ≡ node_verdict names
    pub undecided_or_yes : is_false v ≡ false

  indices_where-All :
      (f : Str → Bool) (i : ℕ) (ids : List Str)
      → All (λ id. f id ≡ true) ids
      → indices_where (λ id. true) i ids ≡ indices_where f i ids
  unfolding indices_where
  indices_where-All f i [] h = refl
  indices_where-All f i (id ∷ ids) h =
      let ih = indices_where-All f (suc i) ids h.1 in ground (arith, h.0)

  case_verdict-stable :
      (names : List Str) (id : Str)
      → CaseNames lower (ask.keyword_names node names) (ask.keyword_names id names)
      → node_verdict names ≡ some true
      → case_verdict lower s ask node names id ≡ true
  unfolding case_verdict
  case_verdict-stable names id c h =
      rw
        (keyword_verdict-stable lower s (ask.keyword_names node names) (ask.keyword_names id names)
          true true c h)
        refl

  All-map :
      (P Q : Str → Type 0) (ids : List Str) → ((id : Str) → P id → Q id) → All P ids → All Q ids
  All-map P Q [] f h = tt
  All-map P Q (id ∷ ids) f h = (f id h.0, All-map P Q ids f h.1)

  -- Where the names of every case hold those of the node, the cases that run are those whose own full
  -- id `-k` selects: settling the verdict before the cases exist only saves work.
  pub selected-case_verdict :
      (names ids : List Str)
      → is_false (node_verdict names) ≡ false
      → All (λ id. CaseNames lower (ask.keyword_names node names) (ask.keyword_names id names)) ids
      → selected lower s ask node names (node_verdict names) ids
        ≡ indices_where (case_verdict lower s ask node names) 0 ids
  unfolding selected
  selected-case_verdict names ids h c = elim (Option-cases (node_verdict names)) [
    | inl open_e ↦ rw (open_e, selected) refl
    | inr (false, e) ↦ absurd (ground arith)
    | inr (true, e) ↦
        rw (e, selected)
          (indices_where-All (case_verdict lower s ask node names) 0 ids (
            All-map
              (λ id. CaseNames lower (ask.keyword_names node names) (ask.keyword_names id names))
              (λ id. case_verdict lower s ask node names id ≡ true) ids
              (λ id n. case_verdict-stable names id n e) c))
  ]

  gate-go :
      (style : Style) (w : W) (names : List Str) (v : Option Bool)
      → (gate lower s ask node style w).0 ≡ go names v
      → (ask.ignored ≡ false)
        × (ask.dir_error ≡ none)
        × (ask.dir_skip ≡ none)
        × ((style_gate lower s ask node style w).0 ≡ go names v)
  unfolding gate
  gate-go style w names v h = ground arith

  style_gate-go :
      (style : Style) (w : W) (names : List Str) (v : Option Bool)
      → (style_gate lower s ask node style w).0 ≡ go names v
      → (inherits style ≡ none) × ((fixture_gate lower s ask node style w).0 ≡ go names v)
  unfolding style_gate
  style_gate-go style w names v h = ground arith

  fixture_gate-go :
      (style : Style) (w : W) (names : List Str) (v : Option Bool)
      → (fixture_gate lower s ask node style w).0 ≡ go names v
      → ((is_fixture_node lower s ask node style w).0 ≡ false)
        × ((import_gate lower s ask node (is_fixture_node lower s ask node style w).1).0
            ≡ go names v)
  unfolding fixture_gate
  fixture_gate-go style w names v h = ground arith

  import_gate-go :
      (w : W) (names : List Str) (v : Option Bool)
      → (import_gate lower s ask node w).0 ≡ go names v
      → names_gate lower s ask node (ask.mark_names (ask.import_module w).1).0 ≡ go names v
  unfolding import_gate
  import_gate-go w names v h = ground arith

  -- A node goes on to be planned only if no gate answers for it: it is collected, its directories are
  -- sound, it is a test of its own, its marks are known and wanted, and `-k` does not rule it out.
  gate-IsLetThrough :
      (style : Style) (w : W) (names : List Str) (v : Option Bool)
      → (gate lower s ask node style w).0 ≡ go names v
      → IsLetThrough style w names v
  gate-IsLetThrough style w names v h =
      let (collected, no_error, no_skip, h1) = gate-go style w names v h in
      let (own, h2) = style_gate-go style w names v h1 in
      let (no_fixture, h3) = fixture_gate-go style w names v h2 in
      let (_, known, marked, verdict, not_no) =
        names_gate-go names _ v
          (import_gate-go (is_fixture_node lower s ask node style w).1 names v h3) in
      record {
        collected = collected;
        no_dir_error = no_error;
        no_dir_skip = no_skip;
        own_style = own;
        no_fixture = no_fixture;
        known = known;
        marked = marked;
        verdict = verdict;
        undecided_or_yes = not_no;
      }
