-- ===== src/Run/Cases.antt =====
-- engine.py: `_execute`, the walk over a plan's fixture combinations and cases.
use tiderace.Base.{
  Bool, Dict, List, Option, Str, [], codes, false, index_in, keep, length, none, not, some, str_eq,
  suc, true, zero, ℕ, ◌++◌, ◌+◌, ◌||◌, ◌∷◌,
}
use tiderace.Plan.{update}
use tiderace.Tiers.{VariantResult}
use tiderace.Results.{Frame, errored}

-- `variant_ids[i]`; an index past the end is an `IndexError`.
unfoldable pub get_elem? : {A : Type 0} → List A → ℕ → Option A
get_elem? [] i = none
get_elem? (a ∷ as') zero = some a
get_elem? (a ∷ as') (suc i) = get_elem? as' i

unfoldable pub in_range : ℕ → ℕ → List ℕ → Bool
in_range i zero chosen = false
in_range i (suc n) chosen = index_in i chosen || in_range (suc i) n chosen

-- How the set-up of a combination's wider fixtures and the run of a case act on the engine: `sync`
-- gives the text of what it raised.
pub record Runner (V W : Type 0) : Type 0 where
  pub sync : W → Option Str × W
  pub run_variant : Dict V → Dict V → Str → W → VariantResult × W

-- The results, or the response of a node whose fixtures could not be set up; `broken` is an exception.
pub data Executed : Type 0 where
  ran : List VariantResult → Executed
  responded : Frame → Executed
  broken : Executed

abbrev pub setup_text : Str
setup_text = codes "error setting up fixtures: "

abbrev is_among : List Str → Str → Bool
is_among [] k = false
is_among (n ∷ ns) k = str_eq n k || is_among ns k

-- The fixture parameters and the arguments of one case: a value whose name is `indirect` goes to the
-- fixture of that name, and not to the test.
unfoldable pub split_case : {V : Type 0} → List Str → Dict V → Dict V → Dict V × Dict V
unfolding update
split_case indirect combo kwargs = (
  update combo (keep (λ (k, _). is_among indirect k) kwargs),
  keep (λ (k, _). not (is_among indirect k)) kwargs,
)

module _ {V W : Type 0} (runner : Runner V W) (node : Str) (indirect : List Str) (ids : List Str)
    (selected : List ℕ) where
  -- The loop over the cases of one combination: the results so far, newest last, and the next index;
  -- `none` is an exception.
  unfoldable pub run_cases :
      Dict V → List (Dict V) → ℕ → List VariantResult → W → Option (List VariantResult × ℕ) × W
  unfolding get_elem? split_case
  run_cases combo [] i results w = (some (results, i), w)
  run_cases combo (k ∷ ks) i results w = elim (index_in i selected) [
    | false ↦ run_cases combo ks (suc i) results w
    | true ↦ elim (get_elem? ids i) [
      | none ↦ (none, w)
      | some id ↦
          let (case_combo, test_kwargs) = split_case indirect combo k in
          let (r, w') = runner.run_variant case_combo test_kwargs id w in
          run_cases combo ks (suc i) (results ++ record r { variant_id = id } ∷ []) w'
    ]
  ]

  -- `_execute`
  unfoldable pub execute : List (Dict V) → List (Dict V) → ℕ → List VariantResult → W → Executed × W
  unfolding in_range run_cases errored
  execute kwargs [] i results w = (ran results, w)
  execute kwargs (combo ∷ combos) i results w = elim (in_range i (length kwargs) selected) [
    | false ↦ execute kwargs combos (i + length kwargs) results w
    | true ↦
        let (raised, w') = runner.sync w in
        elim raised [
          | some text ↦ (responded (errored node (setup_text ++ text)), w')
          | none ↦
              let (done, w'') = run_cases combo kwargs i results w' in
              elim done [
                | none ↦ (broken, w'')
                | some (results', i') ↦ execute kwargs combos i' results' w''
              ]
        ]
  ]
