-- ===== src/Plan/Texts.antt =====
-- The text within a case's brackets: `_variant_parts` of plan.py.
use tiderace.Base.{Dict, List, Option, Str, [], lookup, none, or_else, some, ℕ, ◌++◌, ◌∷◌}
use tiderace.Plan.{CaseId, generated, join, pieces, whole}

module _ {V : Type 0} (id_part : V → Str → ℕ → Str) where
  abbrev part_at : Dict ℕ → ℕ → Str → V → Str
  part_at at_positions index k v = id_part v k (or_else (lookup k at_positions) index)

  -- The parts of the parametrised fixtures: an author's id wins.
  unfoldable pub combo_parts : Dict V → Dict Str → Dict ℕ → ℕ → List Str
  combo_parts [] combo_ids at_positions index = []
  combo_parts ((k, v) ∷ combo) combo_ids at_positions index =
      or_else (lookup k combo_ids) (part_at at_positions index k v)
      ∷ combo_parts combo combo_ids at_positions index

  unfoldable pub generated_parts : Dict V → Dict ℕ → ℕ → List Str
  generated_parts [] at_positions index = []
  generated_parts ((k, v) ∷ case_kwargs) at_positions index =
      part_at at_positions index k v ∷ generated_parts case_kwargs at_positions index

  -- `[... for n in names if n in case_kwargs]`
  unfoldable pub named_parts : List Str → Dict V → Dict ℕ → ℕ → List Str
  named_parts [] case_kwargs at_positions index = []
  named_parts (n ∷ ns) case_kwargs at_positions index = elim (lookup n case_kwargs) [
    | none ↦ named_parts ns case_kwargs at_positions index
    | some v ↦ part_at at_positions index n v ∷ named_parts ns case_kwargs at_positions index
  ]

  unfoldable pub piece_parts : List (List Str × Option Str) → Dict V → Dict ℕ → ℕ → List Str
  unfolding named_parts
  piece_parts [] case_kwargs at_positions index = []
  piece_parts ((names, some piece) ∷ more) case_kwargs at_positions index =
      piece ∷ piece_parts more case_kwargs at_positions index
  piece_parts ((names, none) ∷ more) case_kwargs at_positions index =
      named_parts names case_kwargs at_positions index
      ++ piece_parts more case_kwargs at_positions index

  unfoldable pub case_parts : CaseId → Dict V → Dict ℕ → ℕ → List Str
  unfolding generated_parts piece_parts
  case_parts (whole text) case_kwargs at_positions index = text ∷ []
  case_parts (pieces ps) case_kwargs at_positions index =
      piece_parts ps case_kwargs at_positions index
  case_parts generated case_kwargs at_positions index =
      generated_parts case_kwargs at_positions index

  -- `_variant_parts`
  unfoldable pub variant_parts : Dict V → Dict Str → Dict V → ℕ → CaseId → Dict ℕ → Dict ℕ → Str
  unfolding combo_parts case_parts join
  variant_parts combo combo_ids case_kwargs index explicit combo_pos case_pos = join (
      combo_parts combo combo_ids combo_pos index ++ case_parts explicit case_kwargs case_pos index)
