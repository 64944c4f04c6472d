-- ===== src/Results/History.antt =====
-- `_note_import_history` of results.py.
use mathlib.Core.Path.{ap₂}
use tiderace.Base.{
  Bool, List, Option, Str, [], ap, arith, contains_str-append, map, none, refl, some, ℕ, ◌∷◌, ◌≡◌,
}
use tiderace.Results.{
  Frame, Outcome, Variant, note_import_history, noted, noted_detail, noted_variant, noted_variants,
}

noted-noted : (note : Str) (o : Outcome) (d : Str) → noted note o (noted note o d) ≡ noted note o d
unfolding noted
noted-noted note o d = ground (arith, contains_str-append note d)

map-noted_variant :
    (note : Str) (vs : List Variant)
    → map (noted_variant note) (map (noted_variant note) vs) ≡ map (noted_variant note) vs
unfolding noted_variant
map-noted_variant note [] = refl
map-noted_variant note (v ∷ vs) =
    ap₂ ◌∷◌ (ap (λ d. record v { detail = d }) (noted-noted note v.outcome v.detail))
      (map-noted_variant note vs)

noted_detail_idem :
    (note : Str) (o : Outcome) (d : Option Str)
    → noted_detail note o (noted_detail note o d) ≡ noted_detail note o d
noted_detail_idem note o none = unfold noted_detail in refl
noted_detail_idem note o (some d) = unfold noted_detail in ap some (noted-noted note o d)

noted_variants_idem :
    (note : Str) (vs : Option (List Variant))
    → noted_variants note (noted_variants note vs) ≡ noted_variants note vs
noted_variants_idem note none = unfold noted_variants in refl
noted_variants_idem note (some vs) = unfold noted_variants in ap some (map-noted_variant note vs)

-- Annotating a result again, as the re-run of a demoted test does, adds no second note.
note_import_history_idem :
    (note : Str) (r : Frame) (n : ℕ) (p : Bool)
    → note_import_history note (note_import_history note r n p) n p ≡ note_import_history note r n p
unfolding note_import_history
note_import_history_idem note r n p =
    ground (arith, noted_detail_idem note r.outcome r.detail, noted_variants_idem note r.variants)
