-- ===== src/Run/Inherited.antt =====
-- engine.py: `_run_inherited`, the test methods that a class inherits.
use mathlib.Core.Option
use tiderace.Base.{
  Bool, List, Option, Str, [], codes, false, has_name, if◌then◌else◌, inl, inr, keep, map, none,
  not, or_else, some, sorted_names, starts_with, true, ℕ, ◌&&◌, ◌++◌, ◌||◌, ◌∷◌, ◌⊎◌,
}
use tiderace.Results.{Frame, Reported, Variant, empty_expansion, error, expansion, variant, worst}
use tiderace.Run.Gate.{Style, method_of_class, unittest_method}
use tiderace.Tiers.{when_any}

-- What the engine asks of a live class: `cls.__name__`, whether it is a `unittest.TestCase`,
-- `vars(cls)`, and `dir(cls)` with what `callable(getattr(cls, name, None))` answers.
pub record LiveClass : Type 0 where
  pub class_name : Str
  pub is_test_case : Bool
  pub own_names : List Str
  pub all_names : List (Str × Bool)

-- `own_too and not (...)`
unfoldable pub no_test_class : Bool → LiveClass → Bool
unfolding starts_with
no_test_class own_too c = own_too && not (starts_with c.class_name (codes "Test") || c.is_test_case)

unfoldable pub is_inherited : List Str → Str × Bool → Bool
unfolding starts_with has_name
is_inherited own (name, called) =
    starts_with name (codes "test") && (not (has_name name own) && called)

-- `inherited`
unfoldable pub inherited_names : Bool → LiveClass → List Str
unfolding is_inherited sorted_names
inherited_names own_too c =
    sorted_names
      (map (λ e. e.0) (keep (is_inherited (if own_too then [] else c.own_names)) c.all_names))

-- The variant made of the answer of a child that did not expand.
unfoldable pub child_variant : Str → Frame → ℕ → Variant
unfolding variant
child_variant child res ms =
    record (variant child res.outcome (or_else res.detail []) ms (or_else res.keywords [])) {
      coverage = elim res.coverage [ none ↦ none | some cov ↦ when_any cov ];
      verdict = record { pure_flag = res.verdict.pure_flag; impurity = none };
      must_fork = elim res.must_fork [ some true ↦ some true | _ ↦ none ];
    }

-- What one child's answer adds to the variants.
unfoldable pub child_variants : Str → Frame → ℕ → List Variant
unfolding child_variant
child_variants child res ms = elim (or_else res.variants []) [
  | v ∷ vs ↦ v ∷ vs
  | [] ↦ if or_else res.expanded false then [] else child_variant child res ms ∷ []
]

abbrev pub reported_variant : Variant → Reported
reported_variant v = (v.outcome, v.detail)

-- The end of `_run_inherited`; `none` where `_aggregate` raises, on an empty list.
unfoldable pub gathered : Str → List Variant → Option Frame
unfolding empty_expansion expansion worst
gathered node [] = some (empty_expansion node)
gathered node (v ∷ vs) =
    Option.map (λ w. expansion node w.0 w.1 (v ∷ vs)) (worst (map reported_variant (v ∷ vs)))

module _ {W : Type 0} (run : Str → Style → W → (Frame × ℕ) × W) (prefix : Str) where
  -- The loop over the inherited names; `prefix` is `f"{module_key}::{cls_name}::"`, and `run` also
  -- says how many milliseconds it took.
  unfoldable pub run_children : List Str → Style → W → List Variant × W
  unfolding child_variants
  run_children [] style w = ([], w)
  run_children (name ∷ names) style w =
      let ((res, ms), w1) = run (prefix ++ name) style w in
      let (rest, w2) = run_children names style w1 in
      (child_variants (prefix ++ name) res ms ++ rest, w2)

  -- `_run_inherited`, from how the class resolved: the text of the exception, or the class.
  unfoldable pub run_inherited : Str → Bool → Str ⊎ LiveClass → W → Option Frame × W
  unfolding no_test_class inherited_names run_children gathered expansion empty_expansion
  run_inherited node own_too (inl exc) w = (some (expansion node error exc []), w)
  run_inherited node own_too (inr c) w =
      if no_test_class own_too c
      then (some (empty_expansion node), w)
      else (let (vs, w') =
            run_children (inherited_names own_too c)
              (if c.is_test_case then unittest_method else method_of_class) w in
          (gathered node vs, w'))
