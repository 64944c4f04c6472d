-- ===== src/Tiers/Verdicts.antt =====
-- The outcome, the purity and the fork flag that `assemble` of tiers.py reports for a node.
use tiderace.Base.{
  All, All-append, Bool, List, Option, Str, [], any, ap, arith, false, if◌then◌else◌, inl, inr,
  is_some, map, none, refl, some, sym, true, ℕ, ◌||◌, ◌∙◌, ◌∷◌, ◌≡◌, ◌≤◌, ◌⊎◌,
}
use tiderace.Results.Ordering.{Below-NoWorse, IsFirstMax, NoWorse, worst-IsFirstMax}
use tiderace.Results.{
  Frame, Purity, Reported, Verdict, impure, no_verdict, passed, pure, severity, unknown, worst,
}
use tiderace.Marks.{Mark, fold}
use tiderace.Marks.Folding.{fold_passed}
use tiderace.Tiers.{VariantResult, assemble, fold_both, purity_loop, purity_step, reported}

abbrev pub is_impure : VariantResult → Bool
is_impure r = elim r.purity [ impure _ ↦ true | _ ↦ false ]

abbrev pub is_pure : VariantResult → Bool
is_pure r = elim r.purity [ pure ↦ true | _ ↦ false ]

-- The first reason among the variants.
abbrev pub first_reason : List VariantResult → Option Str
first_reason [] = none
first_reason (r ∷ rs) = elim r.purity [ impure reason ↦ some reason | _ ↦ first_reason rs ]

abbrev pub flag_of : List VariantResult → Option Bool
flag_of rs = if any is_impure rs then some false else if any is_pure rs then some true else none

abbrev after : Option Str → Purity → Option Str
after reason p = elim p [ impure x ↦ if is_some reason then reason else some x | _ ↦ reason ]

abbrev measured : Option Str → Verdict
measured reason = record { pure_flag = some false; impurity = reason }

purity_step-measured :
    (reason : Option Str) (p : Purity) → purity_step (measured reason) p ≡ measured (after reason p)
unfolding purity_step
purity_step-measured reason p = ground arith

-- Once a variant is impure, the node is; the first reason stays.
loop_measured :
    (reason : Option Str) (rs : List VariantResult)
    → purity_loop (measured reason) rs
      ≡ measured (if is_some reason then reason else first_reason rs)
unfolding purity_loop
loop_measured reason [] = ground arith
loop_measured reason (r ∷ rs) =
    rw (purity_step-measured reason r.purity)
      (loop_measured (after reason r.purity) rs ∙ ground arith)

abbrev clean : Option Bool → Verdict
clean b = record { pure_flag = b; impurity = none }

abbrev seen_pure : Bool → Option Bool
seen_pure true = some true
seen_pure false = none

Purity-cases : (p : Purity) → (p ≡ unknown) ⊎ ((p ≡ pure) ⊎ ((x : Str) × (p ≡ impure x)))
Purity-cases unknown = inl refl
Purity-cases pure = inr (inl refl)
Purity-cases (impure x) = inr (inr (x, refl))

-- Up to the first impure variant, with `p` for whether a pure one has been seen.
loop_clean :
    (p : Bool) (rs : List VariantResult)
    → purity_loop (clean (seen_pure p)) rs ≡ record {
      pure_flag =
          if any is_impure rs then some false else if p || any is_pure rs then some true else none;
      impurity = first_reason rs;
    }
unfolding purity_loop purity_step
loop_clean p [] = ground arith
loop_clean p (r ∷ rs) = elim (Purity-cases r.purity) [
  | inl e ↦ rw e (loop_clean p rs)
  | inr (inl e) ↦ rw e (ground (arith, loop_clean true rs))
  | inr (inr (x, e)) ↦ rw e (loop_measured (some x) rs)
]

-- The node is impure, for the first reason given, if any variant was measured impure; else pure if
-- any was measured pure; else nothing is said.
purity_loop_lem :
    (rs : List VariantResult)
    → purity_loop no_verdict rs ≡ record { pure_flag = flag_of rs; impurity = first_reason rs }
purity_loop_lem rs = loop_clean false rs

passed-fold_both :
    (own other_marks : List Mark) (w : Reported)
    → (fold_both own other_marks w).0 ≡ passed
    → w.0 ≡ passed
unfolding fold_both
passed-fold_both own other_marks w h =
    (fold_passed own w.0 w.1 false
      (fold_passed other_marks (fold own w.0 w.1 false).0 (fold own w.0 w.1 false).1 false h).0).0

outcome-assemble :
    (node : Str) (rs : List VariantResult) (parametrized : Bool) (own other_marks : List Mark)
    (keywords : Str → List Str) (f : Frame) (w : Reported)
    → worst (map reported rs) ≡ some w
    → assemble node rs parametrized own other_marks keywords ≡ some f
    → f.outcome ≡ (fold_both own other_marks w).0
unfolding assemble
outcome-assemble node rs parametrized own other_marks keywords f w hw h = ground arith

-- No variant failed, was in error or was skipped.
abbrev pub NoneSevere : List VariantResult → Type 0
NoneSevere = All (λ (r : VariantResult). severity r.outcome ≡ 0)

all_reported :
    (n : ℕ) (rs : List VariantResult) → NoWorse n (map reported rs) → n ≡ 0 → NoneSevere rs
all_reported n [] h e = tt
all_reported n (r ∷ rs) h e = (omega arith, all_reported n rs h.1 e)

IsFirstMax-NoWorse :
    (w : Reported) (os : List Reported) → IsFirstMax w os → NoWorse (severity w.0) os
IsFirstMax-NoWorse w os (pre, post, e, below, rest) = rw e (
    All-append (λ (o : Reported). severity o.0 ≤ severity w.0) pre (w ∷ post)
      (Below-NoWorse (severity w.0) pre below) (omega arith, rest))

-- A node with a failed, erroneous or skipped variant is never reported passed.
assemble_passed :
    (node : Str) (rs : List VariantResult) (parametrized : Bool) (own other_marks : List Mark)
    (keywords : Str → List Str) (f : Frame)
    → assemble node rs parametrized own other_marks keywords ≡ some f
    → f.outcome ≡ passed
    → NoneSevere rs
unfolding severity
assemble_passed node [] parametrized own other_marks keywords f h e = tt
assemble_passed node (r ∷ rs) parametrized own other_marks keywords f h e =
    let (w, hw, first) = worst-IsFirstMax (reported r) (map reported rs) in
    all_reported (severity w.0) (r ∷ rs) (IsFirstMax-NoWorse w (map reported (r ∷ rs)) first) (
      ap severity (
        passed-fold_both own other_marks w (
          sym (outcome-assemble node (r ∷ rs) parametrized own other_marks keywords f w hw h) ∙ e)))
