-- ===== src/Marks/Folding.antt =====
-- What the fold of a test's marks into its outcome promises.
use tiderace.Base.{
  All, Bool, List, Str, [], arith, false, inl, inr, str_eq, true, ◌++◌, ◌∷◌, ◌≡◌, ◌⊎◌,
}
use tiderace.Results.{Outcome, fails, passed}
use tiderace.Marks.{Mark, apply_xfail, expects_failure, fold, is_run, skip_kind}

-- The mark has no say in `fold`: it is no unconditional skip, and it expects no failure.
abbrev pub IsInert : Mark → Type 0
IsInert m = (str_eq m.kind skip_kind ≡ false) × (expects_failure m ≡ false)

-- Marks that have no say are passed over: the closest one that has decides alone.
pub fold-closest :
    (pre post : List Mark) (m : Mark) (o : Outcome) (d : Str) (runtime : Bool)
    → All IsInert pre
    → (str_eq m.kind skip_kind ≡ true) ⊎ ((expects_failure m ≡ true) × (is_run o ≡ true))
    → fold (pre ++ m ∷ post) o d runtime ≡ fold (m ∷ []) o d runtime
unfolding fold
fold-closest [] post m o d runtime h (inl skip) = rw skip
fold-closest [] post m o d runtime h (inr (expects, run)) = ground arith
fold-closest (p ∷ pre) post m o d runtime h decides =
    let ih = fold-closest pre post m o d runtime h.1 decides in ground (arith, ih)

-- A node is reported passed only if its test passed and no mark had a say; so a mark never turns a
-- failure into a pass.
pub fold_passed :
    (ms : List Mark) (o : Outcome) (d : Str) (runtime : Bool)
    → (fold ms o d runtime).0 ≡ passed
    → (o ≡ passed) × All IsInert ms
unfolding fold
fold_passed [] o d runtime h = (h, tt)
fold_passed (m ∷ ms) o d runtime h = ground (arith, fold_passed ms o d runtime)

apply_xfail-fails :
    (m : Mark) (o : Outcome) (d : Str)
    → fails (apply_xfail m o d).0 ≡ true
    → is_run o ≡ true
    → (o ≡ passed) × (m.strict ≡ true)
unfolding apply_xfail
apply_xfail-fails m o d h r = ground arith

-- An applying strict xfail stands among the marks.
abbrev pub HasStrict : List Mark → Type 0
HasStrict [] = ⊥
HasStrict (m ∷ ms) = ((m.strict ≡ true) × (expects_failure m ≡ true)) ⊎ HasStrict ms

-- A node is reported failed or in error only if its test was and no mark had a say, or if it passed
-- under a strict xfail.
fold-fails :
    (ms : List Mark) (o : Outcome) (d : Str) (runtime : Bool)
    → fails (fold ms o d runtime).0 ≡ true
    → ((fails o ≡ true) × All IsInert ms) ⊎ ((o ≡ passed) × HasStrict ms)
unfolding fold
fold-fails [] o d runtime h = inl (h, tt)
fold-fails (m ∷ ms) o d runtime h =
    ground (arith, apply_xfail-fails m o d, fold-fails ms o d runtime)
