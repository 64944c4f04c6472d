-- ===== src/Run/Inheriting.antt =====
-- What a class reports of the tests it inherits: `_run_inherited` of engine.py.
use mathlib.Core.Option
use tiderace.Base.{
  All, All-append, Bool, Bool-cases, Elem, List, Str, [], ap, arith, codes, false, has_name,
  has_name-Elem, if◌then◌else◌, inl, inr, insert_name, keep, map, or_else, refl, some, sorted_names,
  split, starts_with, subst, sym, true, ℕ, ◌↔◌, ◌∷◌, ◌≡◌, ◌≤◌, ◌⊎◌,
}
use tiderace.Run.{
  LiveClass, Style, gathered, inherited_names, is_inherited, method_of_class, no_test_class,
  reported_variant, run_children, run_inherited, unittest_method,
}
use tiderace.Results.{Frame, Reported, Variant, empty_expansion, error, expansion, severity, worst}
use tiderace.Results.Ordering.{Below-NoWorse, NoWorse, worst-IsFirstMax}

insert_name-Elem : (n m : Str) (ms : List Str) → Elem n (insert_name m ms) ↔ ((n ≡ m) ⊎ Elem n ms)
unfolding insert_name
insert_name-Elem n m [] = ground arith
insert_name-Elem n m (k ∷ ms) = ground (arith, insert_name-Elem n m ms)

sorted_names-Elem : (n : Str) (ms : List Str) → Elem n (sorted_names ms) ↔ Elem n ms
unfolding sorted_names
sorted_names-Elem n [] = ground arith
sorted_names-Elem n (m ∷ ms) =
    ground (arith, insert_name-Elem n m (sorted_names ms), sorted_names-Elem n ms)

-- `e` is a member that the class reports.
abbrev pub Reports : Bool → LiveClass → Str × Bool → Type 0
Reports own_too c e =
    (starts_with e.0 (codes "test") ≡ true)
    × (e.1 ≡ true)
    × ((own_too ≡ true) ⊎ ¬ Elem e.0 c.own_names)

keep-Elem :
    {A : Type 0} (p : A → Bool) (xs : List A) (a : A)
    → Elem a (keep p xs) ↔ (Elem a xs × (p a ≡ true))
keep-Elem p [] a = ground arith
keep-Elem p (x ∷ xs) a = elim (Bool-cases (p x)) [
  | inl kept ↦ ground (arith, kept, keep-Elem p xs a, ap p {x = a} {y = x})
  | inr left ↦ ground (arith, left, keep-Elem p xs a, ap p {x = a} {y = x})
]

map_name-Elem :
    {B : Type 0} (n : Str) (xs : List (Str × B))
    → Elem n (map (λ e. e.0) xs) ↔ ((b : B) × Elem (n, b) xs)
map_name-Elem n [] = ((λ h. absurd h), (λ h. absurd h.1))
map_name-Elem n ((m, b) ∷ xs) = (
  (λ h. elim h [
    | inl e ↦ (b, inl (rw e refl))
    | inr k ↦ (((map_name-Elem n xs).0 k).0, inr ((map_name-Elem n xs).0 k).1)
  ]),
  (λ h. elim h.1 [ inl e ↦ inl (ap (λ q. q.0) e) | inr k ↦ inr ((map_name-Elem n xs).1 (h.0, k)) ]),
)

is_inherited-Reports :
    (own_too : Bool) (c : LiveClass) (e : Str × Bool)
    → (is_inherited (if own_too then [] else c.own_names) e ≡ true) ↔ Reports own_too c e
unfolding is_inherited has_name
is_inherited-Reports true c e = ground arith
is_inherited-Reports false c e = ground (arith, has_name-Elem e.0 c.own_names)

-- The methods that a class reports are its callable members with a name that starts with `test` that
-- its own body does not define, those too where the class was not recognised.
inherited_names_lem :
    (own_too : Bool) (c : LiveClass) (n : Str)
    → Elem n (inherited_names own_too c)
      ↔ ((called : Bool) × Elem (n, called) c.all_names × Reports own_too c (n, called))
unfolding inherited_names
inherited_names_lem own_too c n = (
  (λ h.
      let (called, k) = (map_name-Elem n _).0 ((sorted_names-Elem n _).0 h) in
      let (there, shown) = (keep-Elem _ c.all_names (n, called)).0 k in
      (called, there, (is_inherited-Reports own_too c (n, called)).0 shown)),
  (λ h. (sorted_names-Elem n _).1 (
      (map_name-Elem n _).1 (
        h.0,
        (keep-Elem _ c.all_names (n, h.0)).1 (h.1, (is_inherited-Reports own_too c (n, h.0)).1 h.2),
      ))),
)

-- The worst outcome of a list that is not empty, with that none is worse.
worst_total :
    (o : Reported) (os : List Reported)
    → (w : Reported) × (worst (o ∷ os) ≡ some w) × NoWorse (severity w.0) (o ∷ os)
worst_total o os =
    let (w, e, (pre, post, split, below, nowhere_worse)) = worst-IsFirstMax o os in
    (
      w,
      e,
      subst (NoWorse (severity w.0)) (sym split) (
          All-append (λ (p : Reported). severity p.0 ≤ severity w.0) pre (w ∷ post)
            (Below-NoWorse _ pre below) (omega arith, nowhere_worse)),
    )

All-reported_variant :
    (n : ℕ) (vs : List Variant)
    → NoWorse n (map reported_variant vs)
    → All (λ (v : Variant). severity v.outcome ≤ n) vs
All-reported_variant n [] h = tt
All-reported_variant n (v ∷ vs) h = (h.0, All-reported_variant n vs h.1)

gathered-worst :
    (node : Str) (v : Variant) (vs : List Variant) (w : Reported)
    → worst (map reported_variant (v ∷ vs)) ≡ some w
    → gathered node (v ∷ vs) ≡ some (expansion node w.0 w.1 (v ∷ vs))
unfolding gathered
gathered-worst node v vs w e = ap (Option.map (λ (w : Reported). expansion node w.0 w.1 (v ∷ vs))) e

-- Whatever its children answer, also where none of them ran, a class gets a response, whose variants
-- are what they reported and whose outcome none of these exceeds in severity.
gathered_lem :
    (node : Str) (vs : List Variant)
    → (f : Frame) × (gathered node vs ≡ some f)
      × (f.expanded ≡ some true)
      × (f.variants ≡ some vs)
      × All (λ (v : Variant). severity v.outcome ≤ severity f.outcome) vs
unfolding gathered expansion empty_expansion
gathered_lem node [] = (empty_expansion node, refl, refl, refl, tt)
gathered_lem node (v ∷ vs) =
    let (w, e, none_worse) = worst_total (reported_variant v) (map reported_variant vs) in
    (
      expansion node w.0 w.1 (v ∷ vs),
      gathered-worst node v vs w e,
      refl,
      refl,
      All-reported_variant _ (v ∷ vs) none_worse,
    )

module _ {W : Type 0} (run : Str → Style → W → (Frame × ℕ) × W) (prefix : Str) where
  -- Whatever its children answer, also where none of them ran, a class gets a response, and no variant
  -- of it is worse than its outcome: the aggregate of no outcomes, which raises, is never taken.
  run_inherited_total :
      (node : Str) (own_too : Bool) (resolved : Str ⊎ LiveClass) (w : W)
      → (f : Frame) × ((run_inherited run prefix node own_too resolved w).0 ≡ some f)
        × (f.expanded ≡ some true)
        × All (λ (v : Variant). severity v.outcome ≤ severity f.outcome) (or_else f.variants [])
  unfolding run_inherited expansion empty_expansion
  run_inherited_total node own_too (inl exc) w = (expansion node error exc [], refl, refl, tt)
  run_inherited_total node own_too (inr c) w = elim (Bool-cases (no_test_class own_too c)) [
    | inl foreign ↦ (empty_expansion node, rw (foreign, run_inherited) refl, refl, tt)
    | inr ours ↦
        (let (f, e, expanded, variants, bound) =
            gathered_lem node
              (run_children run prefix (inherited_names own_too c)
                (if c.is_test_case then unittest_method else method_of_class) w).0 in
          (f, rw (ours, run_inherited) e, expanded, rw variants bound))
  ]
