-- ===== src/Tiers/Coverage.antt =====
-- The footprint that `assemble` of tiers.py reports for a node: the union of its variants'.
use mathlib.Core.Option
use tiderace.Base.{
  Bool, Dict, Elem, Elem-append, Elem-append_left, Elem-append_right, List, Option, Str, [], arith,
  inl, inr, insert, lookup, none, or_else, refl, some, str_eq_iff, ℕ, ◌↔◌, ◌∷◌, ◌≡◌, ◌⊎◌,
}
use tiderace.Results.{Frame}
use tiderace.Marks.{Mark}
use tiderace.Tiers.{
  VariantResult, add_coverage, add_lines, assemble, insert_line, sorted_coverage, sorted_lines,
  union_coverage, when_any,
}

-- The footprint names the file, with this line or with any line.
abbrev pub Covers : Str → ℕ → Dict (List ℕ) → Type 0
Covers p n [] = ⊥
Covers p n ((q, lines) ∷ d) = ((q ≡ p) × Elem n lines) ⊎ Covers p n d

abbrev pub Touches : Str → Dict (List ℕ) → Type 0
Touches p [] = ⊥
Touches p ((q, lines) ∷ d) = (q ≡ p) ⊎ Touches p d

abbrev pub AnyCovers : Str → ℕ → List VariantResult → Type 0
AnyCovers p n [] = ⊥
AnyCovers p n (r ∷ rs) = Covers p n r.coverage ⊎ AnyCovers p n rs

abbrev pub AnyTouches : Str → List VariantResult → Type 0
AnyTouches p [] = ⊥
AnyTouches p (r ∷ rs) = Touches p r.coverage ⊎ AnyTouches p rs

insert_line-Elem : (m n : ℕ) (ns : List ℕ) → Elem m (insert_line n ns) ↔ ((m ≡ n) ⊎ Elem m ns)
unfolding insert_line
insert_line-Elem m n [] = (λ h. h, λ h. h)
insert_line-Elem m n (k ∷ ns) =
    let ih = insert_line-Elem m n ns in (ground (arith, ih.0), ground (arith, ih.1))

sorted_lines-Elem : (m : ℕ) (ns : List ℕ) → Elem m (sorted_lines ns) ↔ Elem m ns
unfolding sorted_lines
sorted_lines-Elem m [] = (λ h. h, λ h. h)
sorted_lines-Elem m (n ∷ ns) =
    let ih = sorted_lines-Elem m ns in
    let step = insert_line-Elem m n (sorted_lines ns) in
    (ground (arith, ih.0, step.0), ground (arith, ih.1, step.1))

sorted_coverage-Covers :
    (p : Str) (n : ℕ) (d : Dict (List ℕ)) → Covers p n (sorted_coverage d) ↔ Covers p n d
unfolding sorted_coverage
sorted_coverage-Covers p n [] = (λ h. h, λ h. h)
sorted_coverage-Covers p n ((q, lines) ∷ d) =
    let ih = sorted_coverage-Covers p n d in
    let step = sorted_lines-Elem n lines in
    (ground (arith, ih.0, step.0), ground (arith, ih.1, step.1))

sorted_coverage-Touches :
    (p : Str) (d : Dict (List ℕ)) → Touches p (sorted_coverage d) ↔ Touches p d
unfolding sorted_coverage
sorted_coverage-Touches p [] = (λ h. h, λ h. h)
sorted_coverage-Touches p ((q, lines) ∷ d) =
    let ih = sorted_coverage-Touches p d in (ground (arith, ih.0), ground (arith, ih.1))

add_lines-Covers :
    (p : Str) (n : ℕ) (k : Str) (lines : List ℕ) (d : Dict (List ℕ))
    → Covers p n (add_lines k lines d) ↔ (((k ≡ p) × Elem n lines) ⊎ Covers p n d)
unfolding add_lines lookup insert
add_lines-Covers p n k lines [] = (λ h. h, λ h. h)
add_lines-Covers p n k lines ((q, old) ∷ d) =
    let ih = add_lines-Covers p n k lines d in
    (
      ground (arith, ih.0, str_eq_iff q k, Elem-append n old lines),
      ground (
        arith,
        ih.1,
        str_eq_iff q k,
        Elem-append_left n old lines,
        Elem-append_right n old lines,
      ),
    )

add_lines-Touches :
    (p k : Str) (lines : List ℕ) (d : Dict (List ℕ))
    → Touches p (add_lines k lines d) ↔ ((k ≡ p) ⊎ Touches p d)
unfolding add_lines lookup insert
add_lines-Touches p k lines [] = (λ h. h, λ h. h)
add_lines-Touches p k lines ((q, old) ∷ d) =
    let ih = add_lines-Touches p k lines d in
    (ground (arith, ih.0, str_eq_iff q k), ground (arith, ih.1, str_eq_iff q k))

add_coverage-Covers :
    (p : Str) (n : ℕ) (more d : Dict (List ℕ))
    → Covers p n (add_coverage more d) ↔ (Covers p n more ⊎ Covers p n d)
unfolding add_coverage
add_coverage-Covers p n [] d = (inr, λ h. elim h [ inl e ↦ absurd e | inr g ↦ g ])
add_coverage-Covers p n ((q, lines) ∷ more) d =
    let ih = add_coverage-Covers p n more (add_lines q lines d) in
    let step = add_lines-Covers p n q lines d in
    (ground (arith, ih.0, step.0), ground (arith, ih.1, step.1))

add_coverage-Touches :
    (p : Str) (more d : Dict (List ℕ))
    → Touches p (add_coverage more d) ↔ (Touches p more ⊎ Touches p d)
unfolding add_coverage
add_coverage-Touches p [] d = (inr, λ h. elim h [ inl e ↦ absurd e | inr g ↦ g ])
add_coverage-Touches p ((q, lines) ∷ more) d =
    let ih = add_coverage-Touches p more (add_lines q lines d) in
    let step = add_lines-Touches p q lines d in
    (ground (arith, ih.0, step.0), ground (arith, ih.1, step.1))

union_coverage-Covers :
    (p : Str) (n : ℕ) (rs : List VariantResult) (d : Dict (List ℕ))
    → Covers p n (union_coverage rs d) ↔ (AnyCovers p n rs ⊎ Covers p n d)
unfolding union_coverage
union_coverage-Covers p n [] d = (inr, λ h. elim h [ inl e ↦ absurd e | inr g ↦ g ])
union_coverage-Covers p n (r ∷ rs) d =
    let ih = union_coverage-Covers p n rs (add_coverage r.coverage d) in
    let step = add_coverage-Covers p n r.coverage d in
    (ground (arith, ih.0, step.0), ground (arith, ih.1, step.1))

union_coverage-Touches :
    (p : Str) (rs : List VariantResult) (d : Dict (List ℕ))
    → Touches p (union_coverage rs d) ↔ (AnyTouches p rs ⊎ Touches p d)
unfolding union_coverage
union_coverage-Touches p [] d = (inr, λ h. elim h [ inl e ↦ absurd e | inr g ↦ g ])
union_coverage-Touches p (r ∷ rs) d =
    let ih = union_coverage-Touches p rs (add_coverage r.coverage d) in
    let step = add_coverage-Touches p r.coverage d in
    (ground (arith, ih.0, step.0), ground (arith, ih.1, step.1))

abbrev pub reported_coverage : Option Frame → Dict (List ℕ)
reported_coverage none = []
reported_coverage (some f) = or_else f.coverage []

when_any_lem :
    (d : Dict (List ℕ)) → or_else (Option.map sorted_coverage (when_any d)) [] ≡ sorted_coverage d
unfolding sorted_coverage
when_any_lem [] = refl
when_any_lem (e ∷ d) = refl

coverage-assemble :
    (node : Str) (r : VariantResult) (rs : List VariantResult) (parametrized : Bool)
    (own other_marks : List Mark) (keywords : Str → List Str)
    → reported_coverage (assemble node (r ∷ rs) parametrized own other_marks keywords)
      ≡ sorted_coverage (union_coverage (r ∷ rs) [])
unfolding assemble sorted_coverage
coverage-assemble node r rs parametrized own other_marks keywords =
    when_any_lem (union_coverage (r ∷ rs) [])

-- A node's response names exactly the files, and with each the lines, that some variant touched.
assemble-coverage :
    (node : Str) (r : VariantResult) (rs : List VariantResult) (parametrized : Bool)
    (own other_marks : List Mark) (keywords : Str → List Str) (p : Str) (n : ℕ)
    → let cov = reported_coverage (assemble node (r ∷ rs) parametrized own other_marks keywords) in
      (Touches p cov ↔ AnyTouches p (r ∷ rs)) × (Covers p n cov ↔ AnyCovers p n (r ∷ rs))
assemble-coverage node r rs parametrized own other_marks keywords p n =
    rw (coverage-assemble node r rs parametrized own other_marks keywords) (
      let t = sorted_coverage-Touches p (union_coverage (r ∷ rs) []) in
      let u = union_coverage-Touches p (r ∷ rs) [] in
      let c = sorted_coverage-Covers p n (union_coverage (r ∷ rs) []) in
      let v = union_coverage-Covers p n (r ∷ rs) [] in
      (
        (λ h. back (u.0 (t.0 h)), λ h. t.1 (u.1 (inl h))),
        (λ h. back (v.0 (c.0 h)), λ h. c.1 (v.1 (inl h))),
      ))
  where
    back : {A : Type 0} → A ⊎ ⊥ → A
    back (inl a) = a
    back (inr e) = absurd e
