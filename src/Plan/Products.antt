-- ===== src/Plan/Products.antt =====
-- The cases that `_parametrize_cases` of plan.py makes of the axes.
use tiderace.Base.{
  Elem, Elem-append, Elem-append_left, Elem-append_right, List, Option, [], ap, arith, inl, inr,
  map, refl, some, subst, ◌↔◌, ◌∙◌, ◌∷◌, ◌≡◌,
}
use tiderace.Plan.{
  Case, Parametrize, Point, axes_of, case_for, parametrize_cases, prefixed, product,
}

-- One point of each axis, in order.
abbrev pub Picks : {A : Type 0} → List A → List (List A) → Type 0
Picks [] [] = Unit
Picks (a ∷ as') (axis ∷ axes) = Elem a axis × Picks as' axes
Picks [] (axis ∷ axes) = ⊥
Picks (a ∷ as') [] = ⊥

Elem-map :
    {A B : Type 0} (f : A → B) (b : B) (as' : List A)
    → Elem b (map f as') ↔ ((a : A) × Elem a as' × (b ≡ f a))
Elem-map f b [] = (λ n. absurd n, λ (a, n, e). absurd n)
Elem-map f b (x ∷ xs) =
    let ih = Elem-map f b xs in
    (
      (λ m. elim m [
        | inl e ↦ (x, inl refl, e)
        | inr n ↦ (let (a, i, e) = ih.0 n in (a, inr i, e))
      ]),
      (λ (a, m, e). elim m [ inl i ↦ inl (e ∙ ap f i) | inr n ↦ inr (ih.1 (a, n, e)) ]),
    )

module _ {A : Type 0} where
  -- Its first point is of the axis, and the others are of the combinations.
  abbrev Extends : List A → List A → List (List A) → Type 0
  Extends combo axis combos = (a : A) × (c : List A) × (combo ≡ a ∷ c) × Elem a axis × Elem c combos

  prefixed-Extends :
      (combo axis : List A) (combos : List (List A))
      → Elem combo (prefixed axis combos) ↔ Extends combo axis combos
  unfolding prefixed
  prefixed-Extends combo [] combos = (λ n. absurd n, λ (a, c, e, n, m). absurd n)
  prefixed-Extends combo (x ∷ xs) combos =
      let ih = prefixed-Extends combo xs combos in
      let here = Elem-map (λ c. x ∷ c) combo combos in
      (
        (λ m. elim (Elem-append combo (map (λ c. x ∷ c) combos) (prefixed xs combos) m) [
          | inl i ↦ (let (c, n, e) = here.0 i in (x, c, e, inl refl, n))
          | inr j ↦ (let (a, c, e, n, k) = ih.0 j in (a, c, e, inr n, k))
        ]),
        (λ (a, c, e, n, k). elim n [
          | inl i ↦
              Elem-append_left combo (map (λ c. x ∷ c) combos) (prefixed xs combos)
                (here.1 (c, k, e ∙ ap (λ y. y ∷ c) i))
          | inr j ↦
              Elem-append_right combo (map (λ c. x ∷ c) combos) (prefixed xs combos)
                (ih.1 (a, c, e, j, k))
        ]),
      )

  product-Picks :
      (axes : List (List A)) (combo : List A) → Elem combo (product axes) ↔ Picks combo axes
  unfolding product
  product-Picks [] [] = (λ m. tt, λ p. inl refl)
  product-Picks [] (a ∷ c) = (λ m. elim m [ inl e ↦ absurd (cc) | inr n ↦ absurd n ], λ p. absurd p)
  product-Picks (axis ∷ axes) [] = (
    (λ m. let (a, c, e, _, _) = (prefixed-Extends [] axis (product axes)).0 m in absurd (cc)),
    (λ p. absurd p),
  )
  product-Picks (axis ∷ axes) (a ∷ c) =
      let ih = product-Picks axes c in
      let step = prefixed-Extends (a ∷ c) axis (product axes) in
      (
        (λ m.
            let (a', c', e, n, k) = step.0 m in
            let same_a : a' ≡ a = ground arith in
            let same_c : c' ≡ c = ground arith in
            (
              subst (λ x. Elem x axis) same_a n,
              ih.0 (subst (λ x. Elem x (product axes)) same_c k),
            )),
        (λ (n, p). step.1 (a, c, refl, n, ih.1 p)),
      )

-- Where no entry raises, stacked marks multiply: the cases are those of every way to take one entry
-- of each mark.
parametrize_cases-Picks :
    {V : Type 0} (items_of : V → Option (List V)) (m : Parametrize V) (ms : List (Parametrize V))
    (axes : List (List (Point V)))
    → axes_of items_of (m ∷ ms) ≡ some axes
    → (cases : List (Case V)) × (parametrize_cases items_of (m ∷ ms) ≡ some cases)
      × ((c : Case V)
          → Elem c cases ↔ ((combo : List (Point V)) × Picks combo axes × (c ≡ case_for combo)))
unfolding parametrize_cases
parametrize_cases-Picks items_of m ms axes e = (
  map case_for (product axes),
  rw e refl,
  λ c.
      let all_cases = Elem-map case_for c (product axes) in
      (
        (λ n. let (combo, i, q) = all_cases.0 n in (combo, (product-Picks axes combo).0 i, q)),
        (λ (combo, i, q). all_cases.1 (combo, (product-Picks axes combo).1 i, q)),
      ),
)
