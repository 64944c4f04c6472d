-- ===== src/Discovery/Governing.antt =====
-- The conftests that govern a module, and their order: `conftests_governing` of discovery.py.
use mathlib.Core.Path.{ap₂}
use tiderace.Discovery.Depth.{Lies, Lies-governing_depth, governing_depth-Lies}
use tiderace.Base.{
  All, Bool-cases, Elem, List, Option-cases, Str, [], ap, arith, false, inl, inr, leb, leb→le, map,
  none, of_some, refl, some, subst, sym, true, ℕ, ◌↔◌, ◌∙◌, ◌∷◌, ◌≡◌, ◌≤◌, ◌⊎◌,
}
use tiderace.Discovery.{
  conftests_governing, governed_dir, governing, governing_depth, insert_deep, parent_of, sort_deep,
}

module _ {M : Type 0} where
  -- No entry is deeper than `n`; each entry is at least as deep as those behind it.
  abbrev pub NoDeeper : ℕ → List (ℕ × M) → Type 0
  NoDeeper n = All (λ (e : ℕ × M). e.0 ≤ n)

  abbrev pub Descends : List (ℕ × M) → Type 0
  Descends [] = Unit {0}
  Descends (e ∷ es) = NoDeeper e.0 es × Descends es

  NoDeeper_lem : (m n : ℕ) (es : List (ℕ × M)) → m ≤ n → NoDeeper m es → NoDeeper n es
  NoDeeper_lem m n [] h b = tt
  NoDeeper_lem m n (e ∷ es) h b = (omega (arith, h, b.0), NoDeeper_lem m n es h b.1)

  insert_deep_before :
      (e f : ℕ × M) (fs : List (ℕ × M)) → leb f.0 e.0 ≡ true → insert_deep e (f ∷ fs) ≡ e ∷ f ∷ fs
  unfolding insert_deep
  insert_deep_before e f fs h = rw (h, insert_deep) refl

  insert_deep_behind :
      (e f : ℕ × M) (fs : List (ℕ × M))
      → leb f.0 e.0 ≡ false
      → insert_deep e (f ∷ fs) ≡ f ∷ insert_deep e fs
  unfolding insert_deep
  insert_deep_behind e f fs h = rw (h, insert_deep) refl

  insert_deep-NoDeeper :
      (n : ℕ) (e : ℕ × M) (fs : List (ℕ × M))
      → e.0 ≤ n
      → NoDeeper n fs
      → NoDeeper n (insert_deep e fs)
  unfolding insert_deep
  insert_deep-NoDeeper n e [] h b = (h, tt)
  insert_deep-NoDeeper n e (f ∷ fs) h b = elim (Bool-cases (leb f.0 e.0)) [
    | inl first ↦ rw (insert_deep_before e f fs first) (h, b)
    | inr later ↦ rw (insert_deep_behind e f fs later) (b.0, insert_deep-NoDeeper n e fs h b.1)
  ]

  insert_deep-Descends : (e : ℕ × M) (fs : List (ℕ × M)) → Descends fs → Descends (insert_deep e fs)
  unfolding insert_deep
  insert_deep-Descends e [] d = (tt, tt)
  insert_deep-Descends e (f ∷ fs) d = elim (Bool-cases (leb f.0 e.0)) [
    | inl first ↦
        rw (insert_deep_before e f fs first)
          ((leb→le _ _ first, NoDeeper_lem f.0 e.0 fs (leb→le _ _ first) d.0), d)
    | inr later ↦
        rw (insert_deep_behind e f fs later)
          (insert_deep-NoDeeper f.0 e fs (ground (arith, later)) d.0, insert_deep-Descends e fs d.1)
  ]

  sort_deep-Descends : (es : List (ℕ × M)) → Descends (sort_deep es)
  unfolding sort_deep
  sort_deep-Descends [] = tt
  sort_deep-Descends (e ∷ es) = insert_deep-Descends e (sort_deep es) (sort_deep-Descends es)

  insert_deep-Elem :
      (a e : ℕ × M) (fs : List (ℕ × M)) → Elem a (insert_deep e fs) ↔ ((a ≡ e) ⊎ Elem a fs)
  unfolding insert_deep
  insert_deep-Elem a e [] = ground arith
  insert_deep-Elem a e (f ∷ fs) = ground (arith, insert_deep-Elem a e fs)

  sort_deep-Elem : (a : ℕ × M) (es : List (ℕ × M)) → Elem a (sort_deep es) ↔ Elem a es
  unfolding sort_deep
  sort_deep-Elem a [] = ground arith
  sort_deep-Elem a (e ∷ es) =
      ground (arith, insert_deep-Elem a e (sort_deep es), sort_deep-Elem a es)

  governing-cons :
      (module_dir location : Str) (conftest : M) (scopes : List (Str × M)) (d : ℕ)
      → governing_depth module_dir (governed_dir location) ≡ some d
      → governing module_dir ((location, conftest) ∷ scopes)
        ≡ (d, conftest) ∷ governing module_dir scopes
  unfolding governing
  governing-cons module_dir location conftest scopes d h = rw (h, governing) refl

  governing-skip :
      (module_dir location : Str) (conftest : M) (scopes : List (Str × M))
      → governing_depth module_dir (governed_dir location) ≡ none
      → governing module_dir ((location, conftest) ∷ scopes) ≡ governing module_dir scopes
  unfolding governing
  governing-skip module_dir location conftest scopes h = rw (h, governing) refl

  -- The conftest stands in the scopes with a directory that governs the module at this depth.
  abbrev Found : Str → List (Str × M) → ℕ × M → Type 0
  Found module_dir scopes e =
      (location : Str) × Elem (location, e.1) scopes
      × (governing_depth module_dir (governed_dir location) ≡ some e.0)

  Found-cons :
      (module_dir : Str) (s : Str × M) (scopes : List (Str × M)) (e : ℕ × M)
      → Found module_dir scopes e
      → Found module_dir (s ∷ scopes) e
  Found-cons module_dir s scopes e (location, there, h) = (location, inr there, h)

  Found-uncons :
      (module_dir location : Str) (conftest : M) (scopes : List (Str × M)) (e : ℕ × M)
      → Found module_dir ((location, conftest) ∷ scopes) e
      → ((e.1 ≡ conftest) × (governing_depth module_dir (governed_dir location) ≡ some e.0))
        ⊎ Found module_dir scopes e
  Found-uncons module_dir location conftest scopes e (l, inl p, h) = inl (
    ap (λ q. q.1) p,
    subst (λ k. governing_depth module_dir (governed_dir k) ≡ some e.0) (ap (λ q. q.0) p) h,
  )
  Found-uncons module_dir location conftest scopes e (l, inr there, h) = inr (l, there, h)

  governing-Elem :
      (module_dir : Str) (scopes : List (Str × M)) (e : ℕ × M)
      → Elem e (governing module_dir scopes) ↔ Found module_dir scopes e
  unfolding governing
  governing-Elem module_dir [] e = ((λ h. absurd h), (λ h. absurd h.1))
  governing-Elem module_dir ((location, conftest) ∷ scopes) e =
      elim (Option-cases (governing_depth module_dir (governed_dir location))) [
        | inl aside ↦ rw (governing-skip module_dir location conftest scopes aside) (
          (λ h.
              Found-cons module_dir (location, conftest) scopes e
                ((governing-Elem module_dir scopes e).0 h)),
          (λ h. elim (Found-uncons module_dir location conftest scopes e h) [
            | inl (c, at_e) ↦ absurd (ground (arith, aside, at_e))
            | inr later ↦ (governing-Elem module_dir scopes e).1 later
          ]),
        )
        | inr (d, deep) ↦ rw (governing-cons module_dir location conftest scopes d deep) (
          (λ h. elim h [
            | inl same ↦ (
              location,
              inl (ap (λ (q : ℕ × M). (location, q.1)) same),
              deep ∙ ap (λ (q : ℕ × M). some q.0) (sym same),
            )
            | inr later ↦
                Found-cons module_dir (location, conftest) scopes e
                  ((governing-Elem module_dir scopes e).0 later)
          ]),
          (λ h. elim (Found-uncons module_dir location conftest scopes e h) [
            | inl (c, at_e) ↦ inl (ap₂ (λ (a : ℕ) (b : M). (a, b)) (of_some (sym at_e ∙ deep)) c)
            | inr later ↦ inr ((governing-Elem module_dir scopes e).1 later)
          ]),
        )
      ]

  -- The conftest stands in the scopes, with a directory that lies at this depth to the module's.
  abbrev pub Governs : Str → List (Str × M) → ℕ × M → Type 0
  Governs module_dir scopes e =
      (location : Str) × Elem (location, e.1) scopes × Lies module_dir (governed_dir location) e.0

  -- The conftests that govern a module are those whose location starts with two dots, at depth 0, that
  -- of the run root, at depth 1, and those whose directory is the module's or one above it, one deeper
  -- for each part; and they are called the deepest first.
  pub conftests_governing_lem :
      (scopes : List (Str × M)) (module_key : Str)
      → (entries : List (ℕ × M)) × (conftests_governing scopes module_key ≡ map (λ e. e.1) entries)
        × Descends entries
        × ((e : ℕ × M) → Elem e entries ↔ Governs (parent_of module_key) scopes e)
  unfolding conftests_governing
  conftests_governing_lem scopes module_key =
      let module_dir = parent_of module_key in
      (
        sort_deep (governing module_dir scopes),
        refl,
        sort_deep-Descends (governing module_dir scopes),
        λ e. (
          (λ h.
              let (location, there, depth) =
                (governing-Elem module_dir scopes e).0 ((sort_deep-Elem e _).0 h) in
              (location, there, governing_depth-Lies module_dir (governed_dir location) e.0 depth)),
          (λ (location, there, lies). (sort_deep-Elem e _).1 (
              (governing-Elem module_dir scopes e).1 (
                location,
                there,
                Lies-governing_depth module_dir (governed_dir location) e.0 lies,
              ))),
        ),
      )
