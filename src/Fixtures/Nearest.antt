-- ===== src/Fixtures/Nearest.antt =====
-- The nearest-override rule: what `Registry.resolve` of fixtures.py returns.
use tiderace.Base.{
  All, All-append, Bool-cases, Elem, Elem-append_left, Elem-append_right, List, Option, Str, [],
  append-nil, append_assoc, arith, false, if◌then◌else◌, inl, inr, ltb_ℤ, none, not, refl, some,
  subst, true, ℤ, ◌&&◌, ◌++◌, ◌∷◌, ◌≡◌, ◌≤ℤ◌, ◌⊎◌,
}
use tiderace.Fixtures.Defs.{FixtureDef, Registry}
use tiderace.Fixtures.Lookup.{better, def_of, nearest, passed_over, resolve, visible}

-- Every candidate under the ceiling is at most as specific as `spec`.
abbrev pub AtMost : Option ℤ → ℤ → List (ℤ × FixtureDef) → Type 0
AtMost below spec = All (λ (c : ℤ × FixtureDef). (passed_over below c.0 ≡ true) ⊎ (c.0 ≤ℤ spec))

abbrev pub AllPassed : Option ℤ → List (ℤ × FixtureDef) → Type 0
AllPassed below = All (λ (c : ℤ × FixtureDef). passed_over below c.0 ≡ true)

-- The candidate is in scope, under the ceiling, and no other under the ceiling is more specific.
abbrev pub IsNearest : Option ℤ → ℤ × FixtureDef → List (ℤ × FixtureDef) → Type 0
IsNearest below c cs = Elem c cs × (passed_over below c.0 ≡ false) × AtMost below c.0 cs

abbrev Best : Option ℤ → Option (ℤ × FixtureDef) → List (ℤ × FixtureDef) → Type 0
Best below none cs = AllPassed below cs
Best below (some c) cs = IsNearest below c cs

AtMost-mono :
    (below : Option ℤ) (a b : ℤ) (cs : List (ℤ × FixtureDef))
    → a ≤ℤ b
    → AtMost below a cs
    → AtMost below b cs
AtMost-mono below a b [] h m = tt
AtMost-mono below a b (c ∷ cs) h m = (weaken m.0, AtMost-mono below a b cs h m.1)
  where
    weaken :
        (passed_over below c.0 ≡ true) ⊎ (c.0 ≤ℤ a) → (passed_over below c.0 ≡ true) ⊎ (c.0 ≤ℤ b)
    weaken (inl p) = inl p
    weaken (inr le) = inr (omega arith)

AllPassed-AtMost :
    (below : Option ℤ) (a : ℤ) (cs : List (ℤ × FixtureDef)) → AllPassed below cs → AtMost below a cs
AllPassed-AtMost below a [] h = tt
AllPassed-AtMost below a (c ∷ cs) h = (inl h.0, AllPassed-AtMost below a cs h.1)

module _ (below : Option ℤ) (past : List (ℤ × FixtureDef)) (c : ℤ × FixtureDef) where
  Best-passed :
      (best : Option (ℤ × FixtureDef))
      → passed_over below c.0 ≡ true
      → Best below best past
      → Best below best (past ++ c ∷ [])
  Best-passed none p h =
      All-append (λ (e : ℤ × FixtureDef). passed_over below e.0 ≡ true) past (c ∷ []) h (p, tt)
  Best-passed (some b) p h = (
    Elem-append_left b past (c ∷ []) h.0,
    h.1,
    All-append (λ (e : ℤ × FixtureDef). (passed_over below e.0 ≡ true) ⊎ (e.0 ≤ℤ b.0)) past (c ∷ [])
        h.2 (inl p, tt),
  )

  Best-taken :
      (bound : ℤ)
      → passed_over below c.0 ≡ false
      → AtMost below bound past
      → bound ≤ℤ c.0
      → Best below (some c) (past ++ c ∷ [])
  Best-taken bound q h le = (
    Elem-append_right c past (c ∷ []) (inl refl),
    q,
    All-append (λ (e : ℤ × FixtureDef). (passed_over below e.0 ≡ true) ⊎ (e.0 ≤ℤ c.0)) past (c ∷ [])
        (AtMost-mono below bound c.0 past le h) (inr (omega arith), tt),
  )

  Best-kept :
      (b : ℤ × FixtureDef)
      → c.0 ≤ℤ b.0
      → Best below (some b) past
      → Best below (some b) (past ++ c ∷ [])
  Best-kept b le h = (
    Elem-append_left b past (c ∷ []) h.0,
    h.1,
    All-append (λ (e : ℤ × FixtureDef). (passed_over below e.0 ≡ true) ⊎ (e.0 ≤ℤ b.0)) past (c ∷ [])
        h.2 (inr le, tt),
  )

  Best-step :
      (best : Option (ℤ × FixtureDef))
      → Best below best past
      → Best below
          (if not (passed_over below c.0) && better best c.0 then some c else best)
          (past ++ c ∷ [])
  Best-step best h = elim (Bool-cases (passed_over below c.0)) [
    | inl p ↦ rw p (Best-passed best p h)
    | inr q ↦ rw q (choose best q h)
  ]
    where
      choose :
          (best : Option (ℤ × FixtureDef))
          → passed_over below c.0 ≡ false
          → Best below best past
          → Best below (if better best c.0 then some c else best) (past ++ c ∷ [])
      choose none q h = Best-taken c.0 q (AllPassed-AtMost below c.0 past h) (omega arith)
      choose (some b) q h = elim (Bool-cases (ltb_ℤ b.0 c.0)) [
        | inl more ↦ rw more (Best-taken b.0 q h.2 (ground arith))
        | inr less ↦ rw less (Best-kept b (ground arith) h)
      ]

-- The loop, with the candidates that it has passed.
nearest-Best :
    (below : Option ℤ) (best : Option (ℤ × FixtureDef)) (past cs : List (ℤ × FixtureDef))
    → Best below best past
    → Best below (nearest below best cs) (past ++ cs)
unfolding nearest
nearest-Best below best past [] h = rw append-nil h
nearest-Best below best past (c ∷ cs) h = subst (Best below _) (append_assoc past (c ∷ []) cs) (
    nearest-Best below (if not (passed_over below c.0) && better best c.0 then some c else best)
      (past ++ c ∷ []) cs (Best-step below past c best h))

-- A nearest definition under the ceiling, or none where every one in scope is passed over.
abbrev pub Nearest : Option ℤ → List (ℤ × FixtureDef) → Option FixtureDef → Type 0
Nearest below cs none = AllPassed below cs
Nearest below cs (some d) = (spec : ℤ) × IsNearest below (spec, d) cs

-- `resolve` returns a definition that is in scope here and lies under the ceiling, and of those a
-- most specific one; it returns nothing only where no definition in scope lies under the ceiling.
pub resolve-Nearest :
    (reg : Registry) (name module_key : Str) (classes : List Str) (below : Option ℤ)
    → Nearest below
        (visible reg name module_key classes)
        (resolve reg name module_key classes below)
unfolding resolve
resolve-Nearest reg name module_key classes below =
    choose (nearest below none (visible reg name module_key classes))
      (nearest-Best below none [] (visible reg name module_key classes) tt)
  where
    choose :
        (best : Option (ℤ × FixtureDef))
        → Best below best (visible reg name module_key classes)
        → Nearest below (visible reg name module_key classes) (def_of best)
    choose none h = h
    choose (some (spec, d)) h = (spec, h)
