-- ===== src/Footprint/Reach.antt =====
-- The worklist of `_import_closure` against the import relation.
use tiderace.Base.{
  Elem, Elem-append, Elem-append_left, Elem-append_right, List, Str, [], arith, inl, inr, length,
  length-append, refl, some, subst, suc, zero, ℕ, ◌++◌, ◌+◌, ◌↔◌, ◌∷◌, ◌≡◌, ◌≤◌, ◌⊎◌,
}
use tiderace.Footprint.Offering.{Offered, offer-Offered, unseen, unseen_empty}
use tiderace.Footprint.Closure.{reach_from}

-- `f` is reached from `start` by one import or more.
pub data Reaches (imports : Str → List Str) (start : Str) : Str → Type 0 where
  direct : (f : Str) → Elem f (imports start) → Reaches imports start f
  onward : (g f : Str) → Reaches imports start g → Elem f (imports g) → Reaches imports start f

-- The dependencies of each file as a function, with no state.
abbrev pub plain : (Str → List Str) → Str → Unit {0} → List Str × Unit {0}
plain imports f u = (imports f, u)

module _ (imports : Str → List Str) (start : Str) (universe : List Str) where
  -- Whatever is imported by the module, or by a file of the universe, is in it.
  abbrev pub Spans : Type 0
  Spans = (g f : Str) → (g ≡ start) ⊎ Elem g universe → Elem f (imports g) → Elem f universe

  Reaches-Elem : Spans → (f : Str) → Reaches imports start f → Elem f universe
  Reaches-Elem spans _ (direct f h) = spans start f (inl refl) h
  Reaches-Elem spans _ (onward g f r h) = spans g f (inr (Reaches-Elem spans g r)) h

  -- The invariant of the stack.
  record Held (queue seen : List Str) : Type 0 where
    seen_reached : (f : Str) → Elem f seen → Reaches imports start f
    queue_known : (f : Str) → Elem f queue → (f ≡ start) ⊎ Elem f seen
    waiting :
        (g f : Str) → (g ≡ start) ⊎ Elem g seen → Elem f (imports g) → Elem g queue ⊎ Elem f seen

  reached_by :
      (queue seen : List Str) (g f : Str)
      → Held queue seen
      → (g ≡ start) ⊎ Elem g seen
      → Elem f (imports g)
      → Reaches imports start f
  reached_by queue seen g f held (inl e) h = direct f (subst (λ x. Elem f (imports x)) e h)
  reached_by queue seen g f held (inr k) h = onward g f (held.seen_reached g k) h

  still_waiting :
      (current : Str) (queue seen : List Str) (o : Offered universe (imports current) queue seen)
      (g f : Str)
      → Elem f (imports g)
      → Elem g (current ∷ queue) ⊎ Elem f seen
      → Elem g (o.new ++ queue) ⊎ Elem f (o.new ++ seen)
  still_waiting current queue seen o g f h (inl (inl e)) =
      inr (o.all_deps f (subst (λ x. Elem f (imports x)) e h))
  still_waiting current queue seen o g f h (inl (inr k)) = inl (Elem-append_right g o.new queue k)
  still_waiting current queue seen o g f h (inr k) = inr (Elem-append_right f o.new seen k)

  Reaches-found :
      (seen : List Str) → Held [] seen → (f : Str) → Reaches imports start f → Elem f seen
  Reaches-found seen held _ (direct f h) = elim (held.waiting start f (inl refl) h) [
    | inl never ↦ absurd never
    | inr k ↦ k
  ]
  Reaches-found seen held _ (onward g f r h) =
      elim (held.waiting g f (inr (Reaches-found seen held g r)) h) [
        | inl never ↦ absurd never
        | inr k ↦ k
      ]

  Held-offer :
      (current : Str) (queue seen : List Str) (spans : Spans)
      → Held (current ∷ queue) seen
      → (o : Offered universe (imports current) queue seen) → Held (o.new ++ queue) (o.new ++ seen)
  Held-offer current queue seen spans held o = record {
    seen_reached = λ f h. elim (Elem-append f o.new seen h) [
      | inl k ↦
          reached_by (current ∷ queue) seen current f held (held.queue_known current (inl refl))
            (o.only_deps f k)
      | inr k ↦ held.seen_reached f k
    ];
    queue_known = λ f h. elim (Elem-append f o.new queue h) [
      | inl k ↦ inr (Elem-append_left f o.new seen k)
      | inr k ↦ elim (held.queue_known f (inr k)) [
        | inl e ↦ inl e
        | inr l ↦ inr (Elem-append_right f o.new seen l)
      ]
    ];
    waiting = λ g f k h. elim k [
      | inl e ↦ still_waiting current queue seen o g f h (held.waiting g f (inl e) h)
      | inr l ↦ elim (Elem-append g o.new seen l) [
        | inl fresh ↦ inl (Elem-append_left g o.new queue fresh)
        | inr old ↦ still_waiting current queue seen o g f h (held.waiting g f (inr old) h)
      ]
    ];
  }

  reach_from-Reaches :
      (fuel : ℕ) (queue seen : List Str)
      → Spans
      → Held queue seen
      → length queue + unseen universe seen ≤ fuel
      → (found : List Str) × ((reach_from (plain imports) fuel (queue, seen) tt).0 ≡ some found)
        × ((f : Str) → Elem f found ↔ Reaches imports start f)
  unfolding reach_from
  reach_from-Reaches fuel [] seen spans held enough =
      (seen, refl, λ f. (held.seen_reached f, Reaches-found seen held f))
  reach_from-Reaches zero (current ∷ queue) seen spans held enough = absurd (omega (arith, enough))
  reach_from-Reaches (suc fuel) (current ∷ queue) seen spans held enough =
      let o = offer-Offered universe (imports current) queue seen (λ f h. Reaches-Elem spans f (
        reached_by (current ∷ queue) seen current f held (held.queue_known current (inl refl))
          h)) in
      rw o.grows (
        reach_from-Reaches fuel (o.new ++ queue) (o.new ++ seen) spans
          (Held-offer current queue seen spans held o)
          (omega (arith, enough, o.measured, length-append o.new queue)))

  -- With one unit of fuel for each file of the universe and one for the module, the stack empties, and
  -- what it has seen is the files that the module reaches by one import or more.
  pub reach_from_lem :
      Spans
      → (found : List Str) × ((reach_from
            (plain imports)
            (suc (length universe))
            (start ∷ [], [])
            tt).0
          ≡ some found)
        × ((f : Str) → Elem f found ↔ Reaches imports start f)
  reach_from_lem spans =
      reach_from-Reaches (suc (length universe)) (start ∷ []) [] spans
        (record {
          seen_reached = λ f h. absurd h;
          queue_known = λ f h. elim h [ inl e ↦ inl e | inr never ↦ absurd never ];
          waiting = λ g f k h. elim k [ inl e ↦ inl (inl e) | inr never ↦ absurd never ];
        })
        (omega (arith, unseen_empty universe))
