-- ===== src/Scopes/Teardown.antt =====
-- What `_teardown_stale` of engine.py closes.
use tiderace.Base.{
  All, Bool, Bool-cases, List, Str, [], ap, arith, false, inl, inr, refl, subst, sym, true, ◌++◌,
  ◌∷◌, ◌≡◌,
}
use tiderace.Fixtures.{instance_key}
use tiderace.Scopes.{Active, Host, key_same, teardown_while}

module _ {V H W : Type 0} (host : Host V H W) (node : Str) where
  abbrev is_current : Active V H → Bool
  is_current a = key_same a.key (instance_key a.fdef node)

  -- The last that was set up, if any, is current.
  abbrev pub HeadIsCurrent : List (Active V H) → Type 0
  HeadIsCurrent [] = Unit
  HeadIsCurrent (a ∷ as') = is_current a ≡ true

  abbrev pub AreStale : List (Active V H) → Type 0
  AreStale = All (λ a. is_current a ≡ false)

  -- From `w` to `w'`, the fixtures were closed one after another, and no `close` raised.
  abbrev Closes : List (Active V H) → W → W → Type 0
  Closes [] w w' = w' ≡ w
  Closes (a ∷ as') w w' =
      ((host.close a.handle w).0 ≡ true) × Closes as' (host.close a.handle w).1 w'

  -- The loop's end, with what is left and the state in which the closing ended: the newest that is
  -- left is current, or it is stale and its `close` raised.
  abbrev Stops : List (Active V H) → W → Bool → W → Type 0
  Stops left at true w' = HeadIsCurrent left × (w' ≡ at)
  Stops [] at false w' = ⊥
  Stops (a ∷ left) at false w' = (is_current a ≡ false) × (host.close a.handle at ≡ (false, w'))

  -- Of `active`, the newest ones were stale and were closed, from the newest on, and the rest is left.
  abbrev pub ClosesStale : List (Active V H) → W → Bool × List (Active V H) × W → Type 0
  ClosesStale active w (ok, left, w') =
      (closed : List (Active V H)) × (at : W) × (active ≡ closed ++ left)
      × AreStale closed
      × Closes closed w at
      × Stops left at ok w'

  teardown_while-current :
      (a : Active V H) (as' : List (Active V H)) (w : W)
      → is_current a ≡ true
      → teardown_while host node (a ∷ as') w ≡ (true, a ∷ as', w)
  unfolding teardown_while
  teardown_while-current a as' w current = ground arith

  teardown_while-closed :
      (a : Active V H) (as' : List (Active V H)) (w : W)
      → is_current a ≡ false
      → (host.close a.handle w).0 ≡ true
      → teardown_while host node (a ∷ as') w
        ≡ teardown_while host node as' (host.close a.handle w).1
  unfolding teardown_while
  teardown_while-closed a as' w stale closed = ground arith

  teardown_while-raised :
      (a : Active V H) (as' : List (Active V H)) (w : W)
      → is_current a ≡ false
      → (host.close a.handle w).0 ≡ false
      → teardown_while host node (a ∷ as') w ≡ (false, a ∷ as', (host.close a.handle w).1)
  unfolding teardown_while
  teardown_while-raised a as' w stale raised = ground arith

  -- The loop closes the newest fixtures, one after another from the newest on, each of them stale and
  -- each by its `close`, and stops at the first that is current, which changes nothing more, or at a
  -- stale one whose `close` raised, which is still active.
  pub teardown_while-ClosesStale :
      (active : List (Active V H)) (w : W)
      → ClosesStale active w (teardown_while host node active w)
  teardown_while-ClosesStale [] w = unfold teardown_while in ([], w, refl, tt, refl, (tt, refl))
  teardown_while-ClosesStale (a ∷ as') w = elim (Bool-cases (is_current a)) [
    | inl current ↦
        subst (ClosesStale (a ∷ as') w) (sym (teardown_while-current a as' w current))
          ([], w, refl, tt, refl, (current, refl))
    | inr stale ↦ elim (Bool-cases (host.close a.handle w).0) [
      | inl closed ↦
          (let (cs, at, e, all_stale, closes, stops) =
              teardown_while-ClosesStale as' (host.close a.handle w).1 in
            subst (ClosesStale (a ∷ as') w) (sym (teardown_while-closed a as' w stale closed))
              (a ∷ cs, at, ap (λ l. a ∷ l) e, (stale, all_stale), (closed, closes), stops))
      | inr raised ↦
          subst (ClosesStale (a ∷ as') w) (sym (teardown_while-raised a as' w stale raised))
            ([], w, refl, tt, refl, (stale, ap (λ b. (b, (host.close a.handle w).1)) raised))
    ]
  ]
