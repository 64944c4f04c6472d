-- ===== src/Footprint/Offering.antt =====
-- What one round of the stack of `_import_closure` adds.
use tiderace.Base.{
  Bool-cases, Elem, Elem-append, Elem-append_right, List, Str, [], ap, append_assoc, arith, false,
  has_name, has_name-Elem, inl, inr, length, length-append, refl, str_eq_refl, subst, suc, sym,
  true, ℕ, ◌++◌, ◌+◌, ◌∷◌, ◌≡◌, ◌≤◌,
}
use tiderace.Footprint.{offer}

-- The files of the universe that are not seen yet.
abbrev pub unseen : List Str → List Str → ℕ
unseen [] seen = 0
unseen (u ∷ us) seen = elim (has_name u seen) [
  | true ↦ unseen us seen
  | false ↦ suc (unseen us seen)
]

unseen_fewer : (us seen : List Str) (f : Str) → unseen us (f ∷ seen) ≤ unseen us seen
unfolding has_name
unseen_fewer [] seen f = omega arith
unseen_fewer (u ∷ us) seen f = ground (arith, unseen_fewer us seen f)

unseen_drops :
    (us seen : List Str) (f : Str)
    → Elem f us
    → has_name f seen ≡ false
    → suc (unseen us (f ∷ seen)) ≤ unseen us seen
unfolding has_name
unseen_drops [] seen f h fresh = absurd h
unseen_drops (u ∷ us) seen f (inl e) fresh =
    subst (λ v. suc (unseen (v ∷ us) (f ∷ seen)) ≤ unseen (v ∷ us) seen) e
      (ground (arith, unseen_fewer us seen f, str_eq_refl f))
unseen_drops (u ∷ us) seen f (inr h) fresh = ground (arith, unseen_drops us seen f h fresh)

pub unseen_empty : (us : List Str) → unseen us [] ≡ length us
unfolding has_name
unseen_empty [] = refl
unseen_empty (u ∷ us) = ap suc (unseen_empty us)

append_one : (xs : List Str) (g : Str) (ys : List Str) → (xs ++ g ∷ []) ++ ys ≡ xs ++ g ∷ ys
append_one xs g ys = simp append_assoc

-- What an offer adds to the stack and to what is seen: `new`, in the same order to both.
pub record Offered (universe deps queue seen : List Str) : Type 0 where
  pub new : List Str
  pub grows : offer deps (queue, seen) ≡ (new ++ queue, new ++ seen)
  pub only_deps : (f : Str) → Elem f new → Elem f deps
  pub all_deps : (f : Str) → Elem f deps → Elem f (new ++ seen)
  pub measured : length new + unseen universe (new ++ seen) ≤ unseen universe seen

pub offer-Offered :
    (universe deps queue seen : List Str)
    → ((f : Str) → Elem f deps → Elem f universe)
    → Offered universe deps queue seen
unfolding offer
offer-Offered universe [] queue seen within = record {
  new = [];
  grows = refl;
  only_deps = λ f h. h;
  all_deps = λ f h. absurd h;
  measured = omega arith;
}
offer-Offered universe (g ∷ deps) queue seen within = elim (Bool-cases (has_name g seen)) [
  | inl old ↦
      (let o = offer-Offered universe deps queue seen (λ f h. within f (inr h)) in
        record {
          new = o.new;
          grows = rw (old, offer) o.grows;
          only_deps = λ f h. inr (o.only_deps f h);
          all_deps = λ f h. elim h [
            | inl e ↦
                Elem-append_right f o.new seen
                  (subst (λ x. Elem x seen) (sym e) ((has_name-Elem g seen).0 old))
            | inr k ↦ o.all_deps f k
          ];
          measured = o.measured;
        })
  | inr fresh ↦
      (let o = offer-Offered universe deps (g ∷ queue) (g ∷ seen) (λ f h. within f (inr h)) in
        record {
          new = o.new ++ g ∷ [];
          grows = rw (fresh, offer, append_one o.new g queue, append_one o.new g seen) o.grows;
          only_deps = λ f h. elim (Elem-append f o.new (g ∷ []) h) [
            | inl k ↦ inr (o.only_deps f k)
            | inr k ↦ elim k [ inl e ↦ inl e | inr never ↦ absurd never ]
          ];
          all_deps = λ f h. rw (append_one o.new g seen) (elim h [
            | inl e ↦ Elem-append_right f o.new (g ∷ seen) (inl e)
            | inr k ↦ o.all_deps f k
          ]);
          measured = rw (append_one o.new g seen) (
              omega (
                arith,
                o.measured,
                length-append o.new (g ∷ []),
                unseen_drops universe seen g (within g (inl refl)) fresh,
              ));
        })
]
