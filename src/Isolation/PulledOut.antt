-- ===== src/Isolation/PulledOut.antt =====
-- isolation.py: what `_restore_registries` leaves of the suite's own entries.
use tiderace.Base.{
  All, Bool, Bool-cases, Dict, List, Option-cases, Str, [], all, any, ap, arith, eqb, eqb_iff,
  false, inl, inr, keep, lookup, not, refl, subst, sym, true, ◌||◌, ◌∙◌, ◌∷◌, ◌≡◌,
}
use tiderace.Isolation.State.{same_list}
use tiderace.Isolation.Registries.{
  Container, Item, Saved, Store, Values, collection, has_added, has_item, is_added, is_added_key,
  is_saved_entry, mapping, pulled, restore_one, restore_registries, same_container, sequence,
}

any-keep {ℓ} :
    {A : Type ℓ} (p q : A → Bool) (xs : List A) → any p xs ≡ false → any p (keep q xs) ≡ false
any-keep p q [] h = refl
any-keep p q (x ∷ xs) h = ground (arith, any-keep p q xs)

any-keep-not {ℓ} :
    {A : Type ℓ} (p : A → Bool) (xs : List A) → any p (keep (λ x. not (p x)) xs) ≡ false
any-keep-not p [] = refl
any-keep-not p (x ∷ xs) = ground (arith, any-keep-not p xs)

all-any {ℓ} :
    {A : Type ℓ} (p q : A → Bool) (xs : List A)
    → ((x : A) → p x ≡ true → q x ≡ false)
    → all p xs ≡ true
    → any q xs ≡ false
all-any p q [] f h = refl
all-any p q (x ∷ xs) f h = ground (arith, f x, all-any p q xs f)

same_list-has_item :
    (xs ys zs : List Item)
    → same_list (λ v w. eqb v.tag w.tag) xs ys ≡ true
    → ((v : Item) → has_item ys v ≡ true → has_item zs v ≡ true)
    → all (has_item zs) xs ≡ true
unfolding same_list has_item
same_list-has_item [] ys zs h f = refl
same_list-has_item (x ∷ xs) [] zs h f = cc
same_list-has_item (x ∷ xs) (y ∷ ys) zs h f =
    let rest : (v : Item) → has_item ys v ≡ true → has_item zs v ≡ true =
      λ v e. f v (ground (arith, e)) in
    ground (arith, f x, same_list-has_item xs ys zs, rest)

module _ (values : Values) (test_module : Str) where
  is_added-has_item :
      (saved : List Item) (v : Item)
      → has_item saved v ≡ true
      → is_added values test_module saved v ≡ false
  unfolding is_added
  is_added-has_item saved v h = rw h refl

  is_added_key-is_saved_entry :
      (saved : Dict Item) (e : Str × Item)
      → is_saved_entry saved e ≡ true
      → is_added_key values test_module saved e ≡ false
  unfolding is_added_key is_saved_entry
  is_added_key-is_saved_entry saved e h = elim (Option-cases (lookup e.0 saved)) [
    | inl n ↦ absurd (ground (arith, n, h))
    | inr (w, s) ↦ rw s refl
  ]

  -- A container that equals its copy holds nothing that test code owns and its copy does not hold.
  pub same_container-has_added :
      (c saved : Container)
      → same_container c saved ≡ true
      → has_added values test_module c saved ≡ false
  unfolding same_container has_added
  same_container-has_added (mapping d) (mapping saved) h =
      all-any _ _ d (is_added_key-is_saved_entry saved) (ground (arith, h))
  same_container-has_added (sequence xs) (sequence saved) h =
      all-any _ _ xs (is_added-has_item saved) (same_list-has_item xs saved saved h (λ v e. e))
  same_container-has_added (collection xs) (collection saved) h =
      all-any _ _ xs (is_added-has_item saved) (ground (arith, h))
  same_container-has_added (mapping d) (sequence saved) h = refl
  same_container-has_added (mapping d) (collection saved) h = refl
  same_container-has_added (sequence d) (mapping saved) h = refl
  same_container-has_added (sequence d) (collection saved) h = refl
  same_container-has_added (collection d) (mapping saved) h = refl
  same_container-has_added (collection d) (sequence saved) h = refl

  has_added-pulled_self :
      (c saved : Container)
      → has_added values test_module (pulled values test_module c saved) saved ≡ false
  unfolding has_added pulled
  has_added-pulled_self (mapping d) (mapping saved) = any-keep-not _ d
  has_added-pulled_self (sequence xs) (sequence saved) = any-keep-not _ xs
  has_added-pulled_self (collection xs) (collection saved) = any-keep-not _ xs
  has_added-pulled_self (mapping d) (sequence saved) = refl
  has_added-pulled_self (mapping d) (collection saved) = refl
  has_added-pulled_self (sequence xs) (mapping saved) = refl
  has_added-pulled_self (sequence xs) (collection saved) = refl
  has_added-pulled_self (collection xs) (mapping saved) = refl
  has_added-pulled_self (collection xs) (sequence saved) = refl

  -- To pull out more leaves nothing behind that was not there.
  has_added-pulled :
      (c saved other : Container)
      → has_added values test_module c saved ≡ false
      → has_added values test_module (pulled values test_module c other) saved ≡ false
  unfolding has_added pulled
  has_added-pulled (mapping d) (mapping saved) (mapping other) h = any-keep _ _ d h
  has_added-pulled (mapping d) saved (sequence other) h = h
  has_added-pulled (mapping d) saved (collection other) h = h
  has_added-pulled (mapping d) (sequence saved) (mapping other) h = refl
  has_added-pulled (mapping d) (collection saved) (mapping other) h = refl
  has_added-pulled (sequence xs) (sequence saved) (sequence other) h = any-keep _ _ xs h
  has_added-pulled (sequence xs) saved (mapping other) h = h
  has_added-pulled (sequence xs) saved (collection other) h = h
  has_added-pulled (sequence xs) (mapping saved) (sequence other) h = refl
  has_added-pulled (sequence xs) (collection saved) (sequence other) h = refl
  has_added-pulled (collection xs) (collection saved) (collection other) h = any-keep _ _ xs h
  has_added-pulled (collection xs) saved (mapping other) h = h
  has_added-pulled (collection xs) saved (sequence other) h = h
  has_added-pulled (collection xs) (mapping saved) (collection other) h = refl
  has_added-pulled (collection xs) (sequence saved) (collection other) h = refl

  -- The container under a label holds nothing that test code owns and its copy does not hold.
  abbrev pub IsClean : Store → Saved → Type 0
  IsClean store s = has_added values test_module (store s.address) s.copy ≡ false

  restore_one-IsClean :
      (s : Saved) (store : Store)
      → values.balks (store s.address) s.copy ≡ false
      → IsClean (restore_one values test_module s store) s
  unfolding restore_one
  restore_one-IsClean s store calm = elim (Bool-cases (same_container (store s.address) s.copy)) [
    | inl e ↦ rw e (same_container-has_added (store s.address) s.copy e)
    | inr e ↦
        rw (e, calm, (eqb_iff s.address s.address).1 refl)
          (has_added-pulled_self (store s.address) s.copy)
  ]

  restore_one-keeps :
      (r s : Saved) (store : Store)
      → IsClean store s
      → IsClean (restore_one values test_module r store) s
  unfolding restore_one
  restore_one-keeps r s store h =
      elim (Bool-cases
        (same_container (store r.address) r.copy || values.balks (store r.address) r.copy)) [
          | inl e ↦ rw e h
          | inr e ↦ rw e (elim (Bool-cases (eqb r.address s.address)) [
            | inl a ↦ rw a (has_added-pulled (store s.address) s.copy r.copy h)
            | inr a ↦ rw a h
          ])
        ]

  restore_registries-clash :
      (s : Saved) (before : List Saved) (store : Store)
      → values.clashes (store s.address) s.copy ≡ true
      → restore_registries values test_module (s ∷ before) store ≡ (false, store)
  unfolding restore_registries
  restore_registries-clash s before store h = rw h refl

  restore_registries-next :
      (s : Saved) (before : List Saved) (store : Store)
      → values.clashes (store s.address) s.copy ≡ false
      → restore_registries values test_module (s ∷ before) store
        ≡ restore_registries values test_module before (restore_one values test_module s store)
  unfolding restore_registries
  restore_registries-next s before store h = rw h refl

  restore_registries-keeps :
      (before : List Saved) (s : Saved) (store : Store)
      → IsClean store s
      → IsClean (restore_registries values test_module before store).1 s
  restore_registries-keeps [] s store h = unfold restore_registries in h
  restore_registries-keeps (r ∷ before) s store h =
      elim (Bool-cases (values.clashes (store r.address) r.copy)) [
        | inl e ↦
            subst (λ (x : Bool × Store). IsClean x.1 s)
              (sym (restore_registries-clash r before store e)) h
        | inr e ↦
            subst (λ (x : Bool × Store). IsClean x.1 s)
              (sym (restore_registries-next r before store e))
              (restore_registries-keeps before s _ (restore_one-keeps r s store h))
      ]

  -- Where no comparison raised and no container balks, all of them are clean in the end.
  pub restore_registries-IsClean :
      (before : List Saved) (store : Store)
      → ((c d : Container) → values.balks c d ≡ false)
      → (restore_registries values test_module before store).0 ≡ true
      → All (IsClean (restore_registries values test_module before store).1) before
  restore_registries-IsClean [] store calm ended = tt
  restore_registries-IsClean (s ∷ before) store calm ended =
      elim (Bool-cases (values.clashes (store s.address) s.copy)) [
        | inl e ↦ absurd (ground (arith, restore_registries-clash s before store e, ended))
        | inr e ↦
            let next = restore_registries-next s before store e in
            subst (λ (x : Bool × Store). All (IsClean x.1) (s ∷ before)) (sym next)
              (
                restore_registries-keeps before s _ (restore_one-IsClean s store (calm _ _)),
                restore_registries-IsClean before _ calm
                    (ap (λ (x : Bool × Store). x.0) (sym next) ∙ ended),
              )
      ]
