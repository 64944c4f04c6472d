-- ===== src/Isolation/NothingNew.antt =====
-- isolation.py: what a clean container holds, entry by entry, and what a missing delta says.
use tiderace.Base.{
  All, Bool-cases, Dict, List, Str, [], any, arith, false, inl, inr, is_some, lookup, none, true,
  ◌∷◌, ◌≡◌, ◌⊎◌,
}
use tiderace.Isolation.Registries.{
  Container, Item, Saved, Store, Values, added_labels, collection, has_added, has_item, is_added,
  is_added_key, is_test_owned, mapping, registry_delta, same_container, sequence,
}
use tiderace.Isolation.PulledOut.{same_container-has_added}

module _ (values : Values) (test_module : Str) where
  -- What stands in a container stood in its copy under the same key or as an equal value, or test code
  -- does not own it. A copy is of its container's type.
  abbrev pub HoldsNothingNew : Container → Container → Type 0
  HoldsNothingNew (mapping d) (mapping saved) =
      All
        (λ (e : Str × Item).
          (is_some (lookup e.0 saved) ≡ true) ⊎ (is_test_owned values test_module e.1 ≡ false))
        d
  HoldsNothingNew (sequence xs) (sequence saved) =
      All (λ v. (has_item saved v ≡ true) ⊎ (is_test_owned values test_module v ≡ false)) xs
  HoldsNothingNew (collection xs) (collection saved) =
      All (λ v. (has_item saved v ≡ true) ⊎ (is_test_owned values test_module v ≡ false)) xs
  HoldsNothingNew c saved = Unit

  old_items :
      (saved xs : List Item)
      → any (is_added values test_module saved) xs ≡ false
      → All (λ v. (has_item saved v ≡ true) ⊎ (is_test_owned values test_module v ≡ false)) xs
  unfolding is_added
  old_items saved [] h = tt
  old_items saved (v ∷ xs) h = (
    elim (Bool-cases (has_item saved v)) [ inl e ↦ inl e | inr e ↦ inr (ground (arith, e, h)) ],
    old_items saved xs (ground (arith, h)),
  )

  old_entries :
      (saved d : Dict Item)
      → any (is_added_key values test_module saved) d ≡ false
      → All
          (λ (e : Str × Item).
            (is_some (lookup e.0 saved) ≡ true) ⊎ (is_test_owned values test_module e.1 ≡ false))
          d
  unfolding is_added_key
  old_entries saved [] h = tt
  old_entries saved (p ∷ d) h = (
    elim (Bool-cases (is_some (lookup p.0 saved))) [
      | inl e ↦ inl e
      | inr e ↦ inr (ground (arith, e, h))
    ],
    old_entries saved d (ground (arith, h)),
  )

  pub has_added-HoldsNothingNew :
      (c saved : Container) → has_added values test_module c saved ≡ false → HoldsNothingNew c saved
  unfolding has_added
  has_added-HoldsNothingNew (mapping d) (mapping saved) h = old_entries saved d h
  has_added-HoldsNothingNew (sequence xs) (sequence saved) h = old_items saved xs h
  has_added-HoldsNothingNew (collection xs) (collection saved) h = old_items saved xs h
  has_added-HoldsNothingNew (mapping d) (sequence saved) h = tt
  has_added-HoldsNothingNew (mapping d) (collection saved) h = tt
  has_added-HoldsNothingNew (sequence d) (mapping saved) h = tt
  has_added-HoldsNothingNew (sequence d) (collection saved) h = tt
  has_added-HoldsNothingNew (collection d) (mapping saved) h = tt
  has_added-HoldsNothingNew (collection d) (sequence saved) h = tt

  -- The container cannot be compared with its copy, or not be looked through, or it holds nothing new.
  abbrev pub IsUntouched : Store → Saved → Type 0
  IsUntouched store s =
      (values.clashes (store s.address) s.copy ≡ true)
      ⊎ ((values.balks (store s.address) s.copy ≡ true) ⊎ HoldsNothingNew (store s.address) s.copy)

  added_labels-none :
      (before : List Saved) (store : Store)
      → added_labels values test_module before store ≡ []
      → All (IsUntouched store) before
  unfolding added_labels
  added_labels-none [] store h = tt
  added_labels-none (s ∷ before) store h = (
    elim (Bool-cases (values.clashes (store s.address) s.copy)) [
      | inl e ↦ inl e
      | inr e ↦ elim (Bool-cases (values.balks (store s.address) s.copy)) [
        | inl b ↦ inr (inl b)
        | inr b ↦ inr (
            inr (
              has_added-HoldsNothingNew (store s.address) s.copy
                (elim (Bool-cases (same_container (store s.address) s.copy)) [
                  | inl q ↦ same_container-has_added values test_module (store s.address) s.copy q
                  | inr q ↦
                      elim (Bool-cases (has_added values test_module (store s.address) s.copy)) [
                        | inl w ↦ absurd (ground (arith, e, b, q, w, h))
                        | inr w ↦ w
                      ]
                ])))
      ]
    ],
    added_labels-none before store (ground (arith, h)),
  )

  pub registry_delta-IsUntouched :
      (before : List Saved) (store : Store)
      → registry_delta values test_module before store ≡ none
      → All (IsUntouched store) before
  unfolding registry_delta
  registry_delta-IsUntouched before store h = added_labels-none before store (ground (arith, h))
