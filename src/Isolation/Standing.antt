-- ===== src/Isolation/Standing.antt =====
-- isolation.py: which names stand in a module behind `_restore_shared`.
use tiderace.Base.{
  Bool, Bool-cases, Dict, Option, Option-cases, Str, arith, erase, false, inl, inr, is_some, lookup,
  lookup-erase, lookup-insert_other, lookup-insert_same, none, refl, some, str_eq, str_eq_refl,
  true, ℕ, ◌∙◌, ◌≡◌,
}
use tiderace.Isolation.Globals.{Kept, Python, Space, opaque, restore_in_place, saved}
use tiderace.Isolation.Shared.{put_back, put_saved, rebind, restore_name, stands}

module _ {H : Type 0} (py : Python H) (depth : ℕ) where
  lookup-erase_other :
      {V : Type 0} (k j : Str) (d : Dict V) → str_eq k j ≡ false → lookup j (erase k d) ≡ lookup j d
  lookup-erase_other k j d h = lookup-erase k j d ∙ rw h refl

  lookup-erase_same : {V : Type 0} (k : Str) (d : Dict V) → lookup k (erase k d) ≡ none
  lookup-erase_same k d = lookup-erase k k d ∙ rw (str_eq_refl k) refl

  rebind-other :
      (k j : Str) (old : ℕ) (sp : Space H)
      → str_eq k j ≡ false
      → lookup j (rebind py depth k old sp).space.names ≡ lookup j sp.names
  unfolding rebind
  rebind-other k j old sp h = elim (Option-cases (py.deepcopy old sp.heap)) [
    | inl e ↦ rw (e, rebind) refl
    | inr (c, e) ↦ rw (e, rebind) (lookup-insert_other k j c.0 sp.names h)
  ]

  rebind-same :
      (k : Str) (old : ℕ) (sp : Space H)
      → (rebind py depth k old sp).raised ≡ false
      → is_some (lookup k (rebind py depth k old sp).space.names) ≡ true
  unfolding rebind
  rebind-same k old sp = elim (Option-cases (py.deepcopy old sp.heap)) [
    | inl e ↦ rw (e, rebind) (λ r. absurd (ground (arith, r)))
    | inr (c, e) ↦
        rw (e, rebind) (λ r. rw (lookup-insert_same k k c.0 sp.names (str_eq_refl k)) refl)
  ]

  put_back-other :
      (k j : Str) (live old : ℕ) (sp : Space H)
      → str_eq k j ≡ false
      → lookup j (put_back py depth k live old sp).space.names ≡ lookup j sp.names
  unfolding put_back
  put_back-other k j live old sp h =
      let tried = restore_in_place py depth live old sp.heap in
      elim (Bool-cases tried.raised) [
        | inl r ↦ rw r refl
        | inr r ↦ elim (Bool-cases tried.handled) [
          | inl d ↦ rw (r, d) refl
          | inr d ↦ rw (r, d) (rebind-other k j old (record sp { heap = tried.heap }) h)
        ]
      ]

  put_back-same :
      (k : Str) (live old : ℕ) (sp : Space H)
      → is_some (lookup k sp.names) ≡ true
      → (put_back py depth k live old sp).raised ≡ false
      → is_some (lookup k (put_back py depth k live old sp).space.names) ≡ true
  unfolding put_back
  put_back-same k live old sp h =
      let tried = restore_in_place py depth live old sp.heap in
      elim (Bool-cases tried.raised) [
        | inl r ↦ rw r (λ e. h)
        | inr r ↦ elim (Bool-cases tried.handled) [
          | inl d ↦ rw (r, d) (λ e. h)
          | inr d ↦ rw (r, d) (rebind-same k old (record sp { heap = tried.heap }))
        ]
      ]

  put_saved-other :
      (k j : Str) (old : ℕ) (sp : Space H)
      → str_eq k j ≡ false
      → lookup j (put_saved py depth k old sp).space.names ≡ lookup j sp.names
  unfolding put_saved
  put_saved-other k j old sp h = elim (Option-cases (lookup k sp.names)) [
    | inl e ↦ rw (e, put_saved) (rebind-other k j old sp h)
    | inr (live, e) ↦ elim (Bool-cases (py.equal sp.heap live old)) [
      | inl q ↦ rw (e, put_saved, q) refl
      | inr q ↦ rw (e, put_saved, q) (put_back-other k j live old sp h)
    ]
  ]

  put_saved-same :
      (k : Str) (old : ℕ) (sp : Space H)
      → (put_saved py depth k old sp).raised ≡ false
      → is_some (lookup k (put_saved py depth k old sp).space.names) ≡ true
  unfolding put_saved
  put_saved-same k old sp = elim (Option-cases (lookup k sp.names)) [
    | inl e ↦ rw (e, put_saved) (rebind-same k old sp)
    | inr (live, e) ↦ elim (Bool-cases (py.equal sp.heap live old)) [
      | inl q ↦ rw (e, put_saved, q) (λ r. rw e refl)
      | inr q ↦ rw (e, put_saved, q) (put_back-same k live old sp (rw e refl))
    ]
  ]

  pub restore_name-other :
      (k j : Str) (b c : Option Kept) (sp : Space H)
      → str_eq k j ≡ false
      → lookup j (restore_name py depth k b c sp).space.names ≡ lookup j sp.names
  unfolding restore_name
  restore_name-other k j (some opaque) c sp h = refl
  restore_name-other k j none none sp h = lookup-erase_other k j sp.names h
  restore_name-other k j none (some opaque) sp h = refl
  restore_name-other k j none (some (saved a)) sp h = lookup-erase_other k j sp.names h
  restore_name-other k j (some (saved old)) none sp h = put_saved-other k j old sp h
  restore_name-other k j (some (saved old)) (some opaque) sp h = refl
  restore_name-other k j (some (saved old)) (some (saved a)) sp h = put_saved-other k j old sp h

  pub restore_name-same :
      (k : Str) (b c : Option Kept) (sp : Space H)
      → (restore_name py depth k b c sp).raised ≡ false
      → is_some (lookup k (restore_name py depth k b c sp).space.names)
        ≡ stands py depth b c (is_some (lookup k sp.names))
  unfolding restore_name stands
  restore_name-same k (some opaque) c sp r = refl
  restore_name-same k none none sp r = rw (lookup-erase_same k sp.names) refl
  restore_name-same k none (some opaque) sp r = refl
  restore_name-same k none (some (saved a)) sp r = rw (lookup-erase_same k sp.names) refl
  restore_name-same k (some (saved old)) none sp r = put_saved-same k old sp r
  restore_name-same k (some (saved old)) (some opaque) sp r = refl
  restore_name-same k (some (saved old)) (some (saved a)) sp r = put_saved-same k old sp r

  pub stands-stands :
      (b c : Option Kept) (now : Bool)
      → stands py depth b c (stands py depth b c now) ≡ stands py depth b c now
  unfolding stands
  stands-stands (some opaque) c now = refl
  stands-stands none none now = refl
  stands-stands none (some opaque) now = refl
  stands-stands none (some (saved a)) now = refl
  stands-stands (some (saved old)) none now = refl
  stands-stands (some (saved old)) (some opaque) now = refl
  stands-stands (some (saved old)) (some (saved a)) now = refl
