-- ===== src/MonkeyPatch/Undoing.antt =====
-- What `undo` of _monkeypatch.py gives back, after any calls of the patcher.
use tiderace.Base.{
  Bool, Bool-cases, Option, Str, arith, eqb, eqb_iff, erase, false, if◌then◌else◌, inl, inr, insert,
  lookup, lookup-erase, lookup-insert, none, refl, some, str_eq, str_eq_iff, str_eq_refl, subst,
  sym, true, ℕ, ◌&&◌, ◌∙◌, ◌≡◌,
}
use tiderace.MonkeyPatch.{
  Shape, Undo, World, drop_key, put, remove_key, set_key, undo_one, with_cell,
}

-- The cell of a key of one object, against that of another.
abbrev is_at : ℕ → Str → ℕ → Str → Bool
is_at o n p j = eqb o p && str_eq n j

at_both : (o : ℕ) (n : Str) (p : ℕ) (j : Str) → is_at o n p j ≡ true → (o ≡ p) × (n ≡ j)
at_both o n p j h = ground (arith, h, eqb_iff o p, str_eq_iff n j)

module _ {V : Type 0} where
  -- Nothing that a lookup, `sys.path` or the working directory shows is different.
  abbrev pub Same : World V → World V → Type 0
  Same w w' =
      ((p : ℕ) (j : Str) → lookup j (w.cells p) ≡ lookup j (w'.cells p))
      × (w.sys_path ≡ w'.sys_path)
      × (w.cwd ≡ w'.cwd)

  set_key-lookup :
      (o : ℕ) (n : Str) (v : V) (w : World V) (p : ℕ) (j : Str)
      → lookup j ((set_key o n v w).cells p)
        ≡ (if is_at o n p j then some v else lookup j (w.cells p))
  unfolding set_key with_cell
  set_key-lookup o n v w p j = elim (Bool-cases (eqb o p)) [
    | inr elsewhere ↦ rw (elsewhere, set_key, with_cell) refl
    | inl here ↦
        rw (here, set_key, with_cell)
          (subst
            (λ q.
              lookup j (insert n v (w.cells o))
              ≡ (if str_eq n j then some v else lookup j (w.cells q)))
            ((eqb_iff o p).0 here) (lookup-insert n j v (w.cells o)))
  ]

  remove_key-lookup :
      (o : ℕ) (n : Str) (w : World V) (p : ℕ) (j : Str)
      → lookup j ((remove_key o n w).cells p)
        ≡ (if is_at o n p j then none else lookup j (w.cells p))
  unfolding remove_key with_cell
  remove_key-lookup o n w p j = elim (Bool-cases (eqb o p)) [
    | inr elsewhere ↦ rw (elsewhere, remove_key, with_cell) refl
    | inl here ↦
        rw (here, remove_key, with_cell)
          (subst
            (λ q.
              lookup j (erase n (w.cells o)) ≡ (if str_eq n j then none else lookup j (w.cells q)))
            ((eqb_iff o p).0 here) (lookup-erase n j (w.cells o)))
  ]

  -- The two worlds differ at most in one cell.
  abbrev SameBut : ℕ → Str → World V → World V → Type 0
  SameBut o n x w =
      ((p : ℕ) (j : Str) → is_at o n p j ≡ false → lookup j (x.cells p) ≡ lookup j (w.cells p))
      × (x.sys_path ≡ w.sys_path)
      × (x.cwd ≡ w.cwd)

  -- At the cell itself.
  lookup_at :
      (o : ℕ) (n : Str) (w : World V) (p : ℕ) (j : Str)
      → is_at o n p j ≡ true
      → lookup j (w.cells p) ≡ lookup n (w.cells o)
  lookup_at o n w p j h =
      let (here, key) = at_both o n p j h in
      subst (λ q. lookup j (w.cells q) ≡ lookup n (w.cells o)) here
        (subst (λ k. lookup k (w.cells o) ≡ lookup n (w.cells o)) key refl)

  Same-set_key :
      (o : ℕ) (n : Str) (old : V) (x w : World V)
      → SameBut o n x w
      → lookup n (w.cells o) ≡ some old
      → Same (set_key o n old x) w
  unfolding set_key with_cell
  Same-set_key o n old x w (cells, paths, dirs) h = (
    (λ p j. set_key-lookup o n old x p j ∙ elim (Bool-cases (is_at o n p j)) [
      | inl here ↦ rw here (sym (lookup_at o n w p j here ∙ h))
      | inr elsewhere ↦ rw elsewhere (cells p j elsewhere)
    ]),
    paths,
    dirs,
  )

  Same-remove_key :
      (o : ℕ) (n : Str) (x w : World V)
      → SameBut o n x w
      → lookup n (w.cells o) ≡ none
      → Same (remove_key o n x) w
  unfolding remove_key with_cell
  Same-remove_key o n x w (cells, paths, dirs) h = (
    (λ p j. remove_key-lookup o n x p j ∙ elim (Bool-cases (is_at o n p j)) [
      | inl here ↦ rw here (sym (lookup_at o n w p j here ∙ h))
      | inr elsewhere ↦ rw elsewhere (cells p j elsewhere)
    ]),
    paths,
    dirs,
  )

  SameBut-set_key :
      (o : ℕ) (n : Str) (v : V) (x w : World V) → Same x (set_key o n v w) → SameBut o n x w
  unfolding set_key with_cell
  SameBut-set_key o n v x w (cells, paths, dirs) =
      ((λ p j elsewhere. cells p j ∙ set_key-lookup o n v w p j ∙ rw elsewhere refl), paths, dirs)

  SameBut-remove_key :
      (o : ℕ) (n : Str) (x w : World V) → Same x (remove_key o n w) → SameBut o n x w
  unfolding remove_key with_cell
  SameBut-remove_key o n x w (cells, paths, dirs) =
      ((λ p j elsewhere. cells p j ∙ remove_key-lookup o n w p j ∙ rw elsewhere refl), paths, dirs)

module _ {V : Type 0} (shape : Shape V) where
  -- What a call recorded takes a world that shows what the call left back to what there was.
  abbrev pub Reverts : Option (Undo V) → World V → World V → Type 0
  Reverts none x w = Same x w
  Reverts (some u) x w = (y : World V) × (undo_one shape u x ≡ some y) × Same y w

  pub Reverts-set :
      (o : ℕ) (n : Str) (v old : V) (x w : World V)
      → lookup n (w.cells o) ≡ some old
      → shape.takes o n old ≡ true
      → Same x (set_key o n v w)
      → Reverts (some (put o n old)) x w
  unfolding undo_one
  Reverts-set o n v old x w h taken same = (
    set_key o n old x,
    rw taken refl,
    Same-set_key o n old x w (SameBut-set_key o n v x w same) h,
  )

  pub Reverts-new :
      (o : ℕ) (n : Str) (v : V) (x w : World V)
      → lookup n (w.cells o) ≡ none
      → Same x (set_key o n v w)
      → Reverts (some (drop_key o n)) x w
  unfolding undo_one
  Reverts-new o n v x w h same =
      let there : lookup n (x.cells o) ≡ some v =
        same.0 o n ∙ set_key-lookup o n v w o n ∙ rw ((eqb_iff o o).1 refl, str_eq_refl n) refl in
      (
        remove_key o n x,
        rw (there, undo_one) refl,
        Same-remove_key o n x w (SameBut-set_key o n v x w same) h,
      )

  pub Reverts-removed :
      (o : ℕ) (n : Str) (old : V) (x w : World V)
      → lookup n (w.cells o) ≡ some old
      → shape.takes o n old ≡ true
      → Same x (remove_key o n w)
      → Reverts (some (put o n old)) x w
  unfolding undo_one
  Reverts-removed o n old x w h taken same = (
    set_key o n old x,
    rw taken refl,
    Same-set_key o n old x w (SameBut-remove_key o n x w same) h,
  )

  -- Where nothing changed, to put back what is there changes nothing.
  pub Reverts-kept :
      (o : ℕ) (n : Str) (old : V) (x w : World V)
      → lookup n (w.cells o) ≡ some old
      → shape.takes o n old ≡ true
      → Same x w
      → Reverts (some (put o n old)) x w
  unfolding undo_one
  Reverts-kept o n old x w h taken (cells, paths, dirs) = (
    set_key o n old x,
    rw taken refl,
    Same-set_key o n old x w ((λ p j e. cells p j), paths, dirs) h,
  )
