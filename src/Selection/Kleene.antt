-- ===== src/Selection/Kleene.antt =====
-- What the three-valued evaluation of selection.py promises.
use tiderace.Base.{
  Bool, List, Str, [], any, ap, arith, false, none, not, refl, some, true, ◌&&◌, ◌||◌, ◌∷◌, ◌≡◌,
  ◌⊎◌,
}
use tiderace.Selection.Trees.{
  Kleene, Tree, Trees, all_of, any_of, cons, evaluate, evaluate_all, ident, is_false, is_unknown,
  is_yes, kleene_all, kleene_any, kleene_not, negation, nil,
}

-- A verdict that is not "cannot tell" stays the verdict.
abbrev pub Refines : Kleene → Kleene → Type 0
Refines u v = (u ≡ none) ⊎ (u ≡ v)

abbrev RefinesAll : List Kleene → List Kleene → Type 0
RefinesAll [] [] = Unit
RefinesAll [] (v ∷ vs) = ⊥
RefinesAll (u ∷ us) [] = ⊥
RefinesAll (u ∷ us) (v ∷ vs) = Refines u v × RefinesAll us vs

RefinesAll-same : (us vs : List Kleene) → RefinesAll us vs → any is_unknown us ≡ false → us ≡ vs
RefinesAll-same [] [] h k = refl
RefinesAll-same [] (v ∷ vs) h k = absurd h
RefinesAll-same (u ∷ us) [] h k = absurd h
RefinesAll-same (u ∷ us) (v ∷ vs) h k = ground (arith, RefinesAll-same us vs h.1)

any-is_false :
    (us vs : List Kleene) → RefinesAll us vs → any is_false us ≡ true → any is_false vs ≡ true
any-is_false [] [] h k = k
any-is_false [] (v ∷ vs) h k = absurd h
any-is_false (u ∷ us) [] h k = absurd h
any-is_false (u ∷ us) (v ∷ vs) h k = ground (arith, any-is_false us vs h.1)

any-is_yes : (us vs : List Kleene) → RefinesAll us vs → any is_yes us ≡ true → any is_yes vs ≡ true
any-is_yes [] [] h k = k
any-is_yes [] (v ∷ vs) h k = absurd h
any-is_yes (u ∷ us) [] h k = absurd h
any-is_yes (u ∷ us) (v ∷ vs) h k = ground (arith, any-is_yes us vs h.1)

kleene_all-Refines :
    (us vs : List Kleene) → RefinesAll us vs → Refines (kleene_all us) (kleene_all vs)
unfolding kleene_all
kleene_all-Refines us vs h = ground (arith, any-is_false us vs h, RefinesAll-same us vs h)

kleene_any-Refines :
    (us vs : List Kleene) → RefinesAll us vs → Refines (kleene_any us) (kleene_any vs)
unfolding kleene_any
kleene_any-Refines us vs h = ground (arith, any-is_yes us vs h, RefinesAll-same us vs h)

kleene_not-Refines : (u v : Kleene) → Refines u v → Refines (kleene_not u) (kleene_not v)
unfolding kleene_not
kleene_not-Refines u v h = ground arith

module _ (early late : Str → Kleene) (refines : (s : Str) → Refines (early s) (late s)) where
  mutual
    unfolding evaluate

    tree-Refines : (t : Tree) → Refines (evaluate t early) (evaluate t late)
    tree-Refines (ident s) = refines s
    tree-Refines (negation t) =
        kleene_not-Refines (evaluate t early) (evaluate t late) (tree-Refines t)
    tree-Refines (all_of ts) =
        kleene_all-Refines (evaluate_all ts early) (evaluate_all ts late) (trees-Refines ts)
    tree-Refines (any_of ts) =
        kleene_any-Refines (evaluate_all ts early) (evaluate_all ts late) (trees-Refines ts)

    trees-Refines : (ts : Trees) → RefinesAll (evaluate_all ts early) (evaluate_all ts late)
    trees-Refines nil = tt
    trees-Refines (cons t ts) = (tree-Refines t, trees-Refines ts)

  -- If the answers to identifiers are only made more definite, a decided verdict of the expression
  -- stays.
  pub evaluate-Refines : (t : Tree) → Refines (evaluate t early) (evaluate t late)
  evaluate-Refines t = tree-Refines t

-- The Boolean reading of a tree.
unfoldable mutual
  pub holds : Tree → (Str → Bool) → Bool
  holds (ident s) f = f s
  holds (negation t) f = not (holds t f)
  holds (all_of ts) f = all_hold ts f
  holds (any_of ts) f = some_holds ts f

  pub all_hold : Trees → (Str → Bool) → Bool
  all_hold nil f = true
  all_hold (cons t ts) f = holds t f && all_hold ts f

  pub some_holds : Trees → (Str → Bool) → Bool
  some_holds nil f = false
  some_holds (cons t ts) f = holds t f || some_holds ts f

kleene_all-cons :
    (b c : Bool) (us : List Kleene)
    → kleene_all us ≡ some c
    → kleene_all (some b ∷ us) ≡ some (b && c)
unfolding kleene_all
kleene_all-cons b c us h = ground arith

kleene_any-cons :
    (b c : Bool) (us : List Kleene)
    → kleene_any us ≡ some c
    → kleene_any (some b ∷ us) ≡ some (b || c)
unfolding kleene_any
kleene_any-cons b c us h = ground arith

-- With an answer for every identifier, the evaluation is the Boolean reading.
module _ (f : Str → Bool) where
  mutual
    unfolding evaluate holds kleene_not

    pub evaluate-holds : (t : Tree) → evaluate t (λ s. some (f s)) ≡ some (holds t f)
    evaluate-holds (ident s) = refl
    evaluate-holds (negation t) = ap kleene_not (evaluate-holds t)
    evaluate-holds (all_of ts) = all_of-holds ts
    evaluate-holds (any_of ts) = any_of-holds ts

    all_of-holds :
        (ts : Trees) → kleene_all (evaluate_all ts (λ s. some (f s))) ≡ some (all_hold ts f)
    all_of-holds nil = refl
    all_of-holds (cons t ts) = rw (evaluate-holds t) (
        kleene_all-cons (holds t f) (all_hold ts f) (evaluate_all ts (λ s. some (f s)))
          (all_of-holds ts))

    any_of-holds :
        (ts : Trees) → kleene_any (evaluate_all ts (λ s. some (f s))) ≡ some (some_holds ts f)
    any_of-holds nil = refl
    any_of-holds (cons t ts) = rw (evaluate-holds t) (
        kleene_any-cons (holds t f) (some_holds ts f) (evaluate_all ts (λ s. some (f s)))
          (any_of-holds ts))
