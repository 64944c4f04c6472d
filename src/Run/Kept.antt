-- ===== src/Run/Kept.antt =====
-- From `-k` to the results: the gate's early verdict, the plan's selection and the walk together.
use tiderace.Base.{
  All, Bool, Bool-cases, Dict, List, Str, [], ap, append_assoc, arith, false, index_in, inl, inr,
  keep, length, refl, subst, suc, sym, true, ℕ, ◌++◌, ◌<◌, ◌||◌, ◌∙◌, ◌∷◌, ◌≡◌, ◌≤◌,
}
use tiderace.Selection.{Selection, is_false}
use tiderace.Selection.Verdicts.{CaseNames}
use tiderace.Run.{Asked, Runner, case_verdict, execute, indices_where, selected}
use tiderace.Run.Choice.{node_verdict, selected-case_verdict}
use tiderace.Run.Chosen.{chosen_ids, chosen_ids-hit, chosen_ids-miss, room}
use tiderace.Run.Walk.{Runs, execute-Runs}

index_in-append :
    (k : ℕ) (xs ys : List ℕ) → index_in k (xs ++ ys) ≡ (index_in k xs || index_in k ys)
index_in-append k [] ys = refl
index_in-append k (x ∷ xs) ys = ground (arith, index_in-append k xs ys)

indices_where-above :
    (f : Str → Bool) (k i : ℕ) (ids : List Str) → k < i → index_in k (indices_where f i ids) ≡ false
unfolding indices_where
indices_where-above f k i [] h = refl
indices_where-above f k i (id ∷ ids) h =
    let ih = indices_where-above f k (suc i) ids (omega arith) in ground (arith, ih)

indices_where-hit :
    (f : Str → Bool) (i : ℕ) (id : Str) (ids : List Str)
    → f id ≡ true
    → indices_where f i (id ∷ ids) ≡ i ∷ indices_where f (suc i) ids
unfolding indices_where
indices_where-hit f i id ids h = ground arith

indices_where-miss :
    (f : Str → Bool) (i : ℕ) (id : Str) (ids : List Str)
    → f id ≡ false
    → indices_where f i (id ∷ ids) ≡ indices_where f (suc i) ids
unfolding indices_where
indices_where-miss f i id ids h = ground arith

-- The ids at the indices of a set of ids are that set; `pre` holds indices that are passed.
chosen_ids-keep :
    (f : Str → Bool) (pre : List ℕ) (i : ℕ) (ids : List Str)
    → ((k : ℕ) → i ≤ k → index_in k pre ≡ false)
    → chosen_ids (pre ++ indices_where f i ids) i ids ≡ keep f ids
chosen_ids-keep f pre i [] h = refl
chosen_ids-keep f pre i (id ∷ ids) h = elim (Bool-cases (f id)) [
  | inl keeps ↦
      (let same : pre ++ indices_where f i (id ∷ ids)
            ≡ (pre ++ i ∷ []) ++ indices_where f (suc i) ids =
          ap (λ l. pre ++ l) (indices_where-hit f i id ids keeps)
          ∙ sym (append_assoc pre (i ∷ []) (indices_where f (suc i) ids)) in
        let found : index_in i ((pre ++ i ∷ []) ++ indices_where f (suc i) ids) ≡ true = ground (
          arith,
          index_in-append i (pre ++ i ∷ []) (indices_where f (suc i) ids),
          index_in-append i pre (i ∷ []),
        ) in
        ap (λ l. chosen_ids l i (id ∷ ids)) same
        ∙ chosen_ids-hit _ i id ids found
        ∙ ap (λ l. id ∷ l)
            (chosen_ids-keep f (pre ++ i ∷ []) (suc i) ids
              (λ k le. ground (arith, index_in-append k pre (i ∷ []), h k (omega arith))))
        ∙ sym (keep-hit f id ids keeps))
  | inr drops ↦
      (let absent : index_in i (pre ++ indices_where f (suc i) ids) ≡ false = ground (
        arith,
        index_in-append i pre (indices_where f (suc i) ids),
        h i (omega arith),
        indices_where-above f i (suc i) ids (omega arith),
      ) in
        ap (λ l. chosen_ids (pre ++ l) i (id ∷ ids)) (indices_where-miss f i id ids drops)
        ∙ chosen_ids-miss _ i id ids absent
        ∙ chosen_ids-keep f pre (suc i) ids (λ k le. h k (omega arith))
        ∙ sym (keep-miss f id ids drops))
]
  where
    keep-hit :
        (f : Str → Bool) (id : Str) (ids : List Str)
        → f id ≡ true
        → keep f (id ∷ ids) ≡ id ∷ keep f ids
    keep-hit f id ids h = ground arith

    keep-miss :
        (f : Str → Bool) (id : Str) (ids : List Str) → f id ≡ false → keep f (id ∷ ids) ≡ keep f ids
    keep-miss f id ids h = ground arith

-- Of a node that the gates let through and whose cases' names hold its own, exactly the cases whose
-- full id `-k` selects have a result, in order, unless the set-up of fixtures raises: then the node's
-- response is the error with the text of that exception.
pub execute-keep :
    (lower : Str → Str) (s : Selection) {W : Type 0} (ask : Asked W) {V : Type 0}
    (runner : Runner V W) (node : Str) (indirect ids names : List Str)
    (kwargs combos : List (Dict V)) (w : W)
    → is_false (node_verdict lower s ask node names) ≡ false
    → All (λ id. CaseNames lower (ask.keyword_names node names) (ask.keyword_names id names)) ids
    → length ids ≡ room combos (length kwargs)
    → Runs runner node indirect ids
        (selected lower s ask node names (node_verdict lower s ask node names) ids)
        []
        (keep (case_verdict lower s ask node names) ids)
        (execute runner node indirect ids
          (selected lower s ask node names (node_verdict lower s ask node names) ids)
          kwargs
          combos
          0
          []
          w).0
execute-keep lower s ask runner node indirect ids names kwargs combos w h c l =
    let sel = selected lower s ask node names (node_verdict lower s ask node names) ids in
    subst
      (λ x.
        Runs runner node indirect ids sel [] x
          (execute runner node indirect ids sel kwargs combos 0 [] w).0)
      (ap (λ x. chosen_ids x 0 ids) (selected-case_verdict lower s ask node names ids h c)
        ∙ chosen_ids-keep (case_verdict lower s ask node names) [] 0 ids (λ k le. refl))
      (execute-Runs runner node indirect ids sel kwargs combos [] ids [] w refl l)
