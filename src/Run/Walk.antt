-- ===== src/Run/Walk.antt =====
-- The whole walk of `_execute` in engine.py, over all combinations.
use mathlib.Core.Path.{ap₂}
use tiderace.Base.{
  Bool-cases, Dict, List, Option-cases, Str, [], ap, append-nil, append_assoc, arith, false, inl,
  inr, length, length-append, map, map-append, none, refl, some, subst, sym, true, ℕ, ◌++◌, ◌+◌,
  ◌∙◌, ◌∷◌, ◌≡◌,
}
use tiderace.Results.{errored}
use tiderace.Tiers.{VariantResult}
use tiderace.Run.{
  Executed, Runner, broken, execute, in_range, ran, responded, run_cases, setup_text,
}
use tiderace.Run.Chosen.{
  chosen_ids, chosen_ids-append, chosen_ids-none, id_of_result, room, run_cases-Went, split_at,
}

subst2 :
    {A B : Type 0} (P : A → B → Type 0) {a a' : A} {b b' : B} → a ≡ a' → b ≡ b' → P a b → P a' b'
subst2 P {a} {a'} {b} {b'} p q h = subst (P a') q (subst (λ x. P x b) p h)

module _ {V W : Type 0} (runner : Runner V W) (node : Str) (indirect ids : List Str)
    (sel : List ℕ) where
  -- Fixtures could not be set up, which raised `text` in some state, and the node's response is the
  -- error that says so; or these are the results' ids behind those that were there. Nothing else ends
  -- the walk.
  abbrev pub Runs : List VariantResult → List Str → Executed → Type 0
  Runs results names (ran rs) =
      (more : List VariantResult) × (rs ≡ results ++ more) × (map id_of_result more ≡ names)
  Runs results names (responded f) =
      (v : W) × (text : Str) × ((runner.sync v).0 ≡ some text)
      × (f ≡ errored node (setup_text ++ text))
  Runs results names broken = ⊥

  Runs-shift :
      (results rs : List VariantResult) (names more : List Str) (x : Executed)
      → map id_of_result rs ≡ names
      → Runs (results ++ rs) more x
      → Runs results (names ++ more) x
  Runs-shift results rs names more (ran all_rs) e (extra, h, ns) = (
    rs ++ extra,
    h ∙ append_assoc results rs extra,
    map-append id_of_result rs extra ∙ ap₂ ◌++◌ e ns,
  )
  Runs-shift results rs names more (responded f) e h = h
  Runs-shift results rs names more broken e h = h

  execute-skip :
      (kwargs : List (Dict V)) (combo : Dict V) (combos : List (Dict V)) (i : ℕ)
      (results : List VariantResult) (w : W)
      → in_range i (length kwargs) sel ≡ false
      → execute runner node indirect ids sel kwargs (combo ∷ combos) i results w
        ≡ execute runner node indirect ids sel kwargs combos (i + length kwargs) results w
  unfolding execute
  execute-skip kwargs combo combos i results w none_here = rw (none_here, execute) refl

  execute-raised :
      (kwargs : List (Dict V)) (combo : Dict V) (combos : List (Dict V)) (i : ℕ)
      (results : List VariantResult) (w : W) (text : Str)
      → in_range i (length kwargs) sel ≡ true
      → (runner.sync w).0 ≡ some text
      → (execute runner node indirect ids sel kwargs (combo ∷ combos) i results w).0
        ≡ responded (errored node (setup_text ++ text))
  unfolding execute
  execute-raised kwargs combo combos i results w text here raised =
      rw (here, execute) (rw raised refl)

  execute-ran :
      (kwargs : List (Dict V)) (combo : Dict V) (combos : List (Dict V)) (i i' : ℕ)
      (results results' : List VariantResult) (w : W)
      → in_range i (length kwargs) sel ≡ true
      → (runner.sync w).0 ≡ none
      → (run_cases runner node indirect ids sel combo kwargs i results (runner.sync w).1).0
        ≡ some (results', i')
      → (execute runner node indirect ids sel kwargs (combo ∷ combos) i results w).0
        ≡ (execute runner node indirect ids sel kwargs combos i' results'
            (run_cases runner node indirect ids sel combo kwargs i results (runner.sync w).1).1).0
  unfolding execute
  execute-ran kwargs combo combos i i' results results' w here synced done =
      rw (here, execute) (rw synced (rw done refl))

  -- Where there is an id for every combination and case, the walk ends: at a combination whose
  -- fixtures raise, with the error of that text, or else with one result for each selected id, in order.
  pub execute-Runs :
      (kwargs combos : List (Dict V)) (pre rest : List Str) (results : List VariantResult) (w : W)
      → ids ≡ pre ++ rest
      → length rest ≡ room combos (length kwargs)
      → Runs results
          (chosen_ids sel (length pre) rest)
          (execute runner node indirect ids sel kwargs combos (length pre) results w).0
  execute-Runs kwargs [] pre [] results w e l =
      unfold execute in ([], sym (append-nil results), refl)
  execute-Runs kwargs [] pre (id ∷ rest) results w e l = absurd (omega arith)
  execute-Runs kwargs (combo ∷ combos) pre rest results w e l =
      let (now, later, split_rest, size) = split_at (length kwargs) rest (omega arith) in
      let here : ids ≡ pre ++ (now ++ later) = e ∙ ap (λ l. pre ++ l) split_rest in
      let onwards : ids ≡ (pre ++ now) ++ later = here ∙ sym (append_assoc pre now later) in
      let index : length (pre ++ now) ≡ length pre + length kwargs =
        length-append pre now ∙ ap (λ n. length pre + n) size in
      let left : length later ≡ room combos (length kwargs) =
        omega (arith, ap length split_rest, length-append now later) in
      let names : chosen_ids sel (length pre) rest
          ≡ chosen_ids sel (length pre) now ++ chosen_ids sel (length (pre ++ now)) later =
        ap (chosen_ids sel (length pre)) split_rest
        ∙ chosen_ids-append sel (length pre) now later
        ∙ ap (λ n. chosen_ids sel (length pre) now ++ chosen_ids sel n later)
            (sym (length-append pre now)) in
      elim (Bool-cases (in_range (length pre) (length kwargs) sel)) [
        | inr none_here ↦
            subst2 (Runs results)
              (sym (
                names
                ∙ ap (λ l. l ++ chosen_ids sel (length (pre ++ now)) later)
                    (chosen_ids-none sel (length pre) now
                      (ap (λ n. in_range (length pre) n sel) size ∙ none_here))))
              (sym (
                ap (λ x. x.0) (execute-skip kwargs combo combos (length pre) results w none_here)
                ∙ ap (λ n. (execute runner node indirect ids sel kwargs combos n results w).0)
                    (sym index)))
              (execute-Runs kwargs combos (pre ++ now) later results w onwards left)
        | inl some_here ↦ elim (Option-cases (runner.sync w).0) [
          | inr (text, raised) ↦
              subst (Runs results (chosen_ids sel (length pre) rest))
                (sym
                  (execute-raised kwargs combo combos (length pre) results w text some_here raised))
                (w, text, raised, refl)
          | inl synced ↦
              (let (rs, done, ns) =
                  run_cases-Went runner node indirect ids sel combo kwargs pre now later results
                    (runner.sync w).1 here size in
                subst2 (Runs results) (sym names)
                  (sym (
                    execute-ran kwargs combo combos (length pre) (length pre + length now) results
                      (results ++ rs) w some_here synced done
                    ∙ ap
                        (λ n.
                          (execute runner node indirect ids sel kwargs combos n (results ++ rs)
                            (run_cases runner node indirect ids sel combo kwargs (length pre)
                              results (runner.sync w).1).1).0)
                        (sym (length-append pre now))))
                  (Runs-shift results rs (chosen_ids sel (length pre) now)
                    (chosen_ids sel (length (pre ++ now)) later) _ ns
                    (execute-Runs kwargs combos (pre ++ now) later (results ++ rs)
                      (run_cases runner node indirect ids sel combo kwargs (length pre) results
                        (runner.sync w).1).1
                      onwards left)))
        ]
      ]
