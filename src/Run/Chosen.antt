-- ===== src/Run/Chosen.antt =====
-- Which cases `_execute` of engine.py runs, and in which order.

use mathlib.Core.Path.{ap₂}
use tiderace.Base.{
  Bool-cases, Dict, List, Option, Str, [], ap, append-nil, append_assoc, arith, false,
  if◌then◌else◌, index_in, inl, inr, length, length-append, map, refl, some, suc, sym, true, zero,
  ℕ, ◌++◌, ◌+◌, ◌∙◌, ◌∷◌, ◌≡◌, ◌≤◌,
}
use tiderace.Tiers.{VariantResult}
use tiderace.Run.{Runner, get_elem?, in_range, run_cases, split_case}

-- The ids at the selected indices, from this index on.
abbrev pub chosen_ids : List ℕ → ℕ → List Str → List Str
chosen_ids sel i [] = []
chosen_ids sel i (id ∷ ids) =
    let rest = chosen_ids sel (suc i) ids in if index_in i sel then id ∷ rest else rest

abbrev pub id_of_result : VariantResult → Str
id_of_result r = r.variant_id

abbrev pub room : {A : Type 0} → List A → ℕ → ℕ
room [] n = 0
room (_ ∷ as') n = n + room as' n

pub get_elem?-append :
    {A : Type 0} (pre : List A) (a : A) (post : List A)
    → get_elem? (pre ++ a ∷ post) (length pre) ≡ some a
unfolding get_elem?
get_elem?-append [] a post = refl
get_elem?-append (b ∷ pre) a post = get_elem?-append pre a post

pub split_at :
    (n : ℕ) (xs : List Str)
    → n ≤ length xs
    → (now : List Str) × (later : List Str) × (xs ≡ now ++ later) × (length now ≡ n)
split_at zero xs h = ([], xs, refl, refl)
split_at (suc n) [] h = absurd (omega arith)
split_at (suc n) (x ∷ xs) h =
    let (now, later, e, l) = split_at n xs (omega arith) in
    (x ∷ now, later, ap (λ l. x ∷ l) e, omega arith)

pub chosen_ids-hit :
    (sel : List ℕ) (i : ℕ) (id : Str) (ids : List Str)
    → index_in i sel ≡ true
    → chosen_ids sel i (id ∷ ids) ≡ id ∷ chosen_ids sel (suc i) ids
chosen_ids-hit sel i id ids hit = rw (hit, chosen_ids) refl

pub chosen_ids-miss :
    (sel : List ℕ) (i : ℕ) (id : Str) (ids : List Str)
    → index_in i sel ≡ false
    → chosen_ids sel i (id ∷ ids) ≡ chosen_ids sel (suc i) ids
chosen_ids-miss sel i id ids miss = rw (miss, chosen_ids) refl

pub chosen_ids-append :
    (sel : List ℕ) (i : ℕ) (now later : List Str)
    → chosen_ids sel i (now ++ later)
      ≡ chosen_ids sel i now ++ chosen_ids sel (i + length now) later
chosen_ids-append sel i [] later = ap (λ k. chosen_ids sel k later) (omega arith)
chosen_ids-append sel i (id ∷ now) later =
    let ih : chosen_ids sel (suc i) (now ++ later)
        ≡ chosen_ids sel (suc i) now ++ chosen_ids sel (i + suc (length now)) later =
      chosen_ids-append sel (suc i) now later
      ∙ ap (λ k. chosen_ids sel (suc i) now ++ chosen_ids sel k later) (omega arith) in
    elim (Bool-cases (index_in i sel)) [
      | inl hit ↦
          chosen_ids-hit sel i id (now ++ later) hit
          ∙ ap (λ l. id ∷ l) ih
          ∙ ap (λ l. l ++ chosen_ids sel (i + suc (length now)) later)
              (sym (chosen_ids-hit sel i id now hit))
      | inr miss ↦
          chosen_ids-miss sel i id (now ++ later) miss
          ∙ ih
          ∙ ap (λ l. l ++ chosen_ids sel (i + suc (length now)) later)
              (sym (chosen_ids-miss sel i id now miss))
    ]

pub chosen_ids-none :
    (sel : List ℕ) (i : ℕ) (now : List Str)
    → in_range i (length now) sel ≡ false
    → chosen_ids sel i now ≡ []
unfolding in_range
chosen_ids-none sel i [] h = refl
chosen_ids-none sel i (id ∷ now) h =
    let ih = chosen_ids-none sel (suc i) now (ground arith) in ground (arith, ih)

module _ {V W : Type 0} (runner : Runner V W) (node : Str) (indirect ids : List Str)
    (sel : List ℕ) where
  abbrev pub Went : ℕ → List VariantResult → List Str → Option (List VariantResult × ℕ) × W → Type 0
  Went i results now r =
      (rs : List VariantResult) × (r.0 ≡ some (results ++ rs, i + length now))
      × (map id_of_result rs ≡ chosen_ids sel i now)

  run_cases-skip :
      (combo k : Dict V) (ks : List (Dict V)) (i : ℕ) (results : List VariantResult) (w : W)
      → index_in i sel ≡ false
      → run_cases runner node indirect ids sel combo (k ∷ ks) i results w
        ≡ run_cases runner node indirect ids sel combo ks (suc i) results w
  unfolding run_cases
  run_cases-skip combo k ks i results w miss = rw (miss, run_cases) refl

  run_cases-run :
      (combo k : Dict V) (ks : List (Dict V)) (i : ℕ) (results : List VariantResult) (w : W)
      (id : Str)
      → index_in i sel ≡ true
      → get_elem? ids i ≡ some id
      → (r : VariantResult) × (w' : W) × (r.variant_id ≡ id)
        × (run_cases runner node indirect ids sel combo (k ∷ ks) i results w
            ≡ run_cases runner node indirect ids sel combo ks (suc i) (results ++ r ∷ []) w')
  unfolding run_cases
  run_cases-run combo k ks i results w id hit at_i =
      let (case_combo, test_kwargs) = split_case indirect combo k in
      let (r, w') = runner.run_variant case_combo test_kwargs id w in
      (record r { variant_id = id }, w', refl, rw (hit, run_cases) (rw at_i refl))

  pub run_cases-Went :
      (combo : Dict V) (ks : List (Dict V)) (pre now later : List Str)
      (results : List VariantResult) (w : W)
      → ids ≡ pre ++ (now ++ later)
      → length now ≡ length ks
      → Went
          (length pre)
          results
          now
          (run_cases runner node indirect ids sel combo ks (length pre) results w)
  run_cases-Went combo [] pre [] later results w e l = (
    [],
    unfold run_cases in ap₂ (λ l n. some (l, n)) (sym (append-nil results)) (omega arith),
    refl,
  )
  run_cases-Went combo [] pre (id ∷ now) later results w e l = absurd (omega arith)
  run_cases-Went combo (k ∷ ks) pre [] later results w e l = absurd (omega arith)
  run_cases-Went combo (k ∷ ks) pre (id ∷ now) later results w e l =
      let regroup : ids ≡ (pre ++ id ∷ []) ++ (now ++ later) =
        e ∙ sym (append_assoc pre (id ∷ []) (now ++ later)) in
      let size : length (pre ++ id ∷ []) ≡ suc (length pre) =
        length-append pre (id ∷ []) ∙ omega arith in
      elim (Bool-cases (index_in (length pre) sel)) [
        | inl hit ↦
            (let (r, w', same, step) =
                run_cases-run combo k ks (length pre) results w id hit
                  (ap (λ l. get_elem? l (length pre)) e ∙ get_elem?-append pre id (now ++ later)) in
              let (rs, h, ns) =
                run_cases-Went combo ks (pre ++ id ∷ []) now later (results ++ r ∷ []) w' regroup
                  (omega arith) in
              (
                r ∷ rs,
                ap (λ x. x.0) step
                    ∙ ap
                        (λ n.
                          (run_cases runner node indirect ids sel combo ks n (results ++ r ∷ [])
                            w').0)
                        (sym size)
                    ∙ h
                    ∙ ap₂ (λ l n. some (l, n)) (append_assoc results (r ∷ []) rs) (omega arith),
                ap₂ ◌∷◌ same (ns ∙ ap (λ n. chosen_ids sel n now) size)
                    ∙ sym (chosen_ids-hit sel (length pre) id now hit),
              ))
        | inr miss ↦
            (let (rs, h, ns) =
                run_cases-Went combo ks (pre ++ id ∷ []) now later results w regroup
                  (omega arith) in
              (
                rs,
                ap (λ x. x.0) (run_cases-skip combo k ks (length pre) results w miss)
                    ∙ ap (λ n. (run_cases runner node indirect ids sel combo ks n results w).0)
                        (sym size)
                    ∙ h
                    ∙ ap (λ n. some (results ++ rs, n)) (omega arith),
                ns
                    ∙ ap (λ n. chosen_ids sel n now) size
                    ∙ sym (chosen_ids-miss sel (length pre) id now miss),
              ))
      ]
