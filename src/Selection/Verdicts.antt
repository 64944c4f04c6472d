-- ===== src/Selection/Verdicts.antt =====
-- When `-k` decides a node before its cases exist: `keyword_verdict` of selection.py.
use mathlib.Core.Path.{fun_ext}
use tiderace.Base.{
  All, Bool, Bool-cases, List, Option-cases, Str, [], ap, append_assoc, arith, contains_str, false,
  inl, inr, none, refl, some, starts_with, starts_with-append, subst, true, ◌++◌, ◌∙◌, ◌∷◌, ◌≡◌,
  ◌⊎◌,
}
use tiderace.Selection.Choice.{Selection, keyword_matches, keyword_verdict, resolve_keyword}
use tiderace.Selection.Kleene.{Refines, evaluate-Refines, evaluate-holds, holds}
use tiderace.Selection.Trees.{evaluate, Tree}

starts_with-split : (s p : Str) → starts_with s p ≡ true → (post : Str) × (s ≡ p ++ post)
unfolding starts_with
starts_with-split s [] h = (s, refl)
starts_with-split [] (d ∷ p) h = absurd (cc)
starts_with-split (c ∷ s) (d ∷ p) h =
    let (post, e) = starts_with-split s p (ground arith) in (post, ground arith)

contains_str-split :
    (n s : Str) → contains_str n s ≡ true → (pre : Str) × (post : Str) × (s ≡ pre ++ (n ++ post))
unfolding contains_str
contains_str-split n [] h = let (post, e) = starts_with-split [] n h in ([], post, e)
contains_str-split n (c ∷ s) h = elim (Bool-cases (starts_with (c ∷ s) n)) [
  | inl here ↦ (let (post, e) = starts_with-split (c ∷ s) n here in ([], post, e))
  | inr later ↦
      (let (pre, post, e) = contains_str-split n s (ground arith) in
        (c ∷ pre, post, ap (λ t. c ∷ t) e))
]

contains_str-prefix : (n post : Str) → contains_str n (n ++ post) ≡ true
unfolding contains_str starts_with
contains_str-prefix [] [] = refl
contains_str-prefix [] (c ∷ post) = refl
contains_str-prefix (c ∷ n) post = ground (arith, starts_with-append (c ∷ n) post)

contains_str-embed : (n pre post : Str) → contains_str n (pre ++ (n ++ post)) ≡ true
unfolding contains_str
contains_str-embed n [] post = contains_str-prefix n post
contains_str-embed n (c ∷ pre) post = ground (arith, contains_str-embed n pre post)

-- Containment of texts is transitive.
contains_str_trans :
    (a b c : Str) → contains_str a b ≡ true → contains_str b c ≡ true → contains_str a c ≡ true
contains_str_trans a b c h k =
    let (pre, post, e) = contains_str-split a b h in
    let (pre', post', e') = contains_str-split b c k in
    subst (λ s. contains_str a s ≡ true) (regroup pre post e pre' post' e')
      (contains_str-embed a (pre' ++ pre) (post ++ post'))
  where
    regroup :
        (pre post : Str)
        → b ≡ pre ++ (a ++ post)
        → (pre' post' : Str) → c ≡ pre' ++ (b ++ post')
        → (pre' ++ pre) ++ (a ++ (post ++ post')) ≡ c
    regroup pre post e pre' post' e' = rw e' (rw e (simp append_assoc))

module _ (lower : Str → Str) where
  -- Some of the names holds this one, in lower case.
  abbrev pub Within : Str → List Str → Type 0
  Within n [] = ⊥
  Within n (m ∷ ms) = (contains_str (lower n) (lower m) ≡ true) ⊎ Within n ms

  -- A case's names hold its node's: the same path and marks, and the function with the case's id.
  abbrev pub CaseNames : List Str → List Str → Type 0
  CaseNames names names' = All (λ n. Within n names') names

  keyword_matches-Within :
      (needle n : Str) (ms : List Str)
      → contains_str (lower needle) (lower n) ≡ true
      → Within n ms
      → keyword_matches lower needle ms ≡ true
  unfolding keyword_matches
  keyword_matches-Within needle n [] h w = absurd w
  keyword_matches-Within needle n (m ∷ ms) h (inl c) =
      rw (contains_str_trans (lower needle) (lower n) (lower m) h c)
  keyword_matches-Within needle n (m ∷ ms) h (inr w) =
      ground (arith, keyword_matches-Within needle n ms h w)

  keyword_matches-CaseNames :
      (needle : Str) (ns ms : List Str)
      → CaseNames ns ms
      → keyword_matches lower needle ns ≡ true
      → keyword_matches lower needle ms ≡ true
  unfolding keyword_matches
  keyword_matches-CaseNames needle [] ms c h = absurd (cc)
  keyword_matches-CaseNames needle (n ∷ ns) ms c h =
      elim (Bool-cases (contains_str (lower needle) (lower n))) [
        | inl e ↦ keyword_matches-Within needle n ms e c.0
        | inr e ↦ keyword_matches-CaseNames needle ns ms c.1 (ground arith)
      ]

  resolve_keyword-Refines :
      (ns ms : List Str) (final : Bool)
      → CaseNames ns ms
      → (needle : Str)
      → Refines (resolve_keyword lower ns false needle) (resolve_keyword lower ms final needle)
  unfolding resolve_keyword
  resolve_keyword-Refines ns ms final c needle =
      ground (arith, keyword_matches-CaseNames needle ns ms c)

  -- What `-k` decides of a node before its cases exist is what it decides of each of its cases.
  pub keyword_verdict-stable :
      (s : Selection) (ns ms : List Str) (final b : Bool)
      → CaseNames ns ms
      → keyword_verdict lower s ns false ≡ some b
      → keyword_verdict lower s ms final ≡ some b
  unfolding keyword_verdict
  keyword_verdict-stable s ns ms final b c h = elim (Option-cases s.keyword) [
    | inl e ↦ ground arith
    | inr (t, e) ↦
        (let refines =
            evaluate-Refines (resolve_keyword lower ns false) (resolve_keyword lower ms final)
              (resolve_keyword-Refines ns ms final c) t in
          ground arith)
  ]

  resolve_keyword-final :
      (names : List Str) (needle : Str)
      → resolve_keyword lower names true needle ≡ some (keyword_matches lower needle names)
  unfolding resolve_keyword
  resolve_keyword-final names needle = ground arith

  final_reading :
      (names : List Str) (t : Tree)
      → evaluate t (resolve_keyword lower names true)
        ≡ some (holds t (λ needle. keyword_matches lower needle names))
  final_reading names t =
      ap (evaluate t) (fun_ext (resolve_keyword-final names))
      ∙ evaluate-holds (λ needle. keyword_matches lower needle names) t

  -- For a complete id the verdict is never left open, and it is the Boolean reading of the
  -- expression over "some name holds this word".
  keyword_verdict-final :
      (s : Selection) (names : List Str)
      → keyword_verdict lower s names true
        ≡ some (elim s.keyword [
          | none ↦ true
          | some t ↦ holds t (λ needle. keyword_matches lower needle names)
        ])
  unfolding keyword_verdict
  keyword_verdict-final s names = elim (Option-cases s.keyword) [
    | inl e ↦ ground arith
    | inr (t, e) ↦ (let reading = final_reading names t in ground arith)
  ]
