-- ===== src/Plan/Suffixes.antt =====
-- The suffixes that `_disambiguate` of plan.py puts behind colliding ids.
use mathlib.Core.Path.{ap₂}
use tiderace.Base.{
  Bool, Bool-cases, Dict, List, Str, [], any, ap, arith, codes, eqb, false, if◌then◌else◌, inl, inr,
  insert, lookup, lookup-insert, ltb, ltb→ge, or_else, refl, str_eq, str_eq_iff, str_eq_sound,
  subst, suc, sym, true, zero, ℕ, ◌%◌, ◌&&◌, ◌*◌, ◌++◌, ◌+◌, ◌-◌, ◌/◌, ◌∙◌, ◌∷◌, ◌≡◌, ◌≤◌,
}
use tiderace.Plan.{
  count, decimal, digits, disambiguate, ends_in_digit, separator, suffix_all, suffixed,
}

-- The last character, as a text.
unfoldable pub last_of : Str → Str
last_of [] = []
last_of (c ∷ []) = c ∷ []
last_of (c ∷ d ∷ s) = last_of (d ∷ s)

-- The text with its number, behind a `_` where that is asked for and the text's last character is a
-- digit.
unfoldable pub numbered : (ℕ → Bool) → Bool → Str → ℕ → Str
unfolding last_of
numbered isdigit underscore text n =
    text ++ ((if underscore && any isdigit (last_of text) then codes "_" else []) ++ decimal n)

-- What stands for each of the parts that are left, with those before them: a text that stands once
-- as it is, any other with the number of its earlier occurrences.
unfoldable pub expected : (ℕ → Bool) → Bool → List Str → List Str → List Str → List Str
unfolding numbered
expected isdigit underscore parts before [] = []
expected isdigit underscore parts before (text ∷ more) =
    (if eqb (count text parts) 1
      then text
      else numbered isdigit underscore text (count text before))
    ∷ expected isdigit underscore parts (before ++ text ∷ []) more

count-append :
    (t u : Str) (ps : List Str)
    → count t (ps ++ u ∷ []) ≡ (if str_eq u t then suc (count t ps) else count t ps)
unfolding count
count-append t u [] = ground arith
count-append t u (p ∷ ps) = ground (arith, count-append t u ps)

-- `seen` counts the earlier occurrences of each text that stands more than once.
abbrev Counts : List Str → List Str → Dict ℕ → Type 0
Counts parts before seen =
    (t : Str) → eqb (count t parts) 1 ≡ false → or_else (lookup t seen) 0 ≡ count t before

differ : {b : Bool} → b ≡ true → b ≡ false → ⊥
differ h k = cc

Counts-once :
    (parts before : List Str) (seen : Dict ℕ) (text : Str)
    → eqb (count text parts) 1 ≡ true
    → Counts parts before seen
    → Counts parts (before ++ text ∷ []) seen
Counts-once parts before seen text once h t many = elim (Bool-cases (str_eq text t)) [
  | inl same ↦
      absurd
        (differ (subst (λ u. eqb (count u parts) 1 ≡ true) (str_eq_sound text t same) once) many)
  | inr other ↦ h t many ∙ sym (count-append t text before ∙ rw other refl)
]

Counts-again :
    (parts before : List Str) (seen : Dict ℕ) (text : Str)
    → eqb (count text parts) 1 ≡ false
    → Counts parts before seen
    → Counts parts (before ++ text ∷ []) (insert text (suc (or_else (lookup text seen) 0)) seen)
Counts-again parts before seen text again h t many = ground (
  arith,
  lookup-insert text t (suc (or_else (lookup text seen) 0)) seen,
  count-append t text before,
  str_eq_iff text t,
  str_eq_iff t text,
  h t many,
)

ends_in_digit-last_of :
    (isdigit : ℕ → Bool) (text : Str) → ends_in_digit isdigit text ≡ any isdigit (last_of text)
unfolding ends_in_digit last_of
ends_in_digit-last_of isdigit [] = refl
ends_in_digit-last_of isdigit (c ∷ []) = ground arith
ends_in_digit-last_of isdigit (c ∷ d ∷ s) = ends_in_digit-last_of isdigit (d ∷ s)

suffixed-numbered :
    (isdigit : ℕ → Bool) (underscore : Bool) (text : Str) (n : ℕ)
    → suffixed isdigit underscore text n ≡ numbered isdigit underscore text n
unfolding suffixed separator numbered
suffixed-numbered isdigit underscore text n =
    ap (λ b. text ++ ((if underscore && b then codes "_" else []) ++ decimal n))
      (ends_in_digit-last_of isdigit text)

suffix_all-expected :
    (isdigit : ℕ → Bool) (underscore : Bool) (parts before : List Str) (seen : Dict ℕ)
    (more : List Str)
    → Counts parts before seen
    → suffix_all isdigit underscore parts seen more ≡ expected isdigit underscore parts before more
unfolding suffix_all expected
suffix_all-expected isdigit underscore parts before seen [] h = refl
suffix_all-expected isdigit underscore parts before seen (text ∷ more) h =
    elim (Bool-cases (eqb (count text parts) 1)) [
      | inl once ↦
          rw (once, suffix_all, expected)
            (ap (λ l. text ∷ l)
              (suffix_all-expected isdigit underscore parts (before ++ text ∷ []) seen more
                (Counts-once parts before seen text once h)))
      | inr again ↦
          rw (again, suffix_all, expected)
            (ap₂ ◌∷◌
              (ap (suffixed isdigit underscore text) (h text again)
                ∙ suffixed-numbered isdigit underscore text (count text before))
              (suffix_all-expected isdigit underscore parts (before ++ text ∷ [])
                (insert text (suc (or_else (lookup text seen) 0)) seen) more
                (Counts-again parts before seen text again h)))
    ]

reading : Str → ℕ → ℕ
reading [] a = a
reading (c ∷ s) a = reading s (a * 10 + (c - 48))

digits-reading : (fuel n : ℕ) (acc : Str) → n ≤ fuel → reading (digits fuel n acc) 0 ≡ reading acc n
unfolding digits reading
digits-reading zero n acc h = ap (reading acc) (omega arith)
digits-reading (suc fuel) n acc h = elim (Bool-cases (ltb n 10)) [
  | inl one ↦ rw (one, digits) (ap (reading acc) (omega arith))
  | inr more ↦
      (let big = ltb→ge n 10 more in
        rw (more, digits)
          (digits-reading fuel (n / 10) ((48 + n % 10) ∷ acc) (omega arith)
            ∙ ap (reading acc) (omega arith)))
]

append_cancel : (s t u : Str) → s ++ t ≡ s ++ u → t ≡ u
append_cancel [] t u e = e
append_cancel (c ∷ s) t u e = append_cancel s t u (ground arith)

numbered_injective :
    (isdigit : ℕ → Bool) (underscore : Bool) (text : Str) (j k : ℕ)
    → numbered isdigit underscore text j ≡ numbered isdigit underscore text k
    → j ≡ k
unfolding numbered decimal reading
numbered_injective isdigit underscore text j k e =
    let same : digits j j [] ≡ digits k k [] =
      append_cancel (if underscore && any isdigit (last_of text) then codes "_" else []) _ _
        (append_cancel text _ _ e) in
    sym (digits-reading j j [] (omega arith))
    ∙ ap (λ s. reading s 0) same
    ∙ digits-reading k k [] (omega arith)

-- A text that stands once is not changed; every member of a clash gets its number behind it, counted
-- from 0 in order, and a `_` before the number where that is asked for and its last character is a
-- digit; and to a text, no two numbers give the same id.
pub disambiguate-expected :
    (isdigit : ℕ → Bool) (underscore : Bool) (parts : List Str)
    → (disambiguate isdigit underscore parts ≡ expected isdigit underscore parts [] parts)
      × ((text : Str) (j k : ℕ)
          → suffixed isdigit underscore text j ≡ suffixed isdigit underscore text k
          → j ≡ k)
unfolding disambiguate
disambiguate-expected isdigit underscore parts = (
  suffix_all-expected isdigit underscore parts [] [] parts (λ t many. unfold lookup count in refl),
  λ text j k e. numbered_injective isdigit underscore text j k (
      sym (suffixed-numbered isdigit underscore text j)
      ∙ e
      ∙ suffixed-numbered isdigit underscore text k),
)
