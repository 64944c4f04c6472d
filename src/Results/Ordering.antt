-- ===== src/Results/Ordering.antt =====
-- The one ordering of outcomes: `Outcome.worst` of results.py.
use tiderace.Base.{
  All, All-append, Bool, Bool-cases, List, [], append-nil, append_assoc, arith, false, inl, inr,
  ltb, ltb→ge, ltb→lt, refl, some, subst, true, ℕ, ◌++◌, ◌<◌, ◌∷◌, ◌≡◌, ◌≤◌,
}
use tiderace.Results.{
  Outcome, Reported, error, failed, passed, severity, skipped, worst, worst_from, xfail, xpass,
}

-- Which outcomes are graver than which: an error is than all others, a failure than a skip, and
-- either and a skip than a pass, an expected failure and an unexpected pass.
unfoldable pub graver : Outcome → Outcome → Bool
graver error failed = true
graver error skipped = true
graver error passed = true
graver error xfail = true
graver error xpass = true
graver failed skipped = true
graver failed passed = true
graver failed xfail = true
graver failed xpass = true
graver skipped passed = true
graver skipped xfail = true
graver skipped xpass = true
graver o p = false

-- Entries that are less bad than `n`, and entries that are no worse than it.
abbrev pub Below : ℕ → List Reported → Type 0
Below n = All (λ (o : Reported). severity o.0 < n)

abbrev pub NoWorse : ℕ → List Reported → Type 0
NoWorse n = All (λ (o : Reported). severity o.0 ≤ n)

-- `w` stands in the list, it is graver than all before it, and none behind it is graver.
abbrev pub IsFirstWorst : Reported → List Reported → Type 0
IsFirstWorst w os =
    (pre : List Reported) × (post : List Reported) × (os ≡ pre ++ w ∷ post)
    × All (λ (o : Reported). graver w.0 o.0 ≡ true) pre
    × All (λ (o : Reported). graver o.0 w.0 ≡ false) post

-- The same by the numbers of `_SEVERITY`.
abbrev pub IsFirstMax : Reported → List Reported → Type 0
IsFirstMax w os =
    (pre : List Reported) × (post : List Reported) × (os ≡ pre ++ w ∷ post)
    × Below (severity w.0) pre
    × NoWorse (severity w.0) post

NoWorse-Below : (m n : ℕ) (os : List Reported) → m < n → NoWorse m os → Below n os
NoWorse-Below m n [] h b = tt
NoWorse-Below m n (o ∷ os) h b = (omega arith, NoWorse-Below m n os h b.1)

NoWorse-append_one :
    (n : ℕ) (os : List Reported) (o : Reported)
    → NoWorse n os
    → severity o.0 ≤ n
    → NoWorse n (os ++ o ∷ [])
NoWorse-append_one n os o h k =
    All-append (λ (p : Reported). severity p.0 ≤ n) os (o ∷ []) h (k, tt)

worst_from_worse :
    (best o : Reported) (os : List Reported)
    → ltb (severity best.0) (severity o.0) ≡ true
    → worst_from best (o ∷ os) ≡ worst_from o os
unfolding worst_from
worst_from_worse best o os h = ground arith

worst_from_kept :
    (best o : Reported) (os : List Reported)
    → ltb (severity best.0) (severity o.0) ≡ false
    → worst_from best (o ∷ os) ≡ worst_from best os
unfolding worst_from
worst_from_kept best o os h = ground arith

pub Below-NoWorse : (n : ℕ) (os : List Reported) → Below n os → NoWorse n os
Below-NoWorse n [] h = tt
Below-NoWorse n (o ∷ os) h = (omega arith, Below-NoWorse n os h.1)

-- The loop, with what it has passed: `pre` before the best entry so far and `mid` behind it.
worst_from-IsFirstMax :
    (pre mid : List Reported) (best : Reported) (os : List Reported)
    → Below (severity best.0) pre
    → NoWorse (severity best.0) mid
    → IsFirstMax (worst_from best os) (pre ++ best ∷ (mid ++ os))
worst_from-IsFirstMax pre mid best [] hp hm = unfold worst_from in (pre, mid, rw append-nil, hp, hm)
worst_from-IsFirstMax pre mid best (o ∷ os) hp hm =
    elim (Bool-cases (ltb (severity best.0) (severity o.0))) [
      | inl worse ↦ rw (worst_from_worse best o os worse) (
          subst (λ l. IsFirstMax (worst_from o os) l) (simp append_assoc)
            (worst_from-IsFirstMax (pre ++ best ∷ mid) [] o os
              (All-append (λ (p : Reported). severity p.0 < severity o.0) pre (best ∷ mid)
                (NoWorse-Below (severity best.0) (severity o.0) pre (ltb→lt _ _ worse)
                  (Below-NoWorse (severity best.0) pre hp))
                (
                  ltb→lt _ _ worse,
                  NoWorse-Below (severity best.0) (severity o.0) mid (ltb→lt _ _ worse) hm,
                ))
              tt))
      | inr kept ↦ rw (worst_from_kept best o os kept) (
          subst (λ l. IsFirstMax (worst_from best os) (pre ++ best ∷ l)) (simp append_assoc)
            (worst_from-IsFirstMax pre (mid ++ o ∷ []) best os hp
              (NoWorse-append_one (severity best.0) mid o hm (ltb→ge _ _ kept))))
    ]

pub worst-IsFirstMax :
    (o : Reported) (os : List Reported)
    → (w : Reported) × (worst (o ∷ os) ≡ some w) × IsFirstMax w (o ∷ os)
unfolding worst
worst-IsFirstMax o os = (worst_from o os, refl, worst_from-IsFirstMax [] [] o os tt tt)
