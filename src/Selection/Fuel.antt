-- ===== src/Selection/Fuel.antt =====
-- The parser of selection.py ends: its fuel is never used up, and every part that it parses takes at
-- least one token.
use tiderace.Base.{List, [], arith, length, suc, zero, ℕ, ◌*◌, ◌+◌, ◌-◌, ◌<◌, ◌∷◌, ◌≢◌, ◌≤◌}
use tiderace.Selection.Parser.{
  Parsed, Token, and_rest, done, expect_close, no_fuel, or_rest, parse_and, parse_fuel, parse_not,
  parse_or, refused, tok_and, tok_close, tok_ident, tok_not, tok_open, tok_or, ◌>>=◌,
}
use tiderace.Selection.Trees.{Tree}

-- The call did not run out of fuel, and left fewer than `k` tokens.
abbrev pub Leaves : {A : Type 0} → ℕ → Parsed A → Type 0
Leaves k (done a ts) = length ts < k
Leaves k refused = Unit
Leaves k no_fuel = ⊥

Leaves-bind :
    {A B : Type 0} (m : Parsed A) (f : A → List Token → Parsed B) (j k : ℕ)
    → Leaves j m
    → ((a : A) (ts : List Token) → length ts < j → Leaves k (f a ts))
    → Leaves k (m >>= f)
Leaves-bind (done a ts) f j k h g = g a ts h
Leaves-bind refused f j k h g = tt
Leaves-bind no_fuel f j k h g = absurd h

expect_close-Leaves :
    (t : Tree) (ts : List Token) (k : ℕ) → length ts ≤ k → Leaves k (expect_close t ts)
expect_close-Leaves t [] k h = tt
expect_close-Leaves t (tok_close ∷ ts) k h = h
expect_close-Leaves t (_ ∷ ts) k h = tt

mutual
  unfolding parse_or

  pub parse_or-Leaves :
      (n k : ℕ) (ts : List Token) → length ts ≤ k → 4 * k + 3 ≤ n → Leaves k (parse_or n ts)
  parse_or-Leaves zero k ts le h = omega arith
  parse_or-Leaves (suc n) k ts le h =
      Leaves-bind (parse_and n ts) _ k k (parse_and-Leaves n k ts le (omega arith)) λ t ts' less.
        Leaves-bind (or_rest n ts') _ k k (or_rest-Leaves n k ts' less (omega arith))
          (λ more ts'' less'. less')

  or_rest-Leaves :
      (n k : ℕ) (ts : List Token) → length ts < k → 4 * k ≤ n + 3 → Leaves k (or_rest n ts)
  or_rest-Leaves zero k ts le h = omega arith
  or_rest-Leaves (suc n) k (tok_or ∷ ts) le h =
      Leaves-bind (parse_and n ts) _ (k - 2) k
        (parse_and-Leaves n (k - 2) ts (omega arith) (omega arith))
        λ t ts' less.
          Leaves-bind (or_rest n ts') _ (k - 2) k (or_rest-Leaves n (k - 2) ts' less (omega arith))
            (λ more ts'' less'. omega arith)
  or_rest-Leaves (suc n) k ts le h = le

  parse_and-Leaves :
      (n k : ℕ) (ts : List Token) → length ts ≤ k → 4 * k + 2 ≤ n → Leaves k (parse_and n ts)
  parse_and-Leaves zero k ts le h = omega arith
  parse_and-Leaves (suc n) k ts le h =
      Leaves-bind (parse_not n ts) _ k k (parse_not-Leaves n k ts le (omega arith)) λ t ts' less.
        Leaves-bind (and_rest n ts') _ k k (and_rest-Leaves n k ts' less (omega arith))
          (λ more ts'' less'. less')

  and_rest-Leaves :
      (n k : ℕ) (ts : List Token) → length ts < k → 4 * k ≤ n + 3 → Leaves k (and_rest n ts)
  and_rest-Leaves zero k ts le h = omega arith
  and_rest-Leaves (suc n) k (tok_and ∷ ts) le h =
      Leaves-bind (parse_not n ts) _ (k - 2) k
        (parse_not-Leaves n (k - 2) ts (omega arith) (omega arith))
        λ t ts' less.
          Leaves-bind (and_rest n ts') _ (k - 2) k
            (and_rest-Leaves n (k - 2) ts' less (omega arith)) (λ more ts'' less'. omega arith)
  and_rest-Leaves (suc n) k ts le h = le

  parse_not-Leaves :
      (n k : ℕ) (ts : List Token) → length ts ≤ k → 4 * k + 1 ≤ n → Leaves k (parse_not n ts)
  parse_not-Leaves zero k ts le h = omega arith
  parse_not-Leaves (suc n) k [] le h = tt
  parse_not-Leaves (suc n) k (tok_not ∷ ts) le h =
      Leaves-bind (parse_not n ts) _ (k - 1) k
        (parse_not-Leaves n (k - 1) ts (omega arith) (omega arith)) (λ t ts' less. omega arith)
  parse_not-Leaves (suc n) k (tok_open ∷ ts) le h =
      Leaves-bind (parse_or n ts) expect_close (k - 1) k
        (parse_or-Leaves n (k - 1) ts (omega arith) (omega arith))
        (λ t ts' less. expect_close-Leaves t ts' k (omega arith))
  parse_not-Leaves (suc n) k (tok_ident s ∷ ts) le h = le
  parse_not-Leaves (suc n) k (tok_close ∷ ts) le h = tt
  parse_not-Leaves (suc n) k (tok_and ∷ ts) le h = tt
  parse_not-Leaves (suc n) k (tok_or ∷ ts) le h = tt

Leaves-ne-no_fuel : {A : Type 0} (k : ℕ) (m : Parsed A) → Leaves k m → m ≢ no_fuel
Leaves-ne-no_fuel k (done a ts) h e = cc
Leaves-ne-no_fuel k refused h e = cc
Leaves-ne-no_fuel k no_fuel h e = h

-- The descent over any tokens ends within the fuel that `parse_tokens` gives: it returns a tree, or
-- it refuses the tokens as the source's `ValueError` does.
pub parse_or-ne-no_fuel : (ts : List Token) → parse_or (parse_fuel ts) ts ≢ no_fuel
parse_or-ne-no_fuel ts =
    Leaves-ne-no_fuel (length ts) (parse_or (parse_fuel ts) ts)
      (parse_or-Leaves (parse_fuel ts) (length ts) ts (omega arith) (omega arith))
