-- ===== src/Selection/Steps.antt =====
-- Single steps of the parser of selection.py, on tokens that are printed operands.
use tiderace.Base.{
  Bool, List, Str, [], append_assoc, arith, false, length, length-append, refl, suc, true, zero, ℕ,
  ◌++◌, ◌+◌, ◌∷◌, ◌≡◌, ◌≤◌,
}
use tiderace.Selection.Trees.{Tree, Trees, cons, ident, negation, nil}
use tiderace.Selection.Parser.{
  Token, and_node, and_rest, done, or_node, or_rest, parse_and, parse_not, parse_or, tok_and,
  tok_close, tok_ident, tok_not, tok_open, tok_or,
}
use tiderace.Selection.Printing.{print_more}

-- What may follow an operand without being taken for more of it.
abbrev pub stops_and : List Token → Bool
stops_and (tok_and ∷ ts) = false
stops_and _ = true

abbrev pub stops_or : List Token → Bool
stops_or (tok_or ∷ ts) = false
stops_or _ = true

pub and_rest-nil :
    (n : ℕ) (ts : List Token) → stops_and ts ≡ true → and_rest (suc n) ts ≡ done nil ts
unfolding and_rest
and_rest-nil n [] h = refl
and_rest-nil n (tok_and ∷ ts) h = cc
and_rest-nil n (_ ∷ ts) h = refl

pub or_rest-nil : (n : ℕ) (ts : List Token) → stops_or ts ≡ true → or_rest (suc n) ts ≡ done nil ts
unfolding or_rest
or_rest-nil n [] h = refl
or_rest-nil n (tok_or ∷ ts) h = cc
or_rest-nil n (_ ∷ ts) h = refl

pub parse_and_one :
    (n : ℕ) (t : Tree) (xs rest : List Token)
    → 1 ≤ n
    → stops_and rest ≡ true
    → parse_not n xs ≡ done t rest
    → parse_and (suc n) xs ≡ done t rest
unfolding parse_and
parse_and_one zero t xs rest h stops e = absurd (omega arith)
parse_and_one (suc n) t xs rest h stops e = rw e (rw (and_rest-nil n rest stops))

pub parse_or_one :
    (n : ℕ) (t : Tree) (xs rest : List Token)
    → 1 ≤ n
    → stops_or rest ≡ true
    → parse_and n xs ≡ done t rest
    → parse_or (suc n) xs ≡ done t rest
unfolding parse_or
parse_or_one zero t xs rest h stops e = absurd (omega arith)
parse_or_one (suc n) t xs rest h stops e = rw e (rw (or_rest-nil n rest stops))

pub parse_and-cons :
    (n : ℕ) (t : Tree) (more : Trees) (xs ys rest : List Token)
    → parse_not n xs ≡ done t ys
    → and_rest n ys ≡ done more rest
    → parse_and (suc n) xs ≡ done (and_node (cons t more)) rest
unfolding parse_and
parse_and-cons n t more xs ys rest e f = rw e (rw f)

pub parse_or-cons :
    (n : ℕ) (t : Tree) (more : Trees) (xs ys rest : List Token)
    → parse_and n xs ≡ done t ys
    → or_rest n ys ≡ done more rest
    → parse_or (suc n) xs ≡ done (or_node (cons t more)) rest
unfolding parse_or
parse_or-cons n t more xs ys rest e f = rw e (rw f)

pub and_rest-cons :
    (n : ℕ) (t : Tree) (more : Trees) (xs ys rest : List Token)
    → parse_not n xs ≡ done t ys
    → and_rest n ys ≡ done more rest
    → and_rest (suc n) (tok_and ∷ xs) ≡ done (cons t more) rest
unfolding and_rest
and_rest-cons n t more xs ys rest e f = rw e (rw f)

pub or_rest-cons :
    (n : ℕ) (t : Tree) (more : Trees) (xs ys rest : List Token)
    → parse_and n xs ≡ done t ys
    → or_rest n ys ≡ done more rest
    → or_rest (suc n) (tok_or ∷ xs) ≡ done (cons t more) rest
unfolding or_rest
or_rest-cons n t more xs ys rest e f = rw e (rw f)

pub parse_not-negation :
    (n : ℕ) (t : Tree) (xs rest : List Token)
    → parse_not n xs ≡ done t rest
    → parse_not (suc n) (tok_not ∷ xs) ≡ done (negation t) rest
unfolding parse_not
parse_not-negation n t xs rest e = rw e

pub parse_not-parens :
    (n : ℕ) (t : Tree) (xs rest : List Token)
    → parse_or n (xs ++ tok_close ∷ rest) ≡ done t (tok_close ∷ rest)
    → parse_not (suc n) (tok_open ∷ ((xs ++ tok_close ∷ []) ++ rest)) ≡ done t rest
unfolding parse_not
parse_not-parens n t xs rest e = rw (append_assoc xs (tok_close ∷ []) rest) (rw e)

pub stops_and-print_more :
    (ts : Trees) (rest : List Token)
    → stops_and rest ≡ true
    → stops_and (print_more tok_or ts ++ rest) ≡ true
unfolding print_more
stops_and-print_more nil rest h = h
stops_and-print_more (cons t ts) rest h = refl

pub parse_not-ident :
    (n : ℕ) (s : Str) (rest : List Token)
    → parse_not (suc n) (tok_ident s ∷ rest) ≡ done (ident s) rest
unfolding parse_not
parse_not-ident n s rest = refl

pub tokens-append : (xs ys : List Token) → length (xs ++ ys) ≡ length xs + length ys
tokens-append xs ys = length-append xs ys

pub length-parens :
    (xs rest : List Token)
    → length ((xs ++ tok_close ∷ []) ++ rest) ≡ length (xs ++ tok_close ∷ rest)
length-parens xs rest = rw (append_assoc xs (tok_close ∷ []) rest)

pub length-regroup :
    (xs ys rest : List Token) → length ((xs ++ ys) ++ rest) ≡ length xs + length (ys ++ rest)
length-regroup xs ys rest = rw (append_assoc xs ys rest) (tokens-append xs (ys ++ rest))
