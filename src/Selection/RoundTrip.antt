-- ===== src/Selection/RoundTrip.antt =====
-- Parsing after printing, over the tokens.
use tiderace.Base.{
  List, [], append-nil, append_assoc, arith, length, refl, some, subst, suc, true, zero, ℕ, ◌*◌,
  ◌++◌, ◌+◌, ◌∷◌, ◌≡◌, ◌≤◌,
}
use tiderace.Selection.Trees.{Tree, Trees, all_of, any_of, cons, ident, negation, nil}
use tiderace.Selection.Parser.{
  Token, and_rest, done, or_rest, parse_fuel, parse_not, parse_or, parse_tokens, tok_and, tok_close,
  tok_or,
}
use tiderace.Selection.Printing.{
  AllProper, HasTwo, IsProper, print, print_joined, print_more, print_operand,
}
use tiderace.Selection.Steps.{
  and_rest-cons, and_rest-nil, length-parens, length-regroup, or_rest-cons, or_rest-nil,
  parse_and-cons, parse_and_one, parse_not-ident, parse_not-negation, parse_not-parens,
  parse_or-cons, parse_or_one, stops_and, stops_and-print_more, stops_or, tokens-append,
}

-- Reading back what was printed, with enough fuel, leaves what follows.
mutual
  unfolding print IsProper

  parse_not-print :
      (n : ℕ) (t : Tree) (rest : List Token)
      → IsProper t
      → 4 * length (print_operand t ++ rest) + 1 ≤ n
      → parse_not n (print_operand t ++ rest) ≡ done t rest
  parse_not-print zero t rest p h = absurd (omega arith)
  parse_not-print (suc n) (ident s) rest p h = parse_not-ident n s rest
  parse_not-print (suc n) (negation t) rest p h =
      parse_not-negation n t (print_operand t ++ rest) rest
        (parse_not-print n t rest p (omega arith))
  parse_not-print (suc n) (all_of ts) rest p h =
      parse_not-parens n (all_of ts) (print_joined tok_and ts) rest (
        joined_and n ts (tok_close ∷ rest) p.0 p.1 refl refl
          (omega (arith, length-parens (print_joined tok_and ts) rest)))
  parse_not-print (suc n) (any_of ts) rest p h =
      parse_not-parens n (any_of ts) (print_joined tok_or ts) rest (
        joined_or n ts (tok_close ∷ rest) p.0 p.1 refl refl
          (omega (arith, length-parens (print_joined tok_or ts) rest)))

  -- `t and ts`, and `t or ts`, up to a token that continues neither.
  and_rest-print :
      (n : ℕ) (ts : Trees) (rest : List Token)
      → AllProper ts
      → stops_and rest ≡ true
      → 4 * length (print_more tok_and ts ++ rest) + 1 ≤ n
      → and_rest n (print_more tok_and ts ++ rest) ≡ done ts rest
  and_rest-print zero ts rest p stops h = absurd (omega arith)
  and_rest-print (suc n) nil rest p stops h = and_rest-nil n rest stops
  and_rest-print (suc n) (cons t ts) rest p stops h =
      rw (append_assoc (print_operand t) (print_more tok_and ts) rest) (
        and_rest-cons n t ts (print_operand t ++ (print_more tok_and ts ++ rest))
          (print_more tok_and ts ++ rest) rest
          (parse_not-print n t (print_more tok_and ts ++ rest) p.0 (
            omega (
              arith,
              length-regroup (print_operand t) (print_more tok_and ts) rest,
              tokens-append (print_operand t) (print_more tok_and ts ++ rest),
            )))
          (and_rest-print n ts rest p.1 stops (
            omega (
              arith,
              length-regroup (print_operand t) (print_more tok_and ts) rest,
              tokens-append (print_operand t) (print_more tok_and ts ++ rest),
            ))))

  or_rest-print :
      (n : ℕ) (ts : Trees) (rest : List Token)
      → AllProper ts
      → stops_and rest ≡ true
      → stops_or rest ≡ true
      → 4 * length (print_more tok_or ts ++ rest) + 1 ≤ n
      → or_rest n (print_more tok_or ts ++ rest) ≡ done ts rest
  or_rest-print zero ts rest p stops stops' h = absurd (omega arith)
  or_rest-print (suc n) nil rest p stops stops' h = or_rest-nil n rest stops'
  or_rest-print (suc zero) (cons t ts) rest p stops stops' h = absurd (omega arith)
  or_rest-print (suc (suc n)) (cons t ts) rest p stops stops' h =
      rw (append_assoc (print_operand t) (print_more tok_or ts) rest) (
        or_rest-cons (suc n) t ts (print_operand t ++ (print_more tok_or ts ++ rest))
          (print_more tok_or ts ++ rest) rest
          (parse_and_one n t (print_operand t ++ (print_more tok_or ts ++ rest))
            (print_more tok_or ts ++ rest) (omega arith) (stops_and-print_more ts rest stops)
            (parse_not-print n t (print_more tok_or ts ++ rest) p.0 (
              omega (
                arith,
                length-regroup (print_operand t) (print_more tok_or ts) rest,
                tokens-append (print_operand t) (print_more tok_or ts ++ rest),
              ))))
          (or_rest-print (suc n) ts rest p.1 stops stops' (
            omega (
              arith,
              length-regroup (print_operand t) (print_more tok_or ts) rest,
              tokens-append (print_operand t) (print_more tok_or ts ++ rest),
            ))))

  joined_and :
      (n : ℕ) (ts : Trees) (rest : List Token)
      → HasTwo ts
      → AllProper ts
      → stops_and rest ≡ true
      → stops_or rest ≡ true
      → 4 * length (print_joined tok_and ts ++ rest) + 3 ≤ n
      → parse_or n (print_joined tok_and ts ++ rest) ≡ done (all_of ts) rest
  joined_and n nil rest two p stops stops' h = absurd two
  joined_and n (cons t nil) rest two p stops stops' h = absurd two
  joined_and zero (cons t (cons u ts)) rest two p stops stops' h = absurd (omega arith)
  joined_and (suc zero) (cons t (cons u ts)) rest two p stops stops' h = absurd (omega arith)
  joined_and (suc (suc n)) (cons t (cons u ts)) rest two p stops stops' h =
      parse_or_one (suc n) (all_of (cons t (cons u ts)))
        ((print_operand t ++ print_more tok_and (cons u ts)) ++ rest) rest (omega arith) stops'
        (rw (append_assoc (print_operand t) (print_more tok_and (cons u ts)) rest) (
          parse_and-cons n t (cons u ts)
            (print_operand t ++ (print_more tok_and (cons u ts) ++ rest))
            (print_more tok_and (cons u ts) ++ rest) rest
            (parse_not-print n t (print_more tok_and (cons u ts) ++ rest) p.0 (
              omega (
                arith,
                length-regroup (print_operand t) (print_more tok_and (cons u ts)) rest,
                tokens-append (print_operand t) (print_more tok_and (cons u ts) ++ rest),
              )))
            (and_rest-print n (cons u ts) rest p.1 stops (
              omega (
                arith,
                length-regroup (print_operand t) (print_more tok_and (cons u ts)) rest,
                tokens-append (print_operand t) (print_more tok_and (cons u ts) ++ rest),
              )))))

  joined_or :
      (n : ℕ) (ts : Trees) (rest : List Token)
      → HasTwo ts
      → AllProper ts
      → stops_and rest ≡ true
      → stops_or rest ≡ true
      → 4 * length (print_joined tok_or ts ++ rest) + 3 ≤ n
      → parse_or n (print_joined tok_or ts ++ rest) ≡ done (any_of ts) rest
  joined_or n nil rest two p stops stops' h = absurd two
  joined_or n (cons t nil) rest two p stops stops' h = absurd two
  joined_or zero (cons t (cons u ts)) rest two p stops stops' h = absurd (omega arith)
  joined_or (suc zero) (cons t (cons u ts)) rest two p stops stops' h = absurd (omega arith)
  joined_or (suc (suc n)) (cons t (cons u ts)) rest two p stops stops' h =
      rw (append_assoc (print_operand t) (print_more tok_or (cons u ts)) rest) (
        parse_or-cons (suc n) t (cons u ts)
          (print_operand t ++ (print_more tok_or (cons u ts) ++ rest))
          (print_more tok_or (cons u ts) ++ rest) rest
          (parse_and_one n t (print_operand t ++ (print_more tok_or (cons u ts) ++ rest))
            (print_more tok_or (cons u ts) ++ rest) (omega arith) refl
            (parse_not-print n t (print_more tok_or (cons u ts) ++ rest) p.0 (
              omega (
                arith,
                length-regroup (print_operand t) (print_more tok_or (cons u ts)) rest,
                tokens-append (print_operand t) (print_more tok_or (cons u ts) ++ rest),
              ))))
          (or_rest-print (suc n) (cons u ts) rest p.1 stops stops' (
            omega (
              arith,
              length-regroup (print_operand t) (print_more tok_or (cons u ts)) rest,
              tokens-append (print_operand t) (print_more tok_or (cons u ts) ++ rest),
            ))))

-- An operand alone.
parse_or-operand :
    (n : ℕ) (t : Tree)
    → IsProper t
    → 4 * length (print_operand t) + 3 ≤ n
    → parse_or n (print_operand t) ≡ done t []
parse_or-operand zero t p h = absurd (omega arith)
parse_or-operand (suc zero) t p h = absurd (omega arith)
parse_or-operand (suc (suc n)) t p h =
    parse_or_one (suc n) t (print_operand t) [] (omega arith) refl (
      parse_and_one n t (print_operand t) [] (omega arith) refl (
        subst (λ xs. parse_not n xs ≡ done t []) (append-nil (print_operand t))
          (parse_not-print n t [] p (omega (arith, tokens-append)))))

parse_or-print :
    (n : ℕ) (t : Tree)
    → IsProper t
    → 4 * length (print t) + 3 ≤ n
    → parse_or n (print t) ≡ done t []
unfolding print IsProper
parse_or-print n (ident s) p h = parse_or-operand n (ident s) p h
parse_or-print n (negation t) p h = parse_or-operand n (negation t) p h
parse_or-print n (all_of ts) p h =
    subst (λ xs. parse_or n xs ≡ done (all_of ts) []) (append-nil (print_joined tok_and ts))
      (joined_and n ts [] p.0 p.1 refl refl (omega (arith, tokens-append)))
parse_or-print n (any_of ts) p h =
    subst (λ xs. parse_or n xs ≡ done (any_of ts) []) (append-nil (print_joined tok_or ts))
      (joined_or n ts [] p.0 p.1 refl refl (omega (arith, tokens-append)))

-- A printed expression parses back to itself.
pub parse_tokens-print : (t : Tree) → IsProper t → parse_tokens (print t) ≡ some t
unfolding parse_tokens
parse_tokens-print t p = rw (parse_or-print (parse_fuel (print t)) t p (omega arith))
