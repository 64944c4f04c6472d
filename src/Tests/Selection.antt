-- ===== src/Tests/Selection.antt =====
-- selection.py at `-k "not a"`, at patches of a selection and at undeclared marks.
use tiderace.Base.{
  Bool, List, Str, [], codes, contains_str, false, inl, is_space, leb, none, refl, some,
  starts_with, str_eq, true, ℕ, ◌&&◌, ◌∷◌, ◌≡◌, ◌≢◌,
}
use tiderace.Selection.{
  Patch, Selection, Tree, all_of, any_of, classify, cons, evaluate, ident, is_ident,
  keyword_matches, keyword_verdict, kleene_not, lex, negation, nil, no_fuel, parse_expr, parse_fuel,
  parse_or, parse_tokens, resolve_keyword, tok_not, tok_open, token,
}
use tiderace.Selection.Printing.{IsProper, print}
use tiderace.Selection.RoundTrip.{parse_tokens-print}
use tiderace.Selection.Fuel.{parse_or-ne-no_fuel}
use tiderace.Selection.Verdicts.{keyword_verdict-stable}

abbrev same_case : Str → Str
same_case s = s

-- The ASCII letters of `\w`.
abbrev is_letter : ℕ → Bool
is_letter c = leb 97 c && leb c 122

abbrev with_keyword : Tree → Selection
with_keyword t = record {
  keyword = some t;
  marker = none;
  strict_markers = true;
  declared_marks = codes "slow" ∷ [];
}

abbrev not_a : Tree
not_a = negation (ident (codes "a"))

-- `a and not (b or c)`
abbrev mixed : Tree
mixed = all_of (
    cons (ident (codes "a"))
      (cons (negation (any_of (cons (ident (codes "b")) (cons (ident (codes "c")) nil)))) nil))

parse_mixed : parse_expr is_letter (codes "a and not (b or c)") ≡ some mixed
unfolding parse_expr parse_tokens parse_or token lex classify is_ident is_space str_eq
parse_mixed = refl

parse_dangling : parse_expr is_letter (codes "a and") ≡ none
unfolding parse_expr parse_tokens parse_or token lex classify is_ident is_space str_eq
parse_dangling = refl

-- A case `m[a]` of a node `m`: the node's verdict on `-k a` is left open.
abbrev node_names : List Str
node_names = codes "m" ∷ []

abbrev case_names : List Str
case_names = codes "m[a]" ∷ []

keyword_verdict_open : keyword_verdict same_case (with_keyword not_a) node_names false ≡ none
unfolding keyword_verdict evaluate kleene_not resolve_keyword keyword_matches contains_str
    starts_with
keyword_verdict_open = refl

keyword_verdict-stable_example :
    keyword_verdict same_case (with_keyword (ident (codes "m"))) case_names false ≡ some true
unfolding contains_str starts_with keyword_verdict evaluate resolve_keyword keyword_matches
keyword_verdict-stable_example =
    keyword_verdict-stable same_case (with_keyword (ident (codes "m"))) node_names case_names false
      true (inl refl, tt) refl

parse_tokens-print_example : parse_tokens (print mixed) ≡ some mixed
unfolding IsProper
parse_tokens-print_example = parse_tokens-print mixed (tt, (tt, ((tt, (tt, (tt, tt))), tt)))

parse_or-ne-no_fuel_example :
    parse_or (parse_fuel (tok_open ∷ tok_not ∷ [])) (tok_open ∷ tok_not ∷ []) ≢ no_fuel
parse_or-ne-no_fuel_example = parse_or-ne-no_fuel (tok_open ∷ tok_not ∷ [])

abbrev only_k : Patch
only_k = record { keyword = some (codes "a"); marker = none; strict = false }

abbrev clear_k : Patch
clear_k = record { keyword = some []; marker = none; strict = true }
