-- ===== src/Selection/Parser.antt =====
-- selection.py: `parse_expr`, by recursive descent over the tokens.
use tiderace.Base.{
  Bool, List, Option, Str, [], codes, if◌then◌else◌, length, map, none, some, str_eq, suc, zero, ℕ,
  ◌*◌, ◌+◌, ◌∷◌,
}
use tiderace.Selection.Trees.{Tree, Trees, all_of, any_of, cons, ident, negation, nil}
use tiderace.Selection.Lexer.{lex}

-- What a token is to the parser.
pub data Token : Type 0 where
  tok_and tok_or tok_not tok_open tok_close : Token
  tok_ident : Str → Token

unfoldable pub token : Str → Token
token t =
    if str_eq t (codes "and")
    then tok_and
    else if str_eq t (codes "or")
    then tok_or
    else if str_eq t (codes "not")
    then tok_not
    else if str_eq t (codes "(")
    then tok_open
    else if str_eq t (codes ")")
    then tok_close
    else tok_ident t

-- A parsed part with the tokens that are left, a `ValueError`, or no fuel.
pub data Parsed (A : Type 0) : Type 0 where
  done : A → List Token → Parsed A
  refused : Parsed A
  no_fuel : Parsed A

infixl 5 ◌>>=◌
abbrev pub ◌>>=◌ : {A B : Type 0} → Parsed A → (A → List Token → Parsed B) → Parsed B
done a ts >>= f = f a ts
refused >>= f = refused
no_fuel >>= f = no_fuel

-- `items[0] if len(items) == 1 else ("or", items)`, and so for "and".
abbrev pub or_node : Trees → Tree
or_node (cons t nil) = t
or_node ts = any_of ts

abbrev pub and_node : Trees → Tree
and_node (cons t nil) = t
and_node ts = all_of ts

-- `if peek() != ")": raise`, else take it.
abbrev pub expect_close : Tree → List Token → Parsed Tree
expect_close inner (tok_close ∷ ts) = done inner ts
expect_close inner ts = refused

unfoldable mutual
  pub parse_or : ℕ → List Token → Parsed Tree
  parse_or zero ts = no_fuel
  parse_or (suc n) ts =
      parse_and n ts >>= λ t ts'. or_rest n ts' >>= λ more ts''. done (or_node (cons t more)) ts''

  -- `while peek() == "or": take(); items.append(parse_and())`
  pub or_rest : ℕ → List Token → Parsed Trees
  or_rest zero ts = no_fuel
  or_rest (suc n) (tok_or ∷ ts) =
      parse_and n ts >>= λ t ts'. or_rest n ts' >>= λ more ts''. done (cons t more) ts''
  or_rest (suc n) ts = done nil ts

  pub parse_and : ℕ → List Token → Parsed Tree
  parse_and zero ts = no_fuel
  parse_and (suc n) ts =
      parse_not n ts >>= λ t ts'. and_rest n ts' >>= λ more ts''. done (and_node (cons t more)) ts''

  pub and_rest : ℕ → List Token → Parsed Trees
  and_rest zero ts = no_fuel
  and_rest (suc n) (tok_and ∷ ts) =
      parse_not n ts >>= λ t ts'. and_rest n ts' >>= λ more ts''. done (cons t more) ts''
  and_rest (suc n) ts = done nil ts

  pub parse_not : ℕ → List Token → Parsed Tree
  parse_not zero ts = no_fuel
  parse_not (suc n) [] = refused
  parse_not (suc n) (tok_not ∷ ts) = parse_not n ts >>= λ t ts'. done (negation t) ts'
  parse_not (suc n) (tok_open ∷ ts) = parse_or n ts >>= expect_close
  parse_not (suc n) (tok_ident s ∷ ts) = done (ident s) ts
  parse_not (suc n) (tok_close ∷ ts) = refused
  parse_not (suc n) (tok_and ∷ ts) = refused
  parse_not (suc n) (tok_or ∷ ts) = refused

-- Four rounds of fuel for a token, and three for the descent.
abbrev pub parse_fuel : List Token → ℕ
parse_fuel ts = 4 * length ts + 3

-- `if pos != len(tokens): raise`
unfoldable pub whole : Parsed Tree → Option Tree
whole (done t []) = some t
whole (done t (_ ∷ _)) = none
whole refused = none
whole no_fuel = none

unfoldable pub parse_tokens : List Token → Option Tree
unfolding parse_or whole
parse_tokens ts = whole (parse_or (parse_fuel ts) ts)

-- `parse_expr`, and so `compile_tree`, which turns the error into `None`.
unfoldable pub parse_expr : (ℕ → Bool) → Str → Option Tree
unfolding lex token parse_tokens
parse_expr is_word expr = elim (lex is_word none expr) [
  | none ↦ none
  | some ts ↦ parse_tokens (map token ts)
]
