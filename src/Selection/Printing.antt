-- ===== src/Selection/Printing.antt =====
-- An expression printed with parentheses round every operand that is an `and` or an `or`.
use tiderace.Base.{List, [], ◌++◌, ◌∷◌}
use tiderace.Selection.Trees.{Tree, Trees, all_of, any_of, cons, ident, negation, nil}
use tiderace.Selection.Parser.{Token, tok_and, tok_close, tok_ident, tok_not, tok_open, tok_or}

unfoldable mutual
  pub print : Tree → List Token
  print (ident s) = tok_ident s ∷ []
  print (negation t) = tok_not ∷ print_operand t
  print (all_of ts) = print_joined tok_and ts
  print (any_of ts) = print_joined tok_or ts

  -- As an operand of `not`, `and` or `or`.
  pub print_operand : Tree → List Token
  print_operand (ident s) = tok_ident s ∷ []
  print_operand (negation t) = tok_not ∷ print_operand t
  print_operand (all_of ts) = tok_open ∷ (print_joined tok_and ts ++ tok_close ∷ [])
  print_operand (any_of ts) = tok_open ∷ (print_joined tok_or ts ++ tok_close ∷ [])

  pub print_joined : Token → Trees → List Token
  print_joined op nil = []
  print_joined op (cons t ts) = print_operand t ++ print_more op ts

  pub print_more : Token → Trees → List Token
  print_more op nil = []
  print_more op (cons t ts) = op ∷ (print_operand t ++ print_more op ts)

-- Every `and` and `or` has at least two operands.
abbrev pub HasTwo : Trees → Type 0
HasTwo nil = ⊥
HasTwo (cons t nil) = ⊥
HasTwo (cons t (cons u ts)) = Unit

unfoldable mutual
  pub IsProper : Tree → Type 0
  IsProper (ident s) = Unit
  IsProper (negation t) = IsProper t
  IsProper (all_of ts) = HasTwo ts × AllProper ts
  IsProper (any_of ts) = HasTwo ts × AllProper ts

  pub AllProper : Trees → Type 0
  AllProper nil = Unit
  AllProper (cons t ts) = IsProper t × AllProper ts
