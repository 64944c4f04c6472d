-- ===== src/Selection/Lexer.antt =====
-- selection.py: the tokens of an expression.
use mathlib.Core.Option
use tiderace.Base.{
  Bool, List, Option, Str, [], codes, eqb, false, if◌then◌else◌, is_space, none, some, true, ℕ,
  ◌++◌, ◌||◌, ◌∷◌,
}

-- What a character is to the loop, in the order of its tests: space, parenthesis, `IDENT`.
pub data CharClass : Type 0 where
  space paren word bad : CharClass

-- The characters of `IDENT` that are not word characters.
abbrev pub punctuation : Str
punctuation = codes ".:+-[]/" ++ 92 ∷ []

one_of : ℕ → Str → Bool
one_of c [] = false
one_of c (d ∷ s) = eqb c d || one_of c s

module _ (is_word : ℕ → Bool) where
  unfoldable pub is_ident : ℕ → Bool
  unfolding one_of
  is_ident c = is_word c || one_of c punctuation

  unfoldable pub classify : ℕ → CharClass
  unfolding is_ident is_space
  classify c =
      if is_space c
      then space
      else if eqb c 40 || eqb c 41
      then paren
      else if is_ident c
      then word
      else bad

  -- The loop: between tokens (`none`), or within an identifier that began with these characters.
  -- `none` is the `ValueError` of a character outside the grammar.
  unfoldable pub lex : Option Str → Str → Option (List Str)
  unfolding classify
  lex none [] = some []
  lex (some run) [] = some (run ∷ [])
  lex none (c ∷ s) = elim (classify c) [
    | space ↦ lex none s
    | paren ↦ Option.map (λ ts. (c ∷ []) ∷ ts) (lex none s)
    | word ↦ lex (some (c ∷ [])) s
    | bad ↦ none
  ]
  lex (some run) (c ∷ s) = elim (is_ident c) [
    | true ↦ lex (some (run ++ c ∷ [])) s
    | false ↦ elim (classify c) [
      | space ↦ Option.map (λ ts. run ∷ ts) (lex none s)
      | paren ↦ Option.map (λ ts. run ∷ (c ∷ []) ∷ ts) (lex none s)
      | word ↦ none
      | bad ↦ none
    ]
  ]
