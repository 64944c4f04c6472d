-- ===== src/Tests/Plan.antt =====
-- plan.py at ids that collide, and at two stacked marks.
use tiderace.Base.{
  Bool, List, Option, Str, [], codes, insert, leb, lookup, none, refl, some, str_eq, true, ℕ, ◌&&◌,
  ◌∷◌, ◌≡◌,
}
use tiderace.Plan.{
  Parametrize, Point, count, decimal, digits, disambiguate, ends_in_digit, plain, separator,
  suffix_all, suffixed,
}
use tiderace.Plan.Suffixes.{disambiguate-expected, expected}

-- `isdigit` of an ASCII character.
abbrev ascii_digit : ℕ → Bool
ascii_digit c = leb 48 c && leb c 57

abbrev clashing : List Str
clashing = codes "a" ∷ codes "b" ∷ codes "a" ∷ []

clashing_suffixed :
    disambiguate ascii_digit true clashing ≡ codes "a0" ∷ codes "b" ∷ codes "a1" ∷ []
unfolding disambiguate suffix_all count suffixed separator decimal digits ends_in_digit lookup
    insert str_eq
clashing_suffixed = refl

-- A suffixed id can be one that another case has already.
colliding_suffixed :
    disambiguate ascii_digit true (codes "a0" ∷ codes "a" ∷ codes "a" ∷ [])
    ≡ codes "a0" ∷ codes "a0" ∷ codes "a1" ∷ []
unfolding disambiguate suffix_all count suffixed separator decimal digits ends_in_digit lookup
    insert str_eq
colliding_suffixed = refl

disambiguate-expected_example :
    (disambiguate ascii_digit true clashing ≡ expected ascii_digit true clashing [] clashing)
    × ((text : Str) (j k : ℕ)
        → suffixed ascii_digit true text j ≡ suffixed ascii_digit true text k
        → j ≡ k)
disambiguate-expected_example = disambiguate-expected ascii_digit true clashing

abbrev third : ℕ
third = 3

abbrev no_items : ℕ → Option (List ℕ)
no_items n = none

-- `@parametrize("x", [1, 2])` above `@parametrize("y", [3], ids=["three"])`.
abbrev over_x : Parametrize ℕ
over_x = record { names = codes "x" ∷ []; entries = plain 1 ∷ plain 2 ∷ []; ids = none }

abbrev over_y : Parametrize ℕ
over_y = record {
  names = codes "y" ∷ [];
  entries = plain 3 ∷ [];
  ids = some (λ raw n. some (codes "three"));
}

abbrev two_axes : List (List (Point ℕ))
two_axes =
    (record { arguments = (codes "x", 1) ∷ []; own_id = none; position = 0 }
      ∷ record { arguments = (codes "x", 2) ∷ []; own_id = none; position = 1 }
      ∷ [])
    ∷ (record { arguments = (codes "y", 3) ∷ []; own_id = some (codes "three"); position = 0 } ∷ [])
    ∷ []
