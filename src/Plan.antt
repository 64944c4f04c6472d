-- ===== src/Plan.antt =====
-- engine/py-shim/tiderace_shim/plan.py: the expansion of `parametrize` marks into cases, the text
-- within a case's brackets, and the suffixes of colliding ids. Reading marks off Python objects, an
-- author's `ids` and the text of a value (`_id_part`) are parameters.
pub mod Products
pub mod Suffixes
pub mod Texts
use mathlib.Core.Option
use tiderace.Base.{
  Bool, Dict, List, Option, Str, [], all, any, codes, eqb, false, if◌then◌else◌, insert, is_some,
  lookup, ltb, map, none, or_else, some, str_eq, suc, true, zero, ℕ, ◌%◌, ◌&&◌, ◌++◌, ◌+◌, ◌-◌, ◌/◌,
  ◌∷◌,
}

-- `parts.count(text)`: the entry of `counts`.
unfoldable pub count : Str → List Str → ℕ
count text [] = 0
count text (p ∷ ps) = if str_eq p text then suc (count text ps) else count text ps

-- The decimal digits of a number, before those of `acc`; the number itself is fuel enough.
unfoldable pub digits : ℕ → ℕ → Str → Str
digits zero n acc = (48 + n % 10) ∷ acc
digits (suc fuel) n acc = elim (ltb n 10) [
  | true ↦ (48 + n) ∷ acc
  | false ↦ digits fuel (n / 10) ((48 + n % 10) ∷ acc)
]

-- `f"{n}"`
unfoldable pub decimal : ℕ → Str
unfolding digits
decimal n = digits n n []

-- `isdigit` is Python's, of one character: not the ten ASCII digits only.
module _ (isdigit : ℕ → Bool) where
  -- `text and text[-1].isdigit()`
  unfoldable pub ends_in_digit : Str → Bool
  ends_in_digit [] = false
  ends_in_digit (c ∷ []) = isdigit c
  ends_in_digit (c ∷ d ∷ s) = ends_in_digit (d ∷ s)

  -- `_` where pytest is 8 or later and the text ends in a digit.
  unfoldable pub separator : Bool → Str → Str
  unfolding ends_in_digit
  separator underscore text = if underscore && ends_in_digit text then codes "_" else []

  unfoldable pub suffixed : Bool → Str → ℕ → Str
  unfolding decimal separator
  suffixed underscore text n = text ++ (separator underscore text ++ decimal n)

  -- The second loop of `_disambiguate`, over what is left of the parts.
  unfoldable pub suffix_all : Bool → List Str → Dict ℕ → List Str → List Str
  unfolding suffixed count
  suffix_all underscore parts seen [] = []
  suffix_all underscore parts seen (text ∷ more) = elim (eqb (count text parts) 1) [
    | true ↦ text ∷ suffix_all underscore parts seen more
    | false ↦
        let n = or_else (lookup text seen) 0 in
        suffixed underscore text n ∷ suffix_all underscore parts (insert text (suc n) seen) more
  ]

  -- `_disambiguate`; `underscore` is `_pytest_major() >= 8`.
  unfoldable pub disambiguate : Bool → List Str → List Str
  unfolding suffix_all
  disambiguate underscore parts = suffix_all underscore parts [] parts

-- `itertools.product(*axes)`
unfoldable pub prefixed : {A : Type 0} → List A → List (List A) → List (List A)
prefixed [] combos = []
prefixed (a ∷ as') combos = map (λ c. a ∷ c) combos ++ prefixed as' combos

unfoldable pub product : {A : Type 0} → List (List A) → List (List A)
unfolding prefixed
product [] = [] ∷ []
product (axis ∷ axes) = prefixed axis (product axes)

-- The id of a case: generated, the author's, or the author's on some axes only.
pub data CaseId : Type 0 where
  generated : CaseId
  whole : Str → CaseId
  pieces : List (List Str × Option Str) → CaseId

-- An entry of a `parametrize` mark: a `pytest.param`, or a value.
pub data Entry (V : Type 0) : Type 0 where
  param_set : List V → Option Str → Entry V
  plain : V → Entry V

-- A `parametrize` mark: its argument names, its entries, and what its `ids` give.
pub record Parametrize (V : Type 0) : Type 0 where
  pub names : List Str
  pub entries : List (Entry V)
  pub ids : Option (List V → ℕ → Option Str)

-- A point of an axis: the arguments, the author's id, the position in the axis.
pub record Point (V : Type 0) : Type 0 where
  pub arguments : Dict V
  pub own_id : Option Str
  pub position : ℕ

pub record Case (V : Type 0) : Type 0 where
  pub arguments : Dict V
  pub case_id : CaseId
  pub positions : Dict ℕ

-- `dict(zip(names, raw))`, and `d.update(e)`.
unfoldable pub zip_into : {V : Type 0} → List Str → List V → Dict V → Dict V
zip_into [] raw d = d
zip_into (n ∷ ns) [] d = d
zip_into (n ∷ ns) (v ∷ vs) d = zip_into ns vs (insert n v d)

unfoldable pub update : {V : Type 0} → Dict V → Dict V → Dict V
update d [] = d
update d ((k, v) ∷ e) = update (insert k v d) e

unfoldable pub join : List Str → Str
join [] = []
join (s ∷ []) = s
join (s ∷ t ∷ ts) = s ++ codes "-" ++ join (t ∷ ts)

abbrev pub keys_of : {V : Type 0} → Dict V → List Str
keys_of = map (λ (k, _). k)

module _ {V : Type 0} (items_of : V → Option (List V)) where
  -- `raw`; `none` is the exception of a value that cannot be taken apart.
  unfoldable pub raw_of : List Str → Entry V → Option (List V)
  raw_of names (param_set values own) = some values
  raw_of (n ∷ []) (plain v) = some (v ∷ [])
  raw_of names (plain v) = items_of v

  abbrev pub given_id : Entry V → Option Str
  given_id (param_set values own) = own
  given_id (plain v) = none

  abbrev pub id_of : Parametrize V → Entry V → List V → ℕ → Option Str
  id_of m e raw position = elim (given_id e) [
    | some own ↦ some own
    | none ↦ elim m.ids [ none ↦ none | some ids ↦ ids raw position ]
  ]

  abbrev pub point : Parametrize V → Entry V → List V → ℕ → Point V
  point m e raw position = record {
    arguments = zip_into m.names raw [];
    own_id = id_of m e raw position;
    position = position;
  }

  -- One axis, from this position on.
  unfoldable pub axis_from : Parametrize V → ℕ → List (Entry V) → Option (List (Point V))
  unfolding raw_of zip_into
  axis_from m position [] = some []
  axis_from m position (e ∷ es) = elim (raw_of m.names e) [
    | none ↦ none
    | some raw ↦ elim (axis_from m (suc position) es) [
      | none ↦ none
      | some points ↦ some (point m e raw position ∷ points)
    ]
  ]

  unfoldable pub axes_of : List (Parametrize V) → Option (List (List (Point V)))
  unfolding axis_from
  axes_of [] = some []
  axes_of (m ∷ ms) = elim (axis_from m 0 m.entries) [
    | none ↦ none
    | some axis ↦ elim (axes_of ms) [ none ↦ none | some axes ↦ some (axis ∷ axes) ]
  ]

abbrev pub ids_in : {V : Type 0} → List (Point V) → List (Option Str)
ids_in = map (λ p. p.own_id)

abbrev pub piece_of : {V : Type 0} → Point V → List Str × Option Str
piece_of p = (keys_of p.arguments, p.own_id)

unfoldable pub case_id_of : {V : Type 0} → List (Point V) → CaseId
unfolding join
case_id_of [] = generated
case_id_of (p ∷ ps) =
    if all is_some (ids_in (p ∷ ps))
    then whole (join (map (λ i. or_else i []) (ids_in (p ∷ ps))))
    else if any is_some (ids_in (p ∷ ps))
    then pieces (map piece_of (p ∷ ps))
    else generated

unfoldable pub merge_arguments : {V : Type 0} → Dict V → List (Point V) → Dict V
unfolding update
merge_arguments d [] = d
merge_arguments d (p ∷ ps) = merge_arguments (update d p.arguments) ps

unfoldable pub merge_positions : {V : Type 0} → Dict ℕ → List (Point V) → Dict ℕ
unfolding update
merge_positions d [] = d
merge_positions d (p ∷ ps) =
    merge_positions (update d (map (λ (k, _). (k, p.position)) p.arguments)) ps

unfoldable pub case_for : {V : Type 0} → List (Point V) → Case V
unfolding case_id_of merge_arguments merge_positions
case_for combo = record {
  arguments = merge_arguments [] combo;
  case_id = case_id_of combo;
  positions = merge_positions [] combo;
}

-- `_parametrize_cases`, over the `parametrize` marks; `none` where an entry raised.
unfoldable pub parametrize_cases :
    {V : Type 0} → (V → Option (List V)) → List (Parametrize V) → Option (List (Case V))
unfolding product axes_of case_for
parametrize_cases items_of [] = some []
parametrize_cases items_of (m ∷ ms) =
    Option.map (λ axes. map case_for (product axes)) (axes_of items_of (m ∷ ms))
