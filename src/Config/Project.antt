-- ===== src/Config/Project.antt =====
-- config.py: `ProjectConfig` and its options.
use tiderace.Base.{
  Bool, Dict, List, Option, Str, [], codes, drop_chars, eqb, false, has_name, if◌then◌else◌, is_nil,
  leb, length, lookup, ltb, none, not, or_else, reverse, some, starts_with, str_eq, strip, suc,
  true, ℕ, ◌&&◌, ◌++◌, ◌||◌, ◌∷◌,
}

-- A raw value: a text, a list or tuple of texts, or any other value by its text.
pub data Value : Type 0 where
  text : Str → Value
  items : List Str → Value
  scalar : Str → Value

abbrev pub Section : Type 0
Section = Dict Value

pub record ProjectConfig : Type 0 where
  pub dir : Str
  pub source : Option Str
  pub sections : List Section
  pub argv : List Str

-- `__post_init__`; `split_words` is `shlex.split`, `none` on unbalanced quotes.
unfoldable pub argv_of : (Str → Option (List Str)) → Str → List Str
argv_of split_words [] = []
argv_of split_words (c ∷ s) = or_else (split_words (c ∷ s)) []

-- The boundaries of `str.splitlines`, up to the pair of carriage return and line feed.
unfoldable pub ends_line : ℕ → Bool
ends_line c =
    (leb 10 c && leb c 13) || ((leb 28 c && leb c 30) || (eqb c 133 || (eqb c 8232 || eqb c 8233)))

-- `v for v in value.splitlines() if v.strip()`, with the line so far, its last character first; a
-- blank line between carriage return and line feed is dropped like any other.
unfoldable pub text_lines : Str → Str → List Str
unfolding ends_line strip
text_lines line [] = if is_nil (strip (reverse line)) then [] else reverse line ∷ []
text_lines line (c ∷ s) = elim (ends_line c) [
  | false ↦ text_lines (c ∷ line) s
  | true ↦
      (let rest = text_lines [] s in
        if is_nil (strip (reverse line)) then rest else reverse line ∷ rest)
]

unfoldable pub values_in : Option Value → List Str
unfolding text_lines
values_in none = []
values_in (some (text s)) = text_lines [] s
values_in (some (items vs)) = vs
values_in (some (scalar v)) = v ∷ []

-- `values`, over the sections
unfoldable pub values : List Section → Str → List Str
unfolding values_in lookup
values [] key = []
values (section ∷ sections) key = values_in (lookup key section) ++ values sections key

-- `setting`; `none` is `NOTSET`
unfoldable pub setting : List Section → Str → Option Value
unfolding lookup
setting [] key = none
setting (section ∷ sections) key = elim (lookup key section) [
  | some value ↦ some value
  | none ↦ setting sections key
]

-- `flag`
unfoldable pub has_flag : ProjectConfig → Str → Bool
unfolding has_name
has_flag project name = has_name name project.argv

-- What one argument gives a flag, of which the next argument is `later`.
unfoldable pub value_of : Str → Str → List Str → List Str
unfolding starts_with str_eq drop_chars
value_of flag arg later =
    if str_eq arg flag
    then (elim later [ [] ↦ [] | v ∷ vs ↦ v ∷ [] ])
    else if starts_with arg (flag ++ codes "=")
    then drop_chars (suc (length flag)) arg ∷ []
    else if not (starts_with flag (codes "--"))
        && (starts_with arg flag && ltb (length flag) (length arg))
    then drop_chars (length flag) arg ∷ []
    else []

-- `option_values`
unfoldable pub option_values : List Str → Str → List Str
unfolding value_of
option_values [] flag = []
option_values (arg ∷ argv) flag = value_of flag arg argv ++ option_values argv flag

-- `option`, and `ProjectConfig.opt` over the `argv` of a project
unfoldable pub option : List Str → Str → Option Str
unfolding option_values
option argv flag = elim (option_values argv flag) [ [] ↦ none | v ∷ vs ↦ some v ]
