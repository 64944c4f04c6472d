-- ===== src/Footprint/Scan.antt =====
-- footprint.py: `_scan_import_statements`, `_import_names_in` and `_imported_names`.
use tiderace.Base.{
  Bool, List, Option, Str, [], codes, contains_str, ends_with, eqb, false, if◌then◌else◌, is_nil,
  length, ltb, map, none, or_else, rstrip, some, split, starts_with, suc, true, zero, ℕ, ◌%◌, ◌++◌,
  ◌+◌, ◌||◌, ◌∷◌,
}

-- What Python's parser makes of a text: an `import` statement's names, a `from` statement's module,
-- level and names, or a statement that is neither.
pub data Stmt : Type 0 where
  import_stmt : List Str → Stmt
  from_stmt : Option Str → ℕ → List Str → Stmt
  other_stmt : Stmt

abbrev pub Name : Type 0
Name = Str × ℕ

unfoldable pub names_of : Stmt → List Name
names_of (import_stmt names) = map (λ n. (n, 0)) names
names_of (from_stmt base_module level names) =
    let base = or_else base_module [] in
    (base, level) ∷ map (λ n. (if is_nil base then n else base ++ codes "." ++ n, level)) names
names_of other_stmt = []

-- `_import_names_in`
unfoldable pub import_names_in : List Stmt → List Name
unfolding names_of
import_names_in [] = []
import_names_in (s ∷ ss) = names_of s ++ import_names_in ss

unfoldable pub skip_blanks : Str → Str
skip_blanks [] = []
skip_blanks (c ∷ s) = let rest = skip_blanks s in if eqb c 32 || eqb c 9 then rest else c ∷ s

-- `[ \t]*(import|from)[ \t]` at the head of the text: the text from the keyword on.
unfoldable pub keyword_at : Str → Option Str
unfolding skip_blanks starts_with
keyword_at s =
    let t = skip_blanks s in
    if starts_with t (codes "import ")
      || (starts_with t (codes "import\t")
          || (starts_with t (codes "from ") || starts_with t (codes "from\t")))
    then some t
    else none

search_behind : Str → Option Str
unfolding keyword_at
search_behind [] = none
search_behind (c ∷ s) =
    let later = search_behind s in
    if eqb c 59 || eqb c 58 then (elim (keyword_at s) [ none ↦ later | some t ↦ some t ]) else later

-- `_IMPORT_STMT.search(line)`, as `line[m.start(1):]`
unfoldable pub import_search : Str → Option Str
unfolding keyword_at search_behind
import_search line = elim (keyword_at line) [ none ↦ search_behind line | some t ↦ some t ]

-- `"import" in line and ...`
unfoldable pub candidate : Str → Option Str
unfolding contains_str import_search
candidate line = if contains_str (codes "import") line then import_search line else none

-- `s.count(c)`
unfoldable pub count_char : ℕ → Str → ℕ
count_char c [] = 0
count_char c (d ∷ s) = let n = count_char c s in if eqb d c then suc n else n

-- `s.count(c * 3)`, without overlaps: `skip` characters of an occurrence are still to come.
count_triple : ℕ → ℕ → Str → ℕ
unfolding starts_with
count_triple c skip [] = 0
count_triple c (suc skip) (d ∷ s) = count_triple c skip s
count_triple c zero (d ∷ s) = elim (starts_with (d ∷ s) (c ∷ c ∷ c ∷ [])) [
  | true ↦ suc (count_triple c 2 s)
  | false ↦ count_triple c 0 s
]

-- The region of a triple-quoted string that the scan is inside of.
pub data Inside : Type 0 where
  code_text double_quotes single_quotes : Inside

-- What one delimiter does to it: nothing if it stands an even number of times in the line.
unfoldable pub toggled : Inside → Bool → Inside → Inside
toggled here false inside = inside
toggled here true code_text = here
toggled double_quotes true double_quotes = code_text
toggled single_quotes true single_quotes = code_text
toggled here true inside = inside

unfoldable pub after_line : Str → Inside → Inside
unfolding toggled count_triple
after_line line inside =
    toggled single_quotes (eqb (count_triple 39 0 line % 2) 1)
      (toggled double_quotes (eqb (count_triple 34 0 line % 2) 1) inside)

-- `stmt.rstrip().endswith("\\")`
unfoldable pub continued : Str → Bool
unfolding ends_with rstrip
continued stmt = ends_with (rstrip stmt) (codes "\\")

unfoldable pub drop_slash_marks : Str → Str
drop_slash_marks [] = []
drop_slash_marks (c ∷ s) = elim (drop_slash_marks s) [
  | [] ↦ if eqb c 92 then [] else c ∷ []
  | d ∷ t ↦ c ∷ d ∷ t
]

-- The inner loop: the statement with the lines that continue it, and the lines behind it. The depth
-- is the parentheses that the statement opened, and those it closed.
unfoldable pub whole_stmt : Str → ℕ → ℕ → List Str → Str × List Str
unfolding continued count_char rstrip drop_slash_marks
whole_stmt stmt opened closed [] = (stmt, [])
whole_stmt stmt opened closed (nxt ∷ lines) =
    let more =
      whole_stmt (drop_slash_marks (rstrip stmt) ++ 10 ∷ nxt) (opened + count_char 40 nxt)
        (closed + count_char 41 nxt) lines in
    if ltb closed opened || continued stmt then more else (stmt, nxt ∷ lines)

unfoldable pub push_stmt : Str → Option (List Str) → Option (List Str)
push_stmt stmt none = none
push_stmt stmt (some stmts) = some (stmt ∷ stmts)

abbrev pub is_code : Inside → Bool
is_code code_text = true
is_code _ = false

-- The outer loop, with a fuel of a line each; `none` where a candidate stands inside a string.
unfoldable pub scan_lines : ℕ → List Str → Inside → Option (List Str)
unfolding candidate whole_stmt push_stmt after_line
scan_lines zero lines inside = some []
scan_lines (suc fuel) [] inside = some []
scan_lines (suc fuel) (line ∷ lines) inside = elim (candidate line) [
  | none ↦ scan_lines fuel lines (after_line line inside)
  | some stmt ↦ elim (is_code inside) [
    | false ↦ none
    | true ↦
        (let (whole, behind) = whole_stmt stmt (count_char 40 stmt) (count_char 41 stmt) lines in
          push_stmt whole (scan_lines fuel behind (after_line line inside)))
  ]
]

-- `_scan_import_statements`
unfoldable pub scan_import_statements : Str → Option (List Str)
unfolding scan_lines
scan_import_statements src = let lines = split 10 src in scan_lines (length lines) lines code_text

module _ (parse_body : Str → Option (List Stmt)) (walk_tree : Str → Option (List Stmt)) where
  -- The statements at the top of each text that parses.
  stmts_names : List Str → List Name
  unfolding import_names_in
  stmts_names [] = []
  stmts_names (stmt ∷ stmts) = import_names_in (or_else (parse_body stmt) []) ++ stmts_names stmts

  -- `_imported_names`, over the text of the file, `none` where it cannot be read.
  unfoldable pub imported_names : Option Str → List Name
  unfolding contains_str scan_import_statements stmts_names import_names_in
  imported_names none = []
  imported_names (some src) =
      if contains_str (codes "import") src
      then (elim (scan_import_statements src) [
        | none ↦ import_names_in (or_else (walk_tree src) [])
        | some stmts ↦ stmts_names stmts
      ])
      else []
