-- ===== src/Selection/Choice.antt =====
-- selection.py: `Selection`, and what the gates ask of it.
use tiderace.Base.{
  Bool, List, Option, Str, [], any, codes, contains_str, eqb, false, if◌then◌else◌, keep, ltb, none,
  not, some, str_eq, true, ℕ, ◌&&◌, ◌||◌, ◌∷◌,
}
use tiderace.Selection.Trees.{Kleene, Tree, evaluate}
use tiderace.Selection.Parser.{parse_expr}

-- The marker predicate is kept as the tree that it closes over.
pub record Selection : Type 0 where
  pub keyword : Option Tree
  pub marker : Option Tree
  pub strict_markers : Bool
  pub declared_marks : List Str

-- The daemon's patch; a field that is absent or null is `none`, and `strict` is the truth of its
-- field.
pub record Patch : Type 0 where
  pub keyword : Option Str
  pub marker : Option Str
  pub strict : Bool

-- `compile_tree(expr, ...) if expr else None`
unfoldable pub compile : (ℕ → Bool) → Str → Option Tree
unfolding parse_expr
compile is_word [] = none
compile is_word (c ∷ s) = parse_expr is_word (c ∷ s)

patched : (ℕ → Bool) → Option Str → Option Tree → Option Tree
unfolding compile
patched is_word none old = old
patched is_word (some expr) old = compile is_word expr

-- `Selection.override`; an empty patch leaves every field as it is.
unfoldable pub override : (ℕ → Bool) → Selection → Patch → Selection
unfolding patched
override is_word s p = record {
  keyword = patched is_word p.keyword s.keyword;
  marker = patched is_word p.marker s.marker;
  strict_markers = p.strict || s.strict_markers;
  declared_marks = s.declared_marks;
}

unfoldable pub keyword_matches : (Str → Str) → Str → List Str → Bool
keyword_matches lower needle names = any (λ name. contains_str (lower needle) (lower name)) names

unfoldable pub resolve_keyword : (Str → Str) → List Str → Bool → Str → Kleene
unfolding keyword_matches
resolve_keyword lower names final needle =
    if keyword_matches lower needle names then some true else if final then some false else none

-- `keyword_verdict`
unfoldable pub keyword_verdict : (Str → Str) → Selection → List Str → Bool → Kleene
unfolding evaluate resolve_keyword
keyword_verdict lower s names final = elim s.keyword [
  | none ↦ some true
  | some t ↦ evaluate t (resolve_keyword lower names final)
]

-- `n in names`
unfoldable pub among : Str → List Str → Bool
among n [] = false
among n (m ∷ ms) = str_eq n m || among n ms

-- `bool(v)`
abbrev pub truthy : Kleene → Bool
truthy none = false
truthy (some b) = b

unfoldable pub marker_allows : Selection → List Str → Bool
unfolding evaluate among
marker_allows s marks = elim s.marker [
  | none ↦ true
  | some t ↦ truthy (evaluate t (λ n. some (among n marks)))
]

abbrev pub builtin_marks : List Str
builtin_marks =
    codes "skip"
    ∷ codes "skipif"
    ∷ codes "xfail"
    ∷ codes "parametrize"
    ∷ codes "usefixtures"
    ∷ codes "filterwarnings"
    ∷ codes "tryfirst"
    ∷ codes "trylast"
    ∷ []

-- `s < t` on texts
unfoldable pub str_lt : Str → Str → Bool
str_lt s [] = false
str_lt [] (d ∷ t) = true
str_lt (c ∷ s) (d ∷ t) = ltb c d || (eqb c d && str_lt s t)

unfoldable pub insert_sorted : Str → List Str → List Str
unfolding str_lt
insert_sorted n [] = n ∷ []
insert_sorted n (m ∷ ms) =
    let rest = insert_sorted n ms in if str_lt m n then m ∷ rest else n ∷ m ∷ ms

-- `sorted(...)`
unfoldable pub sorted : List Str → List Str
unfolding insert_sorted
sorted [] = []
sorted (n ∷ ns) = insert_sorted n (sorted ns)

abbrev pub is_nonempty : Str → Bool
is_nonempty [] = false
is_nonempty (_ ∷ _) = true

-- `n and n not in self.declared_marks and n not in BUILTIN_MARKS`
unfoldable pub undeclared : Selection → Str → Bool
unfolding among
undeclared s n = is_nonempty n && not (among n s.declared_marks) && not (among n builtin_marks)

-- What is left of the undeclared marks after the plugins were asked; `none` where pytest gave no
-- answer.
unfoldable pub unregistered : Option (List Str) → List Str → List Str
unfolding among
unregistered none unknown = []
unregistered (some registered) unknown = keep (λ n. not (among n registered)) unknown

-- `unknown_marks`; `plugin_marks` is what `plugin_marks(root)` answers. With nothing unknown it is
-- not asked, and the result is empty either way.
unfoldable pub unknown_marks : Selection → Option (List Str) → List Str → List Str
unfolding unregistered
unknown_marks s plugin_marks marks =
    if s.strict_markers then unregistered plugin_marks (sorted (keep (undeclared s) marks)) else []
