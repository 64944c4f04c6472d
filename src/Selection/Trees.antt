-- ===== src/Selection/Trees.antt =====
-- selection.py: the tree of an expression, and `evaluate`.
use tiderace.Base.{
  Bool, List, Option, Str, [], any, false, if◌then◌else◌, none, not, some, true, ◌∷◌,
}

-- `("ident", s)`, `("not", t)`, `("and", [ts])`, `("or", [ts])`
mutual
  pub data Tree : Type 0 where
    ident : Str → Tree
    negation : Tree → Tree
    all_of : Trees → Tree
    any_of : Trees → Tree

  pub data Trees : Type 0 where
    nil : Trees
    cons : Tree → Trees → Trees

-- True, False, or `None` for "cannot tell yet".
abbrev pub Kleene : Type 0
Kleene = Option Bool

-- `v is False`, `v is True`, `v is None`
abbrev pub is_false : Kleene → Bool
is_false (some false) = true
is_false _ = false

abbrev pub is_yes : Kleene → Bool
is_yes (some true) = true
is_yes _ = false

abbrev pub is_unknown : Kleene → Bool
is_unknown none = true
is_unknown (some _) = false

unfoldable pub kleene_not : Kleene → Kleene
kleene_not none = none
kleene_not (some b) = some (not b)

unfoldable pub kleene_all : List Kleene → Kleene
kleene_all vs =
    if any is_false vs then some false else if any is_unknown vs then none else some true

unfoldable pub kleene_any : List Kleene → Kleene
kleene_any vs = if any is_yes vs then some true else if any is_unknown vs then none else some false

unfoldable mutual
  unfolding kleene_not kleene_all kleene_any

  pub evaluate : Tree → (Str → Kleene) → Kleene
  evaluate (ident s) resolve = resolve s
  evaluate (negation t) resolve = kleene_not (evaluate t resolve)
  evaluate (all_of ts) resolve = kleene_all (evaluate_all ts resolve)
  evaluate (any_of ts) resolve = kleene_any (evaluate_all ts resolve)

  pub evaluate_all : Trees → (Str → Kleene) → List Kleene
  evaluate_all nil resolve = []
  evaluate_all (cons t ts) resolve = evaluate t resolve ∷ evaluate_all ts resolve
