-- ===== src/Selection/Unknown.antt =====
-- Which marks `--strict-markers` complains about: `unknown_marks` of selection.py.
use tiderace.Base.{
  Bool, Bool-cases, List, Str, [], arith, inl, inr, keep, none, not, refl, some, str_eq, str_eq_iff,
  ◌&&◌, ◌||◌, ◌∷◌, ◌≡◌,
}
use tiderace.Selection.Choice.{Selection, among, insert_sorted, sorted, undeclared, unknown_marks}

-- A mark that nothing declared: not empty, not the project's, not pytest's own, and, as the plugins
-- have answered, not theirs.
abbrev pub is_unknown_mark : Selection → List Str → Str → Bool
is_unknown_mark s registered n = undeclared s n && not (among n registered)

among-keep : (f : Str → Bool) (n : Str) (ns : List Str) → among n (keep f ns) ≡ (among n ns && f n)
unfolding among
among-keep f n [] = refl
among-keep f n (m ∷ ms) = ground (arith, str_eq_iff n m, among-keep f n ms)

among-insert_sorted :
    (n m : Str) (ms : List Str) → among n (insert_sorted m ms) ≡ (str_eq n m || among n ms)
unfolding among insert_sorted
among-insert_sorted n m [] = refl
among-insert_sorted n m (k ∷ ms) = ground (arith, among-insert_sorted n m ms)

among-sorted : (n : Str) (ms : List Str) → among n (sorted ms) ≡ among n ms
unfolding among sorted
among-sorted n [] = refl
among-sorted n (m ∷ ms) = ground (arith, among-insert_sorted n m (sorted ms), among-sorted n ms)

-- With an answer from the plugins, a mark is reported exactly when the checking is strict and the
-- mark is one of the node's that nothing declared; without an answer, none is.
unknown_marks-exact :
    (s : Selection) (registered marks : List Str) (n : Str)
    → (among n (unknown_marks s (some registered) marks)
        ≡ (s.strict_markers && (among n marks && is_unknown_mark s registered n)))
      × (unknown_marks s none marks ≡ [])
unfolding unknown_marks among
unknown_marks-exact s registered marks n = (
  elim (Bool-cases s.strict_markers) [
    | inl strict ↦ rw strict (
        ground (
          arith,
          among-keep (λ m. not (among m registered)) n (sorted (keep (undeclared s) marks)),
          among-sorted n (keep (undeclared s) marks),
          among-keep (undeclared s) n marks,
        ))
    | inr lax ↦ rw lax refl
  ],
  ground arith,
)
