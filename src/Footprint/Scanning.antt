-- ===== src/Footprint/Scanning.antt =====
-- The loops of `_scan_import_statements`: the fuel, and what the scan takes.
use tiderace.Base.{
  Bool-cases, List, Option-cases, Str, [], ap, arith, inl, inr, length, refl, rstrip, suc, zero, ℕ,
  ◌++◌, ◌+◌, ◌∷◌, ◌≡◌, ◌≤◌,
}
use tiderace.Footprint.{
  Inside, candidate, count_char, drop_slash_marks, is_code, push_stmt, scan_lines, whole_stmt,
}

length-whole_stmt :
    (stmt : Str) (opened shut : ℕ) (lines : List Str)
    → length (whole_stmt stmt opened shut lines).1 ≤ length lines
unfolding whole_stmt
length-whole_stmt stmt opened shut [] = omega arith
length-whole_stmt stmt opened shut (nxt ∷ lines) = ground (
  arith,
  length-whole_stmt (drop_slash_marks (rstrip stmt) ++ 10 ∷ nxt) (opened + count_char 40 nxt)
      (shut + count_char 41 nxt) lines,
)

scan_lines_step :
    (n m : ℕ) (line : Str) (lines : List Str) (inside : Inside)
    → ((behind : List Str) (here : Inside)
        → length behind ≤ length lines
        → scan_lines n behind here ≡ scan_lines m behind here)
    → scan_lines (suc n) (line ∷ lines) inside ≡ scan_lines (suc m) (line ∷ lines) inside
unfolding scan_lines
scan_lines_step n m line lines inside same = elim (Option-cases (candidate line)) [
  | inl plain_line ↦ rw (plain_line, scan_lines) (same lines _ (omega arith))
  | inr (stmt, there) ↦ elim (Bool-cases (is_code inside)) [
    | inr quoted ↦ rw (there, quoted, scan_lines) refl
    | inl code ↦
        rw (there, code, scan_lines)
          (ap (push_stmt _)
            (same _ _ (length-whole_stmt stmt (count_char 40 stmt) (count_char 41 stmt) lines)))
  ]
]

-- A fuel of a line each is enough: more of it changes nothing.
pub scan_lines_enough :
    (n m : ℕ) (lines : List Str) (inside : Inside)
    → length lines ≤ n
    → length lines ≤ m
    → scan_lines n lines inside ≡ scan_lines m lines inside
unfolding scan_lines
scan_lines_enough zero zero lines inside hn hm = refl
scan_lines_enough zero (suc m) [] inside hn hm = refl
scan_lines_enough (suc n) zero [] inside hn hm = refl
scan_lines_enough (suc n) (suc m) [] inside hn hm = refl
scan_lines_enough zero (suc m) (line ∷ lines) inside hn hm = absurd (omega (arith, hn))
scan_lines_enough (suc n) zero (line ∷ lines) inside hn hm = absurd (omega (arith, hm))
scan_lines_enough (suc n) (suc m) (line ∷ lines) inside hn hm =
    scan_lines_step n m line lines inside (λ behind here short.
      scan_lines_enough n m behind here (omega (arith, hn, short)) (omega (arith, hm, short)))
