-- ===== src/Protocol/Reading.antt =====
-- What `read_exactly` returns, however the bytes were cut up on their way.
use tiderace.Base.{
  Bool-cases, List, [], ap, append-nil, append_assoc, arith, false, inl, inr, length, length-append,
  ltb, ltb→ge, ltb→lt, refl, subst, suc, sym, true, ℕ, ◌++◌, ◌-◌, ◌<◌, ◌∙◌, ◌∷◌, ◌≡◌, ◌≤◌,
}
use tiderace.Protocol.{Bytes, Event, Read, chunk, drop, got, pause, read_exactly, take}

-- All bytes that will arrive.
unfoldable pub bytes_of : List Event → Bytes
bytes_of [] = []
bytes_of (pause ∷ es) = bytes_of es
bytes_of (chunk bs ∷ es) = bs ++ bytes_of es

-- No read returns nothing before the end.
abbrev pub AreFull : List Event → Type 0
AreFull [] = Unit
AreFull (pause ∷ es) = AreFull es
AreFull (chunk [] ∷ es) = ⊥
AreFull (chunk (b ∷ bs) ∷ es) = AreFull es

-- The reader has these bytes in its buffer, and those of `rest` are still to arrive.
abbrev pub Leaves : Bytes → Bytes → Read → Type 0
Leaves buf rest r = (es : List Event) × (r ≡ got buf es) × (bytes_of es ≡ rest) × AreFull es

-- A chunk that ends within what is wanted.
split_short :
    (bs es p q : Bytes)
    → bs ++ es ≡ p ++ q
    → length bs ≤ length p
    → (p' : Bytes) × (p ≡ bs ++ p') × (es ≡ p' ++ q)
split_short [] es p q e h = (p, refl, e)
split_short (b ∷ bs) es [] q e h = absurd (omega arith)
split_short (b ∷ bs) es (c ∷ p) q e h =
    let (p', e', e'') = split_short bs es p q (ground arith) (omega arith) in
    (p', ground arith, e'')

-- A chunk that goes on behind what is wanted.
split_long :
    (bs es p q : Bytes)
    → bs ++ es ≡ p ++ q
    → length p < length bs
    → (take (length p) bs ≡ p) × (drop (length p) bs ++ es ≡ q) × (0 < length (drop (length p) bs))
unfolding take drop
split_long bs es [] q e h = (refl, e, h)
split_long [] es (c ∷ p) q e h = absurd (omega arith)
split_long (b ∷ bs) es (c ∷ p) q e h =
    let (e', e'', h') = split_long bs es p q (ground arith) (omega arith) in (ground arith, e'', h')

AreFull-chunk :
    (bs : Bytes) (es : List Event) → 0 < length bs → AreFull es → AreFull (chunk bs ∷ es)
AreFull-chunk [] es h full = absurd (omega arith)
AreFull-chunk (b ∷ bs) es h full = full

read_exactly-long :
    (n : ℕ) (buf : Bytes) (b : ℕ) (bs : Bytes) (es : List Event)
    → ltb (suc n) (length (b ∷ bs)) ≡ true
    → read_exactly false (suc n) buf (chunk (b ∷ bs) ∷ es)
      ≡ got (buf ++ take (suc n) (b ∷ bs)) (chunk (drop (suc n) (b ∷ bs)) ∷ es)
unfolding read_exactly
read_exactly-long n buf b bs es long = rw (long, read_exactly) refl

read_exactly-short :
    (n : ℕ) (buf : Bytes) (b : ℕ) (bs : Bytes) (es : List Event)
    → ltb (suc n) (length (b ∷ bs)) ≡ false
    → read_exactly false (suc n) buf (chunk (b ∷ bs) ∷ es)
      ≡ read_exactly false (suc n - length (b ∷ bs)) (buf ++ b ∷ bs) es
unfolding read_exactly
read_exactly-short n buf b bs es short = rw (short, read_exactly) refl

read_exactly-none : (buf : Bytes) (es : List Event) → read_exactly false 0 buf es ≡ got buf es
unfolding read_exactly
read_exactly-none buf es = refl

read_exactly-pause :
    (n : ℕ) (buf : Bytes) (es : List Event)
    → read_exactly false (suc n) buf (pause ∷ es) ≡ read_exactly false (suc n) buf es
unfolding read_exactly
read_exactly-pause n buf es = refl

-- However the bytes were cut up and delayed, `read_exactly` returns the first ones, and what it
-- leaves is the rest.
pub read_exactly-Leaves :
    (p q buf : Bytes) (es : List Event)
    → bytes_of es ≡ p ++ q
    → AreFull es
    → Leaves (buf ++ p) q (read_exactly false (length p) buf es)
unfolding bytes_of
read_exactly-Leaves [] q buf es e full =
    (es, read_exactly-none buf es ∙ ap (λ l. got l es) (sym (append-nil buf)), e, full)
read_exactly-Leaves (c ∷ p) q buf [] e full = absurd (cc)
read_exactly-Leaves (c ∷ p) q buf (pause ∷ es) e full =
    subst (Leaves (buf ++ c ∷ p) q) (sym (read_exactly-pause (length p) buf es))
      (read_exactly-Leaves (c ∷ p) q buf es e full)
read_exactly-Leaves (c ∷ p) q buf (chunk [] ∷ es) e full = absurd full
read_exactly-Leaves (c ∷ p) q buf (chunk (b ∷ bs) ∷ es) e full =
    elim (Bool-cases (ltb (suc (length p)) (length (b ∷ bs)))) [
      | inl long ↦
          (let (first, rest, some_left) =
              split_long (b ∷ bs) (bytes_of es) (c ∷ p) q e (ltb→lt _ _ long) in
            (
              chunk (drop (suc (length p)) (b ∷ bs)) ∷ es,
              read_exactly-long (length p) buf b bs es long
                  ∙ ap (λ l. got (buf ++ l) (chunk (drop (suc (length p)) (b ∷ bs)) ∷ es)) first,
              rest,
              AreFull-chunk (drop (suc (length p)) (b ∷ bs)) es some_left full,
            ))
      | inr short ↦
          (let (p', ep, ees) = split_short (b ∷ bs) (bytes_of es) (c ∷ p) q e (ltb→ge _ _ short) in
            let (es', er, rest, full') = read_exactly-Leaves p' q (buf ++ b ∷ bs) es ees full in
            (
              es',
              read_exactly-short (length p) buf b bs es short
                  ∙ ap (λ n. read_exactly false n (buf ++ b ∷ bs) es)
                      (omega (arith, ap length ep, length-append (b ∷ bs) p'))
                  ∙ er
                  ∙ ap (λ l. got l es')
                      (append_assoc buf (b ∷ bs) p' ∙ ap (λ l. buf ++ l) (sym ep)),
              rest,
              full',
            ))
    ]
