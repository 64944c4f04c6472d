-- ===== src/Base/Text.antt =====
-- Text as the list of its code points, with the string operations of Python that the shim uses.
use Prim.Native.Nat.{ℕ, zero, suc}
use Prim.Native.Char.{code}
use Prim.Native.String.{String}
use mathlib.Core.Path.{◌≡◌, refl}
use mathlib.Core.Logic.{◌↔◌}
use mathlib.Core.Bool.{Bool, true, false, ◌&&◌, ◌||◌}
use mathlib.Core.Option.{Option, none, some}
use mathlib.Core.List.{List, [], ◌∷◌, ◌++◌}
use native.Mathlib.Omega.{arith}
use tiderace.Base.Tests.{eqb, if◌then◌else◌, leb, ltb}
use tiderace.Base.Lists.{Elem}

abbrev pub Str : Type 0
Str = List ℕ

-- A literal of the source.
abbrev pub codes : String → Str
codes String.[] = []
codes (String.◌∷◌ c s) = code c ∷ codes s

-- `s == t`
unfoldable pub str_eq : Str → Str → Bool
str_eq [] [] = true
str_eq [] (d ∷ t) = false
str_eq (c ∷ s) [] = false
str_eq (c ∷ s) (d ∷ t) = eqb c d && str_eq s t

pub str_eq_refl : (s : Str) → str_eq s s ≡ true
unfolding str_eq
str_eq_refl [] = refl
str_eq_refl (c ∷ s) = ground (arith, str_eq_refl s)

pub str_eq_sound : (s t : Str) → str_eq s t ≡ true → s ≡ t
unfolding str_eq
str_eq_sound [] [] h = refl
str_eq_sound [] (d ∷ t) h = cc
str_eq_sound (c ∷ s) [] h = cc
str_eq_sound (c ∷ s) (d ∷ t) h = ground (arith, str_eq_sound s t)

pub str_eq_iff : (s t : Str) → (str_eq s t ≡ true) ↔ (s ≡ t)
str_eq_iff s t = (str_eq_sound s t, λ e. rw e (str_eq_refl t))

-- `s.startswith(p)`
unfoldable pub starts_with : Str → Str → Bool
starts_with s [] = true
starts_with [] (d ∷ p) = false
starts_with (c ∷ s) (d ∷ p) = eqb c d && starts_with s p

-- `s.endswith(p)`
unfoldable pub ends_with : Str → Str → Bool
unfolding str_eq
ends_with [] p = str_eq [] p
ends_with (c ∷ s) p = str_eq (c ∷ s) p || ends_with s p

-- `n in s`, for a needle `n`
unfoldable pub contains_str : Str → Str → Bool
unfolding starts_with
contains_str n [] = starts_with [] n
contains_str n (c ∷ s) = starts_with (c ∷ s) n || contains_str n s

pub starts_with-append : (p s : Str) → starts_with (p ++ s) p ≡ true
unfolding starts_with
starts_with-append [] s = refl
starts_with-append (c ∷ p) s = ground (arith, starts_with-append p s)

pub starts_with_self : (p : Str) → starts_with p p ≡ true
unfolding starts_with
starts_with_self [] = refl
starts_with_self (c ∷ p) = ground (arith, starts_with_self p)

contains_str_self : (p : Str) → contains_str p p ≡ true
unfolding contains_str starts_with
contains_str_self [] = refl
contains_str_self (c ∷ p) = rw (starts_with_self (c ∷ p))

-- What is appended to a text is contained in it.
pub contains_str-append : (p s : Str) → contains_str p (s ++ p) ≡ true
unfolding contains_str
contains_str-append p [] = contains_str_self p
contains_str-append p (c ∷ s) = ground (arith, contains_str-append p s)

-- `c.isspace()`
unfoldable pub is_space : ℕ → Bool
is_space c =
    (leb 9 c && leb c 13)
    || (leb 28 c && leb c 32)
    || eqb c 0x85
    || eqb c 0xa0
    || eqb c 0x1680
    || (leb 0x2000 c && leb c 0x200a)
    || eqb c 0x2028
    || eqb c 0x2029
    || eqb c 0x202f
    || eqb c 0x205f
    || eqb c 0x3000

unfoldable pub lstrip : Str → Str
unfolding is_space
lstrip [] = []
lstrip (c ∷ s) = let rest = lstrip s in if is_space c then rest else c ∷ s

unfoldable pub rstrip : Str → Str
unfolding is_space
rstrip [] = []
rstrip (c ∷ s) = elim (rstrip s) [ [] ↦ if is_space c then [] else c ∷ [] | d ∷ t ↦ c ∷ d ∷ t ]

-- `s.strip()`
unfoldable pub strip : Str → Str
unfolding lstrip rstrip
strip s = lstrip (rstrip s)

abbrev chars : Str → ℕ
chars [] = 0
chars (c ∷ s) = suc (chars s)

-- `s.split(c)` for a separator of one character.
unfoldable pub split : ℕ → Str → List Str
split sep [] = [] ∷ []
split sep (c ∷ s) =
    let rest = split sep s in
    if eqb c sep then [] ∷ rest else elim rest [ [] ↦ (c ∷ []) ∷ [] | w ∷ ws ↦ (c ∷ w) ∷ ws ]

-- `s[n:]`
unfoldable pub drop_chars : ℕ → Str → Str
drop_chars zero s = s
drop_chars (suc n) [] = []
drop_chars (suc n) (c ∷ s) = drop_chars n s

cons_first : ℕ → Option (Str × Str) → Option (Str × Str)
cons_first c none = none
cons_first c (some (a, b)) = some (c ∷ a, b)

-- `s.partition(sep)`: what stands before and behind the first separator, `none` where there is none.
unfoldable pub partition : Str → Str → Option (Str × Str)
unfolding cons_first starts_with drop_chars
partition sep [] = none
partition sep (c ∷ s) =
    let rest = partition sep s in
    if starts_with (c ∷ s) sep then some ([], drop_chars (chars sep) (c ∷ s)) else cons_first c rest

-- `posixpath.dirname(p)`: up to the last slash, less the slashes at its end unless it is all slashes.
unfoldable pub drop_slashes : Str → Str
drop_slashes [] = []
drop_slashes (c ∷ s) = elim (drop_slashes s) [
  | [] ↦ if eqb c 47 then [] else c ∷ []
  | d ∷ t ↦ c ∷ d ∷ t
]

-- `p[:p.rfind("/") + 1]`
unfoldable pub head_part : Str → Str
head_part [] = []
head_part (c ∷ s) = elim (head_part s) [ [] ↦ if eqb c 47 then c ∷ [] else [] | d ∷ t ↦ c ∷ d ∷ t ]

unfoldable pub or_whole : Str → Str → Str
or_whole [] whole = whole
or_whole (c ∷ s) whole = c ∷ s

unfoldable pub dirname : Str → Str
unfolding drop_slashes head_part or_whole
dirname p = or_whole (drop_slashes (head_part p)) (head_part p)

-- `s <= t`, by code points
unfoldable pub str_leb : Str → Str → Bool
str_leb [] t = true
str_leb (c ∷ s) [] = false
str_leb (c ∷ s) (d ∷ t) = if eqb c d then str_leb s t else ltb c d

unfoldable pub insert_name : Str → List Str → List Str
unfolding str_leb
insert_name n [] = n ∷ []
insert_name n (m ∷ ms) = let rest = insert_name n ms in if str_leb n m then n ∷ m ∷ ms else m ∷ rest

-- `sorted(names)`
unfoldable pub sorted_names : List Str → List Str
unfolding insert_name
sorted_names [] = []
sorted_names (n ∷ ns) = insert_name n (sorted_names ns)

-- `n in names`
unfoldable pub has_name : Str → List Str → Bool
has_name n [] = false
has_name n (m ∷ ms) = str_eq m n || has_name n ms

pub has_name-Elem : (n : Str) (ns : List Str) → (has_name n ns ≡ true) ↔ Elem n ns
unfolding has_name
has_name-Elem n [] = ground arith
has_name-Elem n (m ∷ ms) = ground (arith, str_eq_iff m n, has_name-Elem n ms)

-- `not s`
abbrev pub is_nil : Str → Bool
is_nil [] = true
is_nil (_ ∷ _) = false

-- `sep.join(texts)`
unfoldable pub joined : Str → List Str → Str
joined sep [] = []
joined sep (s ∷ []) = s
joined sep (s ∷ t ∷ ts) = s ++ sep ++ joined sep (t ∷ ts)
