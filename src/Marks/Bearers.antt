-- ===== src/Marks/Bearers.antt =====
-- The order in which markers are read.
use mathlib.Core.List.{reverse-append}
use tiderace.Base.{
  List, Str, [], arith, false, if◌then◌else◌, is_some, keep, none, reverse, some, true, ◌++◌, ◌∷◌,
  ◌≡◌,
}
use tiderace.Marks.{Raw, add_marker, first, get_closest_marker, name_fits}

-- A marker that was added last is the closest one of its name, and hides no other name.
get_closest_marker-add_marker :
    (own : List Raw) (m : Raw) (name : Str)
    → get_closest_marker (add_marker own m true) name
      ≡ (if name_fits (some name) m then some m else get_closest_marker own name)
unfolding get_closest_marker add_marker
get_closest_marker-add_marker own m name = rw (reverse-append own (m ∷ [])) (ground arith)

get_first-append :
    (xs : List Raw) (m : Raw) (name : Str)
    → first (keep (name_fits (some name)) (xs ++ m ∷ [])) ≡ (
        if is_some (first (keep (name_fits (some name)) xs))
        then first (keep (name_fits (some name)) xs)
        else if name_fits (some name) m
        then some m
        else none)
unfolding first
get_first-append [] m name = ground arith
get_first-append (x ∷ xs) m name = ground (arith, get_first-append xs m name)

-- A marker put first, with `append=False`, is the closest of its name only where there is no other.
get_closest_marker-add_marker_first :
    (own : List Raw) (m : Raw) (name : Str)
    → get_closest_marker (add_marker own m false) name ≡ (
        if is_some (get_closest_marker own name)
        then get_closest_marker own name
        else if name_fits (some name) m
        then some m
        else none)
unfolding get_closest_marker add_marker
get_closest_marker-add_marker_first own m name =
    rw (reverse-append (m ∷ []) own) (get_first-append (reverse own) m name)
