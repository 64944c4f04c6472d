-- ===== src/Selection/Patches.antt =====
-- The daemon's patches of a selection: `Selection.override` of selection.py.
use tiderace.Base.{Bool, Option, Str, arith, false, none, some, ℕ, ◌||◌, ◌≡◌}
use tiderace.Selection.Choice.{Patch, Selection, override}

abbrev pub later : Option Str → Option Str → Option Str
later p none = p
later p (some e) = some e

-- Two patches as one: what the later one gives wins, and strictness is only ever turned on.
abbrev pub merged : Patch → Patch → Patch
merged p q = record {
  keyword = later p.keyword q.keyword;
  marker = later p.marker q.marker;
  strict = q.strict || p.strict;
}

-- Applying one patch and then another is applying the two as one; the declared marks are those of
-- the image; and a patch whose fields are all null changes nothing.
override-override :
    (is_word : ℕ → Bool) (s : Selection) (p q : Patch)
    → (override is_word (override is_word s p) q ≡ override is_word s (merged p q))
      × ((override is_word s p).declared_marks ≡ s.declared_marks)
      × (override is_word s (record { keyword = none; marker = none; strict = false }) ≡ s)
unfolding override
override-override is_word s p q = ground arith
