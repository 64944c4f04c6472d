-- ===== src/Fixtures/Depth.antt =====
-- How specific a conftest directory is: `_location_depth` of fixtures.py.
use tiderace.Base.{
  Str, [], arith, false, length, refl, split, starts_with, true, ℕ, ◌++◌, ◌+◌, ◌<ℤ◌, ◌<◌, ◌∷◌, ◌≡◌,
  ◌≢◌,
}
use tiderace.Fixtures.Defs.{location_depth, up_dir}

split-nonempty : (sep : ℕ) (s : Str) → 0 < length (split sep s)
unfolding split
split-nonempty sep [] = omega arith
split-nonempty sep (c ∷ s) = ground (arith, split-nonempty sep s)

length-split :
    (sep : ℕ) (a b : Str)
    → length (split sep (a ++ sep ∷ b)) ≡ length (split sep a) + length (split sep b)
unfolding split
length-split sep [] b = ground arith
length-split sep (c ∷ a) b =
    ground (arith, length-split sep a b, split-nonempty sep a, split-nonempty sep (a ++ sep ∷ b))

starts_with_up :
    (c : ℕ) (a b : Str) → starts_with ((c ∷ a) ++ 47 ∷ b) up_dir ≡ starts_with (c ∷ a) up_dir
unfolding starts_with
starts_with_up c [] b = ground arith
starts_with_up c (d ∷ a) b = refl

depth-nested :
    (a b : Str)
    → a ≢ []
    → (starts_with a up_dir ≡ false
        → (location_depth [] <ℤ location_depth a)
          × (location_depth a <ℤ location_depth (a ++ 47 ∷ b)))
      × (starts_with a up_dir ≡ true
          → (location_depth a <ℤ location_depth [])
            × (location_depth (a ++ 47 ∷ b) <ℤ location_depth a))
unfolding location_depth
depth-nested [] b h = absurd (h refl)
depth-nested (c ∷ a) b h = ground (
  arith,
  starts_with_up c a b,
  length-split 47 (c ∷ a) b,
  split-nonempty 47 (c ∷ a),
  split-nonempty 47 b,
)

-- A directory that does not lie above the run root is more specific than the run root, and whatever
-- lies under it is more specific than it.
location_depth-under :
    (a b : Str)
    → a ≢ []
    → starts_with a up_dir ≡ false
    → (location_depth [] <ℤ location_depth a) × (location_depth a <ℤ location_depth (a ++ 47 ∷ b))
location_depth-under a b h = (depth-nested a b h).0

-- Above the run root (a relative path that starts with `..`), a directory is less specific than the
-- run root, and a longer such path is less specific still.
location_depth-above :
    (a b : Str)
    → a ≢ []
    → starts_with a up_dir ≡ true
    → (location_depth a <ℤ location_depth []) × (location_depth (a ++ 47 ∷ b) <ℤ location_depth a)
location_depth-above a b h = (depth-nested a b h).1
