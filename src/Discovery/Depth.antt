-- ===== src/Discovery/Depth.antt =====
-- The depth of a conftest to a module, against where its directory lies: discovery.py.

use mathlib.Core.Path.{ap₂}
use tiderace.Base.{
  Bool, Bool-cases, Str, [], ap, arith, codes, false, inl, inr, none, of_some, refl, some,
  starts_with, starts_with-append, str_eq, str_eq_refl, str_eq_sound, sym, true, ℕ, ◌++◌, ◌+◌, ◌||◌,
  ◌∙◌, ◌∷◌, ◌≡◌, ◌⊎◌,
}
use tiderace.Discovery.{count_slashes, governing_depth}

-- The location starts with two dots, as that of a directory above the run root does.
abbrev pub IsAbove : Str → Type 0
IsAbove location = (rest : Str) × (location ≡ codes ".." ++ rest)

-- The directory is the module's or one of those above that.
abbrev pub Holds : Str → Str → Type 0
Holds dir module_dir =
    (module_dir ≡ dir) ⊎ ((rest : Str) × (module_dir ≡ (dir ++ codes "/") ++ rest))

-- At depth 0 what lies above the run root, at depth 1 the run root, and any other directory that holds
-- the module one deeper for each of its parts.
abbrev pub Lies : Str → Str → ℕ → Type 0
Lies module_dir dir d =
    (IsAbove dir × (d ≡ 0))
    ⊎ (((¬ IsAbove dir) × (dir ≡ []) × (d ≡ 1))
        ⊎ ((¬ IsAbove dir) × (¬ (dir ≡ [])) × Holds dir module_dir × (d ≡ count_slashes dir + 2)))

starts_with-split : (s p : Str) → starts_with s p ≡ true → (rest : Str) × (s ≡ p ++ rest)
unfolding starts_with
starts_with-split s [] h = (s, refl)
starts_with-split [] (d ∷ p) h = absurd (cc)
starts_with-split (c ∷ s) (d ∷ p) h =
    let (rest, e) = starts_with-split s p (ground (arith, h)) in
    let same : c ≡ d = ground (arith, h) in (rest, ap₂ (λ (a : ℕ) (l : Str). a ∷ l) same e)

not-IsAbove : (dir : Str) → starts_with dir (codes "..") ≡ false → ¬ IsAbove dir
not-IsAbove dir h (rest, e) = absurd (
    ground
      (arith, h, ap (λ l. starts_with l (codes "..")) e ∙ starts_with-append (codes "..") rest))

IsAbove-starts_with : (dir : Str) → IsAbove dir → starts_with dir (codes "..") ≡ true
IsAbove-starts_with dir (rest, e) =
    ap (λ l. starts_with l (codes "..")) e ∙ starts_with-append (codes "..") rest

holds : Str → Str → Bool
holds dir module_dir = str_eq module_dir dir || starts_with module_dir (dir ++ codes "/")

holds-Holds : (dir module_dir : Str) → holds dir module_dir ≡ true → Holds dir module_dir
unfolding holds
holds-Holds dir module_dir h = elim (Bool-cases (str_eq module_dir dir)) [
  | inl same ↦ inl (str_eq_sound module_dir dir same)
  | inr other ↦ inr (starts_with-split module_dir (dir ++ codes "/") (ground (arith, h, other)))
]

Holds-holds : (dir module_dir : Str) → Holds dir module_dir → holds dir module_dir ≡ true
unfolding holds
Holds-holds dir module_dir (inl same) = rw (same, str_eq_refl dir) refl
Holds-holds dir module_dir (inr (rest, e)) =
    let under : starts_with module_dir (dir ++ codes "/") ≡ true =
      ap (λ l. starts_with l (dir ++ codes "/")) e ∙ starts_with-append (dir ++ codes "/") rest in
    ground (arith, under)

not_nil : (c : ℕ) (dir : Str) → ¬ ((c ∷ dir) ≡ [])
not_nil c dir e = cc

governing_depth-above :
    (module_dir dir : Str)
    → starts_with dir (codes "..") ≡ true
    → governing_depth module_dir dir ≡ some 0
unfolding governing_depth
governing_depth-above module_dir dir h = rw h refl

governing_depth-root : (module_dir : Str) → governing_depth module_dir [] ≡ some 1
unfolding governing_depth starts_with
governing_depth-root module_dir = refl

governing_depth-under :
    (module_dir : Str) (c : ℕ) (dir : Str)
    → starts_with (c ∷ dir) (codes "..") ≡ false
    → holds (c ∷ dir) module_dir ≡ true
    → governing_depth module_dir (c ∷ dir) ≡ some (count_slashes (c ∷ dir) + 2)
unfolding governing_depth holds
governing_depth-under module_dir c dir h k = rw h (rw k refl)

governing_depth-aside :
    (module_dir : Str) (c : ℕ) (dir : Str)
    → starts_with (c ∷ dir) (codes "..") ≡ false
    → holds (c ∷ dir) module_dir ≡ false
    → governing_depth module_dir (c ∷ dir) ≡ none
unfolding governing_depth holds
governing_depth-aside module_dir c dir h k = rw h (rw k refl)

pub governing_depth-Lies :
    (module_dir dir : Str) (d : ℕ) → governing_depth module_dir dir ≡ some d → Lies module_dir dir d
governing_depth-Lies module_dir dir d h = elim (Bool-cases (starts_with dir (codes ".."))) [
  | inl up ↦ inl (
    starts_with-split dir (codes "..") up,
    of_some (sym h ∙ governing_depth-above module_dir dir up),
  )
  | inr down ↦ inr (below dir h down)
]
  where
    below :
        (dir : Str)
        → governing_depth module_dir dir ≡ some d
        → starts_with dir (codes "..") ≡ false
        → ((¬ IsAbove dir) × (dir ≡ []) × (d ≡ 1))
          ⊎ ((¬ IsAbove dir) × (¬ (dir ≡ [])) × Holds dir module_dir × (d ≡ count_slashes dir + 2))
    below [] h down =
        inl (not-IsAbove [] down, refl, of_some (sym h ∙ governing_depth-root module_dir))
    below (c ∷ dir) h down = elim (Bool-cases (holds (c ∷ dir) module_dir)) [
      | inl under ↦ inr (
        not-IsAbove (c ∷ dir) down,
        not_nil c dir,
        holds-Holds (c ∷ dir) module_dir under,
        of_some (sym h ∙ governing_depth-under module_dir c dir down under),
      )
      | inr aside ↦ absurd (ground (arith, h, governing_depth-aside module_dir c dir down aside))
    ]

pub Lies-governing_depth :
    (module_dir dir : Str) (d : ℕ) → Lies module_dir dir d → governing_depth module_dir dir ≡ some d
Lies-governing_depth module_dir dir d (inl (up, e)) =
    governing_depth-above module_dir dir (IsAbove-starts_with dir up) ∙ ap some (sym e)
Lies-governing_depth module_dir dir d (inr (inl (down, root, e))) =
    ap (governing_depth module_dir) root ∙ governing_depth-root module_dir ∙ ap some (sym e)
Lies-governing_depth module_dir [] d (inr (inr (down, other, held, e))) = absurd (other refl)
Lies-governing_depth module_dir (c ∷ dir) d (inr (inr (down, other, held, e))) =
    elim (Bool-cases (starts_with (c ∷ dir) (codes ".."))) [
      | inl up ↦ absurd (down (starts_with-split (c ∷ dir) (codes "..") up))
      | inr below ↦
          governing_depth-under module_dir c dir below (Holds-holds (c ∷ dir) module_dir held)
          ∙ ap some (sym e)
    ]
