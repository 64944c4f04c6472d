-- ===== src/Config/Carriers.antt =====
-- Which file of a directory `load_project_config` of config.py takes.
use tiderace.Base.{
  All, Bool-cases, List, Option-cases, Str, [], ap, arith, false, inl, inr, none, of_some, refl,
  some, subst, sym, true, ◌++◌, ◌∙◌, ◌∷◌, ◌≡◌, ◌⊎◌,
}
use tiderace.Footprint.{join}
use tiderace.Config.{ConfigHost, Section, carrier}

module _ (host : ConfigHost) (directory : Str) where
  -- The file of this name exists, can be read and carries a pytest section.
  abbrev pub Carries : Str → List Section → Type 0
  Carries name sections =
      (host.exists (join directory name) ≡ true)
      × (host.read (join directory name) name ≡ some (true, sections))

  abbrev pub NoneCarries : List Str → Type 0
  NoneCarries = All (λ name. (sections : List Section) → ¬ Carries name sections)

  -- The first file, in the order of the names, that carries one.
  abbrev pub IsFirst : List Str → Str → List Section → Type 0
  IsFirst names path sections =
      (before : List Str) × (name : Str) × (after : List Str) × (names ≡ before ++ name ∷ after)
      × NoneCarries before
      × (path ≡ join directory name)
      × Carries name sections

  IsFirst-cons :
      (name : Str) (names : List Str) (path : Str) (sections : List Section)
      → ((other : List Section) → ¬ Carries name other)
      → IsFirst names path sections
      → IsFirst (name ∷ names) path sections
  IsFirst-cons name names path sections not_here
        (before, first, after, split_names, none_before, here, carries) =
      (
        name ∷ before,
        first,
        after,
        ap (λ ns. name ∷ ns) split_names,
        (not_here, none_before),
        here,
        carries,
      )

  -- Either the first name carries a section, or the search goes on behind it.
  pub carrier-cons :
      (name : Str) (names : List Str)
      → ((sections : List Section) × Carries name sections
          × (carrier host directory (name ∷ names) ≡ some (join directory name, sections)))
        ⊎ (((sections : List Section) → ¬ Carries name sections)
            × (carrier host directory (name ∷ names) ≡ carrier host directory names))
  unfolding carrier
  carrier-cons name names = elim (Bool-cases (host.exists (join directory name))) [
    | inr missing ↦
        inr ((λ sections c. absurd (ground (arith, missing, c.0))), rw (missing, carrier) refl)
    | inl there ↦ elim (Option-cases (host.read (join directory name) name)) [
      | inl unreadable ↦ inr (
        (λ sections c. absurd (ground (arith, unreadable, c.1))),
        rw (there, unreadable, carrier) refl,
      )
      | inr ((true, sections), carried) ↦
          inl (sections, (there, carried), rw (there, carried, carrier) refl)
      | inr ((false, sections), bare) ↦
          inr ((λ other c. absurd (ground (arith, bare, c.1))), rw (there, bare, carrier) refl)
    ]
  ]

  pub carrier-IsFirst :
      (names : List Str) (path : Str) (sections : List Section)
      → carrier host directory names ≡ some (path, sections)
      → IsFirst names path sections
  unfolding carrier
  carrier-IsFirst [] path sections h = absurd (ground arith)
  carrier-IsFirst (name ∷ names) path sections h = elim (carrier-cons name names) [
    | inl (found, carries, e) ↦
        (let same = of_some (sym e ∙ h) in
          (
            [],
            name,
            names,
            refl,
            tt,
            ap (λ q. q.0) (sym same),
            subst (Carries name) (ap (λ q. q.1) same) carries,
          ))
    | inr (not_here, e) ↦
        IsFirst-cons name names path sections not_here
          (carrier-IsFirst names path sections (sym e ∙ h))
  ]

  pub carrier-NoneCarries :
      (names : List Str) → carrier host directory names ≡ none → NoneCarries names
  unfolding carrier
  carrier-NoneCarries [] h = tt
  carrier-NoneCarries (name ∷ names) h = elim (carrier-cons name names) [
    | inl (found, carries, e) ↦ absurd (ground (arith, e, h))
    | inr (not_here, e) ↦ (not_here, carrier-NoneCarries names (sym e ∙ h))
  ]
