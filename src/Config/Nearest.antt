-- ===== src/Config/Nearest.antt =====
-- The walk of `load_project_config` of config.py up the directories.
use tiderace.Base.{
  Bool, Bool-cases, List, Option-cases, Str, [], ap, append-nil, append_assoc, arith, dirname,
  drop_slashes, eqb, false, head_part, if◌then◌else◌, inl, inr, length, length-append, ltb, ltb→ge,
  ltb→lt, none, or_whole, refl, some, str_eq, str_eq_iff, str_eq_sound, subst, suc, sym, true, zero,
  ℕ, ◌++◌, ◌<◌, ◌∙◌, ◌∷◌, ◌≡◌, ◌≤◌, ◌⊎◌,
}
use tiderace.Config.Carriers.{IsFirst, NoneCarries, carrier-IsFirst, carrier-NoneCarries}
use tiderace.Config.{
  ConfigHost, ProjectConfig, Section, addopts_in, carrier, config_at, load_from,
  load_project_config,
}
use tiderace.Footprint.{climb}

-- `q` is the beginning of `p`.
abbrev Begins : Str → Str → Type 0
Begins q p = (r : Str) × (q ++ r ≡ p)

Begins-first :
    (c : ℕ) (p t bare : Str)
    → Begins bare (c ∷ p)
    → Begins t p
    → Begins (elim t as (λ x. Str) [ [] ↦ bare | d ∷ u ↦ c ∷ d ∷ u ]) (c ∷ p)
Begins-first c p [] bare hb ht = hb
Begins-first c p (d ∷ u) bare hb (r, e) = (r, ap (λ x. c ∷ x) e)

Begins-bare : (c : ℕ) (p : Str) (b : Bool) → Begins (if b then [] else c ∷ []) (c ∷ p)
Begins-bare c p true = (c ∷ p, refl)
Begins-bare c p false = (p, refl)

Begins-one : (c : ℕ) (p : Str) (b : Bool) → Begins (if b then c ∷ [] else []) (c ∷ p)
Begins-one c p true = (p, refl)
Begins-one c p false = (c ∷ p, refl)

drop_slashes-Begins : (p : Str) → Begins (drop_slashes p) p
unfolding drop_slashes
drop_slashes-Begins [] = ([], refl)
drop_slashes-Begins (c ∷ p) =
    Begins-first c p (drop_slashes p) _ (Begins-bare c p (eqb c 47)) (drop_slashes-Begins p)

head_part-Begins : (p : Str) → Begins (head_part p) p
unfolding head_part
head_part-Begins [] = ([], refl)
head_part-Begins (c ∷ p) =
    Begins-first c p (head_part p) _ (Begins-one c p (eqb c 47)) (head_part-Begins p)

or_whole-Begins : (q h p : Str) → Begins q h → Begins h p → Begins (or_whole q h) p
unfolding or_whole
or_whole-Begins [] h p hq hh = hh
or_whole-Begins (c ∷ q) h p (r, e) (t, d) =
    (r ++ t, sym (append_assoc (c ∷ q) r t) ∙ ap (λ x. x ++ t) e ∙ d)

dirname-Begins : (p : Str) → Begins (dirname p) p
unfolding dirname
dirname-Begins p =
    or_whole-Begins (drop_slashes (head_part p)) (head_part p) p (drop_slashes-Begins (head_part p))
      (head_part-Begins p)

Begins_lem : (q p : Str) → Begins q p → length p ≤ length q → q ≡ p
Begins_lem q p ([], e) h = sym (append-nil q) ∙ e
Begins_lem q p (c ∷ r, e) h =
    absurd (omega (arith, h, length-append q (c ∷ r), ap (λ x. length x) e))

-- A directory that is not its own parent is longer than its parent.
dirname_shorter : (p : Str) → str_eq (dirname p) p ≡ false → length (dirname p) < length p
dirname_shorter p h = elim (Bool-cases (ltb (length (dirname p)) (length p))) [
  | inl shorter ↦ ltb→lt _ _ shorter
  | inr long ↦ absurd (
      ground (
        arith,
        h,
        str_eq_iff (dirname p) p,
        Begins_lem (dirname p) p (dirname-Begins p) (ltb→ge _ _ long),
      ))
]

module _ (host : ConfigHost) where
  -- A directory of which no file carries a pytest section.
  abbrev Bare : Str → Type 0
  Bare directory = NoneCarries host directory host.file_names

  -- The configuration is that of the first directory upwards of which a file carries a pytest section.
  abbrev pub IsNearest : Str → Str → ProjectConfig → Type 0
  IsNearest start from project =
      (k : ℕ) × (path : Str) × (sections : List Section) × IsFirst host (climb k from)
        host.file_names path sections
      × (project ≡ config_at host (climb k from) (some path) (addopts_in 2 sections))
      × ((j : ℕ) → j < k → Bare (climb j from))

  -- No directory upwards has one.
  abbrev pub IsDefault : Str → Str → ProjectConfig → Type 0
  IsDefault start from project =
      ((j : ℕ) → Bare (climb j from)) × (project ≡ config_at host (host.abspath start) none [])

  climb_fixed : (j : ℕ) (d : Str) → dirname d ≡ d → climb j d ≡ d
  unfolding climb
  climb_fixed zero d e = refl
  climb_fixed (suc j) d e = ap (climb j) e ∙ climb_fixed j d e

  Bare-climb :
      (d : Str) → Bare d → ((j : ℕ) → Bare (climb j (dirname d))) → (j : ℕ) → Bare (climb j d)
  unfolding climb
  Bare-climb d here above zero = here
  Bare-climb d here above (suc j) = above j

  Bare-climb_under :
      (k : ℕ) (d : Str)
      → Bare d
      → ((j : ℕ) → j < k → Bare (climb j (dirname d)))
      → (j : ℕ) → j < suc k
      → Bare (climb j d)
  unfolding climb
  Bare-climb_under k d here above zero h = here
  Bare-climb_under k d here above (suc j) h = above j (omega (arith, h))

  load_from-above :
      (start from : Str) (project : ProjectConfig)
      → Bare from
      → IsNearest start (dirname from) project ⊎ IsDefault start (dirname from) project
      → IsNearest start from project ⊎ IsDefault start from project
  unfolding climb
  load_from-above start from project here (inl (k, path, sections, carried, same, below)) =
      inl (suc k, path, sections, carried, same, Bare-climb_under k from here below)
  load_from-above start from project here (inr (above, same)) =
      inr (Bare-climb from here above, same)

  climb-Bare : (j : ℕ) (d : Str) → Bare d → dirname d ≡ d → Bare (climb j d)
  climb-Bare j d bare top = subst Bare (sym (climb_fixed j d top)) bare

  load_from-IsNearest :
      (fuel : ℕ) (start from : Str)
      → length from < fuel
      → (project : ProjectConfig) × (load_from host fuel start from ≡ some project)
        × (IsNearest start from project ⊎ IsDefault start from project)
  unfolding load_from climb
  load_from-IsNearest zero start from h = absurd (omega (arith, h))
  load_from-IsNearest (suc fuel) start from h =
      elim (Option-cases (carrier host from host.file_names)) [
        | inr ((path, sections), carried) ↦ (
          config_at host from (some path) (addopts_in 2 sections),
          rw (carried, load_from) refl,
          inl (
            0,
            path,
            sections,
            carrier-IsFirst host from host.file_names path sections carried,
            refl,
            λ j below. absurd (omega (arith, below)),
          ),
        )
        | inl bare ↦ elim (Bool-cases (str_eq (dirname from) from)) [
          | inl top ↦ (
            config_at host (host.abspath start) none [],
            rw (bare, top, load_from) refl,
            inr (
              (λ j.
                  climb-Bare j from (carrier-NoneCarries host from host.file_names bare)
                    (str_eq_sound _ _ top)),
              refl,
            ),
          )
          | inr inner ↦
              (let (project, e, near) =
                  load_from-IsNearest fuel start (dirname from)
                    (omega (arith, h, dirname_shorter from inner)) in
                (
                  project,
                  rw (bare, inner, load_from) e,
                  load_from-above start from project
                      (carrier-NoneCarries host from host.file_names bare) near,
                ))
        ]
      ]

  -- The walk ends, and what it loads is the configuration of the nearest directory at or above `start`
  -- of which a file carries a pytest section, or that of `start` itself where there is none.
  pub load_project_config-IsNearest :
      (start : Str)
      → (project : ProjectConfig) × (load_project_config host start ≡ some project)
        × (IsNearest start (host.abspath start) project
            ⊎ IsDefault start (host.abspath start) project)
  unfolding load_project_config
  load_project_config-IsNearest start =
      load_from-IsNearest (suc (length (host.abspath start))) start (host.abspath start)
        (omega arith)
