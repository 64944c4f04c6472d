-- ===== src/Config/Find.antt =====
-- config.py: the files of a directory, and the nearest that carries a pytest section.
use tiderace.Base.{
  Bool, List, Option, Str, [], codes, dirname, false, if◌then◌else◌, length, lookup, none, some,
  str_eq, suc, true, zero, ℕ, ◌++◌, ◌∷◌,
}
use tiderace.Footprint.{join}
use tiderace.Config.Project.{ProjectConfig, Section, Value, argv_of, items, scalar, text}

-- The files under a configuration: whether a path exists, and `_read`, which answers whether the file
-- carries a pytest section and with its sections, or `none` where it cannot be read.
pub record ConfigHost : Type 0 where
  pub exists : Str → Bool
  pub read : Str → Str → Option (Bool × List Section)
  pub abspath : Str → Str
  pub split_words : Str → Option (List Str)
  -- `CONFIG_FILES`
  pub file_names : List Str

-- `" ".join(words)`
abbrev space_joined : List Str → Str
space_joined [] = []
space_joined (w ∷ []) = w
space_joined (w ∷ v ∷ ws) = w ++ 32 ∷ space_joined (v ∷ ws)

-- `str(addopts)` of a section's `addopts`, a list joined by spaces.
unfoldable pub addopts_text : Option Value → Str
addopts_text none = []
addopts_text (some (text s)) = s
addopts_text (some (items vs)) = space_joined vs
addopts_text (some (scalar s)) = s

-- `_addopts_in`, over `sections[:2]`: the first of them that is not empty answers.
unfoldable pub addopts_in : ℕ → List Section → Str
unfolding addopts_text lookup
addopts_in zero sections = []
addopts_in (suc n) [] = []
addopts_in (suc n) ([] ∷ sections) = addopts_in n sections
addopts_in (suc n) ((entry ∷ section) ∷ sections) =
    addopts_text (lookup (codes "addopts") (entry ∷ section))

module _ (host : ConfigHost) where
  -- The body of the loop of `_sections_in`.
  unfoldable pub sections_of : Str → Str → List Section
  unfolding join
  sections_of directory name =
      if host.exists (join directory name)
      then (elim (host.read (join directory name) name) [
        | none ↦ []
        | some (carried, sections) ↦ sections
      ])
      else []

  -- `_sections_in`, over the names of the files
  unfoldable pub sections_in : Str → List Str → List Section
  unfolding sections_of
  sections_in directory [] = []
  sections_in directory (name ∷ names) = sections_of directory name ++ sections_in directory names

  -- The first file of the directory that carries a pytest section, with the file's sections.
  unfoldable pub carrier : Str → List Str → Option (Str × List Section)
  unfolding join
  carrier directory [] = none
  carrier directory (name ∷ names) =
      let later = carrier directory names in
      if host.exists (join directory name)
      then (elim (host.read (join directory name) name) [
        | none ↦ later
        | some (carried, sections) ↦ if carried then some (join directory name, sections) else later
      ])
      else later

  unfoldable pub config_at : Str → Option Str → Str → ProjectConfig
  unfolding sections_in argv_of
  config_at directory source addopts = record {
    dir = directory;
    source = source;
    sections = sections_in directory host.file_names;
    argv = argv_of host.split_words addopts;
  }

  -- The loop of `load_project_config`, with a fuel of one unit for each directory; `none` is a walk
  -- that is out of fuel.
  unfoldable pub load_from : ℕ → Str → Str → Option ProjectConfig
  unfolding carrier config_at addopts_in dirname str_eq
  load_from zero start directory = none
  load_from (suc fuel) start directory = elim (carrier directory host.file_names) [
    | some (path, sections) ↦ some (config_at directory (some path) (addopts_in 2 sections))
    | none ↦ elim (str_eq (dirname directory) directory) [
      | true ↦ some (config_at (host.abspath start) none [])
      | false ↦ load_from fuel start (dirname directory)
    ]
  ]

  -- `load_project_config`
  unfoldable pub load_project_config : Str → Option ProjectConfig
  unfolding load_from
  load_project_config start =
      load_from (suc (length (host.abspath start))) start (host.abspath start)
