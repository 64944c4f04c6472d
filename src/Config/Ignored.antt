-- ===== src/Config/Ignored.antt =====
-- config.py: what a run ignores and selects, of `RunConfig`.
use tiderace.Base.{
  Bool, List, Option, Str, [], any, codes, false, has_name, if◌then◌else◌, is_nil, none, some,
  starts_with, str_eq, true, ◌++◌, ◌||◌, ◌∷◌,
}
use tiderace.Footprint.{join}
use tiderace.Config.Project.{ProjectConfig, option_values}

module _ (abspath : Str → Str) (fnmatch : Str → Str → Bool) where
  unfoldable pub ignore_paths : Str → Bool → List Str → List (Str × Bool)
  unfolding join
  ignore_paths dir glob [] = []
  ignore_paths dir glob (value ∷ paths) =
      let rest = ignore_paths dir glob paths in
      if is_nil value then rest else (abspath (join dir value), glob) ∷ rest

  -- `ignores`
  unfoldable pub ignores : ProjectConfig → List (Str × Bool)
  unfolding ignore_paths option_values
  ignores project =
      ignore_paths project.dir false (option_values project.argv (codes "--ignore"))
      ++ ignore_paths project.dir true (option_values project.argv (codes "--ignore-glob"))

  unfoldable pub covers : Str → Str × Bool → Bool
  unfolding str_eq starts_with
  covers path (target, true) = fnmatch path target
  covers path (target, false) = str_eq path target || starts_with path (target ++ codes "/")

  -- `is_ignored`, over the ignored targets of the run
  unfoldable pub is_ignored : List (Str × Bool) → Str → Bool
  unfolding covers
  is_ignored ignored path = any (covers (abspath path)) ignored

  -- `module_ignored`
  unfoldable pub module_ignored : List (Str × Bool) → Str → Str → Bool
  unfolding is_ignored join
  module_ignored ignored root module_key =
      is_ignored ignored (join (if is_nil root then codes "." else root) module_key)

-- `module_selected`, over the modules of the run, `none` for all of them
unfoldable pub module_selected : Option (List Str) → Str → Bool
unfolding has_name
module_selected none rel = true
module_selected (some modules) rel = has_name rel modules
