-- ===== src/Tests/Config.antt =====
-- config.py at a project whose pytest.ini stands two directories up, and at an argv.
use tiderace.Base.{
  [], codes, dirname, ends_with, lookup, refl, some, split, starts_with, str_eq, true, ◌∷◌, ◌≡◌,
  ◌⊎◌,
}
use tiderace.Config.{
  ConfigHost, ProjectConfig, addopts_in, addopts_text, argv_of, carrier, config_at, load_from,
  load_project_config, sections_in, sections_of, text,
}
use tiderace.Config.Nearest.{IsDefault, IsNearest, load_project_config-IsNearest}
use tiderace.Footprint.{join}

abbrev ini_only : ConfigHost
ini_only = record {
  exists = λ p. str_eq p (codes "/p/pytest.ini");
  read = λ p name. some (true, ((codes "addopts", text (codes "-k fast")) ∷ []) ∷ []);
  abspath = λ p. p;
  split_words = λ s. some (split 32 s);
  file_names = codes "pytest.ini" ∷ codes "setup.cfg" ∷ [];
}

argv_of_project :
    load_project_config ini_only (codes "/p/a/b")
    ≡ some (record {
      dir = codes "/p";
      source = some (codes "/p/pytest.ini");
      sections = ((codes "addopts", text (codes "-k fast")) ∷ []) ∷ [];
      argv = codes "-k" ∷ codes "fast" ∷ [];
    })
unfolding load_project_config load_from carrier config_at sections_in sections_of addopts_in
    addopts_text argv_of join dirname str_eq starts_with ends_with lookup split
argv_of_project = refl

load_project_config-IsNearest_example :
    (project : ProjectConfig) × (load_project_config ini_only (codes "/p/a/b") ≡ some project)
    × (IsNearest ini_only (codes "/p/a/b") (codes "/p/a/b") project
        ⊎ IsDefault ini_only (codes "/p/a/b") (codes "/p/a/b") project)
load_project_config-IsNearest_example = load_project_config-IsNearest ini_only (codes "/p/a/b")
