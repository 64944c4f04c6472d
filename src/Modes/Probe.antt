-- ===== src/Modes/Probe.antt =====
-- modes.py: which modules are safe in a sub-interpreter, and the mode that a launch takes.
use tiderace.Base.{
  Bool, List, Option, Str, [], codes, contains_str, dirname, ends_with, eqb, false, has_name,
  if◌then◌else◌, none, some, starts_with, true, ◌++◌, ◌∷◌,
}
use tiderace.Isolation.Registries.{basename}

abbrev pub process_global_calls : List Str
process_global_calls =
    codes "chdir("
    ∷ codes "isolated_filesystem("
    ∷ codes "putenv("
    ∷ codes "unsetenv("
    ∷ codes "setenv("
    ∷ codes "delenv("
    ∷ codes "os.environ["
    ∷ codes "signal.signal("
    ∷ codes "umask("
    ∷ []

-- `call[:-1] if call.endswith("(") else call`
unfoldable pub call_name : Str → Str
call_name [] = []
call_name (c ∷ []) = if eqb c 40 then [] else c ∷ []
call_name (c ∷ d ∷ s) = c ∷ call_name (d ∷ s)

unfoldable pub first_call : List Str → Str → Option Str
unfolding contains_str
first_call [] text = none
first_call (call ∷ calls) text =
    let rest = first_call calls text in if contains_str call text then some call else rest

unfoldable pub join_path : Str → Str → Str
unfolding ends_with
join_path [] name = name
join_path (c ∷ dir) name =
    if starts_with name (codes "/")
    then name
    else if ends_with (c ∷ dir) (codes "/")
    then (c ∷ dir) ++ name
    else (c ∷ dir) ++ codes "/" ++ name

-- The files to read: the test module and the conftest beside it; `root` is absolute.
unfoldable pub candidates : Str → Str → List Str
unfolding join_path dirname
candidates root module_key =
    join_path root module_key
    ∷ join_path (join_path root (dirname module_key)) (codes "conftest.py")
    ∷ []

-- `text_of` is the text of a file, `none` where it cannot be read.
module _ (text_of : Str → Option Str) where
  unfoldable pub first_touch : List Str → Option (Str × Str)
  unfolding first_call
  first_touch [] = none
  first_touch (path ∷ paths) =
      let rest = first_touch paths in
      elim (text_of path) [
        | none ↦ rest
        | some text ↦ elim (first_call process_global_calls text) [
          | none ↦ rest
          | some call ↦ some (call, path)
        ]
      ]

  unfoldable pub touches_process_globals : Str → Str → Str
  unfolding first_touch candidates call_name
  touches_process_globals root module_key = elim (first_touch (candidates root module_key)) [
    | none ↦ []
    | some t ↦ call_name t.0 ++ codes " in " ++ basename t.1
  ]

-- What `exec` in a fresh sub-interpreter comes to: it loads, or the last line of what it raised.
pub record Probed : Type 0 where
  pub safe : Option Bool
  pub reason : Option Str

-- By what the text check found, and then by what the load raised.
unfoldable pub probed_of : Str → Option Str → Probed
probed_of [] none = record { safe = some true; reason = none }
probed_of [] (some text) = record { safe = some false; reason = some text }
probed_of (c ∷ touch) raised = record {
  safe = some false;
  reason = some (
      codes "touches process-global state ("
      ++ (c ∷ touch)
      ++ codes "), shared across sub-interpreters");
}

unfoldable pub probe_module_safe : (Str → Option Str) → Bool → Option Str → Str → Str → Probed
unfolding touches_process_globals probed_of
probe_module_safe text_of true raised root module_key =
    probed_of (touches_process_globals text_of root module_key) raised
probe_module_safe text_of false raised root module_key = record {
  safe = none;
  reason = some (codes "concurrent.interpreters unavailable (CPython < 3.14)");
}

pub data Mode : Type 0 where
  probing subinterpreters serving : Mode

-- `main`, on the arguments behind the root.
unfoldable pub mode_of : List Str → Mode
unfolding has_name
mode_of args =
    if has_name (codes "--probe") args
    then probing
    else if has_name (codes "--subinterp") args
    then subinterpreters
    else serving
