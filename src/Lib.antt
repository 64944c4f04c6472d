-- ===== src/Lib.antt =====
-- Verification of tiderace's Python shim (engine/py-shim/tiderace_shim), the process that a Rust
-- orchestrator drives: it reads a node id, decides whether to run it and in what isolation, builds
-- the fixtures that its test needs, runs its cases and answers with a frame.
--
-- The files, by the part of the program that they model:
--   Base       the names that all files share: tests on numbers, lists, texts as lists of code
--              points, dictionaries as association lists in insertion order, integers.
--   Results    results.py: outcomes, frames, the purity fields, the import-history note.
--   Marks      pytest_compat.py: marks of three dialects normalised to one, and their fold into an
--              outcome; the objects that bear markers.
--   Tiers      tiers.py: `route`, which picks the isolation tier of a node, and `assemble`, which makes
--              the node's response of its variants. It uses Results for the frame and Marks for the
--              fold.
--   Fixtures   fixtures.py and the id readers of nodes.py: definitions, the registry, `resolve`,
--              `autouse_for`, `_closure` and `_instance_key`.
--   Selection  selection.py: the grammar of `-k` and `-m`, three-valued evaluation, patches, verdicts
--              and `unknown_marks`.
--   Scopes     engine.py: the live wider-than-function fixtures, `_sync_wider` and `_teardown_stale`, on
--              the definitions and keys of Fixtures.
--   Protocol   protocol.py: `read_exactly`, frames, `serve` and the parent half of `run_child`.
--   Plan       plan.py: the cases of `parametrize` marks, their ids, and the suffixes of ids that
--              collide.
--   Run        engine.py: `Engine.run` from `_gate` to the response: the selection of cases in `_plan`,
--              `_execute`, `_run_variant`, `_run_inherited`, `_module_child_run` and
--              `_clean_room_handoff`. It uses Selection for the gates, Tiers for the route and the
--              response, and Results for the frames.
--   Footprint  footprint.py: the scan for imports, their resolution, the memos and the closure.
--   Config     config.py: a project's options and sections, and the walk that finds them.
--   MonkeyPatch  engine/py-tiderace/tiderace/builtins/_monkeypatch.py: the patching calls and `undo`, on
--              a store of attributes and items by identity.
--   Discovery  discovery.py: the marks that cover a directory, and the conftests that govern a module.
--   Isolation  isolation.py: the fingerprint (State), `sys.modules` (Modules), the containers of watched
--              packages (Targets, Registries), the globals of a module (Globals, Shared), and the class
--              `Isolation` (Session, PutBack). The depth of the restoring in place is the interpreter's
--              recursion limit: to reach it is the exception that the code would raise.
--   Modes      modes.py: the batches of the sub-interpreter pool (Subinterp), the pool of forked workers
--              (Pool) and the probe (Probe).
--   Invoke     invoke.py: the call of a test (Call) and the xunit setups of a process (Xunit).
--   Tests      runs of all of them at concrete inputs.
-- A function keeps its name without leading underscores; where a Python method and a field or a
-- constructor would share a name, the comment above the definition names the method.
--
-- Texts are lists of code points, and the tests on them that the program takes from Python are
-- written out in Base/Text.antt. Sets are lists; where the order of a set could be seen, the code
-- sorts it. A ValueError of the parser is `none`, and so is the value of a call that raises.
--
-- Fuel: `visit` of `_closure` recurses along chains of definitions, and a chain visits a key only once,
-- so one more than the number of definitions is enough. The descent of the parser makes at most four
-- calls for each token it takes, which bounds its depth. `serve` takes fuel for one round more than
-- there are requests. The stack of the import closure takes one unit for each file that can be reached
-- and one for the module, the scan for imports one for each line (Footprint.Scanning), and the walk
-- to a configuration one more than the length of the path, which each parent shortens.
--
-- Parameters: the word characters of the regular expression library and lower-casing (Selection),
-- what pytest lists as its own marks (Selection), the probe for restorability and the keywords of
-- a case (Tiers), the host that sets up and closes fixtures and may raise (Scopes), JSON and the
-- request handler (Protocol), the text of a value and what `ids` give (Plan), the host that runs a
-- variant, a case or a child and what the discovery says of a node (Run), the file system and the
-- parser (Footprint), reading a configuration file, shlex and fnmatch (Config), the operations of
-- the interpreter on objects, the file of a module and whether a directory exists (Isolation), the
-- text of a file and what a wait on a queue gives (Modes), what Python says of foreign values
-- (Isolation), of a character (Plan) and of a value that is patched (MonkeyPatch), and what each
-- hook raises (Invoke).
--
-- Not modelled: operating-system processes, pipes, signals and threads, imports of user modules,
-- reflection on Python objects, the tracing hooks of the coverage, the start-up of a worker, the rich
-- diff of an assertion, the migration tool, and the benchmarks, scripts and proofs-of-concept beside the shim.
-- They act on live Python objects or on the operating system, and are parameters where the parts
-- above call them.
pub mod Base
pub mod Results
pub mod Marks
pub mod Tiers
pub mod Fixtures
pub mod Selection
pub mod Scopes
pub mod Protocol
pub mod Plan
pub mod Run
pub mod Footprint
pub mod Config
pub mod Discovery
pub mod MonkeyPatch
pub mod Isolation
pub mod Modes
pub mod Invoke
mod Tests
