-- ===== src/Selection.antt =====
-- engine/py-shim/tiderace_shim/selection.py: the grammar of `-k` and `-m`, its three-valued
-- evaluation, and the selection of a run. The word characters of the regular expression library,
-- lower-casing, and what pytest's own `--markers` prints are parameters. The texts of warnings are
-- not modelled: an expression outside the grammar is `none`.
mod Trees
mod Lexer
mod Parser
mod Choice
pub mod Kleene
pub mod Fuel
pub mod Printing
mod Steps
pub mod RoundTrip
pub mod Verdicts
pub mod Patches
pub mod Unknown
unfoldable pub use Trees.*
unfoldable pub use Lexer.*
unfoldable pub use Parser.*
unfoldable pub use Choice.*
