-- ===== src/Fixtures.antt =====
-- engine/py-shim/tiderace_shim/fixtures.py: fixture definitions, the registry with its
-- nearest-override rule, and the closure that a test needs. A definition is found by reflection on
-- user code (`_fixture_def`, `_native_fixture_def`), so it enters as a record; a type by which a
-- native provider is wired enters as its name.
mod Defs
mod Lookup
mod Closing
mod Keys
pub mod Nearest
pub mod Depth
pub mod Members
mod Steps
pub mod Total
pub mod Order
pub mod Closure
pub mod Instances
unfoldable pub use Defs.*
unfoldable pub use Lookup.*
unfoldable pub use Closing.*
unfoldable pub use Keys.*
