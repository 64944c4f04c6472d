-- ===== src/Config.antt =====
-- engine/py-shim/tiderace_shim/config.py: the project's own configuration and what a run takes from it.
-- The files, `shlex.split` and `fnmatch` are parameters.
mod Project
mod Find
mod Ignored
pub mod Options
pub mod Carriers
pub mod Nearest
unfoldable pub use Project.*
unfoldable pub use Find.*
unfoldable pub use Ignored.*
