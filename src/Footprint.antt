-- ===== src/Footprint.antt =====
-- engine/py-shim/tiderace_shim/footprint.py: the files that a test module depends on. The file system,
-- which does not change while a process serves a run, is a parameter.
mod Scan
mod Resolve
mod Deps
mod Closure
mod Index
pub mod Scanning
pub mod Offering
pub mod Reach
pub mod Memos
pub mod Fresh
pub mod Closing
pub mod Carried
unfoldable pub use Scan.*
unfoldable pub use Resolve.*
unfoldable pub use Deps.*
unfoldable pub use Closure.*
unfoldable pub use Index.*
