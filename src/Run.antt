-- ===== src/Run.antt =====
-- engine/py-shim/tiderace_shim/engine.py: the way of one node through `Engine.run`, from the gates to
-- its response. What runs user code is a parameter over a state `W` of its own.
mod Gate
mod Cases
mod Child
mod Inherited
mod ModuleChild
mod Node
pub mod Settled
pub mod Choice
pub mod Chosen
pub mod Walk
pub mod Kept
pub mod Outcomes
pub mod Batch
pub mod Inheriting
unfoldable pub use Gate.*
unfoldable pub use Cases.*
unfoldable pub use Child.*
unfoldable pub use Inherited.*
unfoldable pub use ModuleChild.*
unfoldable pub use Node.*
