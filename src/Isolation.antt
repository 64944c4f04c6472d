-- ===== src/Isolation.antt =====
-- isolation.py of the shim: what a test run without a fork may have disturbed, measured and put back.
pub mod State
pub mod Modules
pub mod Registries
pub mod Restored
pub mod Swapped
pub mod PulledOut
pub mod NothingNew
pub mod Globals
pub mod Shared
pub mod Standing
pub mod Union
pub mod Targets
pub mod Session
pub mod PutBack
pub mod Reverted
pub mod Verdicts
