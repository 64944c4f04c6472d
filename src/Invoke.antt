-- ===== src/Invoke.antt =====
-- invoke.py: calling a test between its hooks, its finalizers, and the xunit setups of a process.
pub mod Call
pub mod Xunit
pub mod Always
pub mod Once
pub mod Entered
pub mod Leaving
