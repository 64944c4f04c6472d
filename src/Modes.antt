-- ===== src/Modes.antt =====
-- modes.py: what the shim does when launched. The sub-interpreter pool and its batches, the probe, the
-- pool of forked workers, and the choice of the mode.
pub mod Subinterp
pub mod Answering
pub mod Batches
pub mod Pool
pub mod Reaping
pub mod Probe
pub mod Probing
