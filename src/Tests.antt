-- ===== src/Tests.antt =====
-- Runs of the modelled code at concrete inputs.
mod Footprint
mod Run
mod Children
mod MonkeyPatch
mod Discovery
mod Config
mod Fixtures
mod Selection
mod Tiers
mod Marks
mod Plan
mod Protocol
mod Results
mod Scopes
mod Isolation
mod Aliasing
mod Verdicts
mod Modes
mod Invoke
