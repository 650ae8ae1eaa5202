-- ===== src/Attacks.antt =====
-- The attacks package: the plumbing of the attack demonstrations, the scripts, and their orchestrator.
pub mod Common
pub mod Replay
pub mod Scenario
pub mod Samples
pub mod Injection
pub mod RawEgress
pub mod Cascade
pub mod RunAll
