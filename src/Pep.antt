-- ===== src/Pep.antt =====
-- The pep package: the policy enforcement point.
pub mod Normalize
pub mod Quarantine
pub mod Pipeline
pub mod Proxy
pub mod BypassProxy
