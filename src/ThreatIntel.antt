-- ===== src/ThreatIntel.antt =====
-- The threat_intel package.
pub mod Feed
