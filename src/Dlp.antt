-- ===== src/Dlp.antt =====
-- The dlp package.
pub mod Detectors
