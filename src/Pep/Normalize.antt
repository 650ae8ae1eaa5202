-- ===== src/Pep/Normalize.antt =====
-- pep/normalize.py: request canonicalization, on the characters' numbers.
pub mod Path
pub mod Query
pub mod Url
pub mod Interface
mod Tests
