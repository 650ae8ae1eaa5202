-- ===== src/Agent.antt =====
-- The agent package: the tools and the loop that calls them.
pub mod Tools
pub mod Loop
pub mod Providers
pub mod Main
