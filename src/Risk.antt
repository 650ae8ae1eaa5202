-- ===== src/Risk.antt =====
-- The risk package: the behavioral state, the scorer, and the outcomes and the baseline that change the state.
pub mod Behavior
pub mod Scorer
pub mod Outcomes
