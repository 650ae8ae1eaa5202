-- ===== src/Policy.antt =====
-- The policy package: the decision lattice, bundles, the evaluator and the compiler.
pub mod Decision
pub mod Rules
pub mod Glob
pub mod DefaultBundle
pub mod Engine
pub mod Loader
pub mod Compiler
