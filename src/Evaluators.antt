-- ===== src/Evaluators.antt =====
-- evaluators/: what is measured on one attempt, and what decides that it passed.
pub mod Suite
pub mod Efficiency
pub mod Behaviour
pub mod Safety
pub mod Patch
pub mod Outcome
