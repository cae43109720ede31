-- ===== src/Stats.antt =====
-- stats/*.py: repeated samples of a task, and paired tests. Quotients are exact fractions.
pub mod Comb
pub mod Sampling
pub mod Significance
pub mod Required
