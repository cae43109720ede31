-- ===== src/Regression.antt =====
-- regression/: comparing two runs, and grouping failures.
pub mod Compare
pub mod Clustering
