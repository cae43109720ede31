-- ===== src/Schema.antt =====
-- schema/*.py: the data that the other parts exchange.
pub mod Trajectory
pub mod Result
pub mod Case
pub mod Dataset
