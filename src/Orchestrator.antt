-- ===== src/Orchestrator.antt =====
-- orchestrator/*.py: turning an evaluation request into executed jobs.
pub mod Jobs
pub mod Retry
pub mod Scheduler
pub mod Filename
pub mod Runner
