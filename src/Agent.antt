-- ===== src/Agent.antt =====
-- agent/: what drives an attempt.
pub mod Loop
pub mod Tools
pub mod Run
pub mod Replay
