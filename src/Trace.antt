-- ===== src/Trace.antt =====
-- trace.py: recording an attempt. A clock reading is an argument of the method that takes it.
pub mod Truncate
pub mod Recorder
