-- ===== src/Tests.antt =====
-- The theorems at concrete inputs.
mod Calls
mod Runs
mod Measures
mod Evaluators
mod Attempts
mod Workspaces
mod Providers
