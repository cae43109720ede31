-- ===== src/Env.antt =====
-- env/workspace.py: the sandbox that an agent acts in, over an unknown disk.
pub mod Disk
pub mod Workspace
