-- ===== src/Starter.antt =====
-- The starter (src/cursus/starter.py).
pub mod Probe
pub mod Ready
pub mod Names
pub mod Threads
pub mod Turns
pub mod Linked
pub mod Effects
pub mod Causes
pub mod History
pub mod Schedules
pub mod Readiness
pub mod Over
pub mod NeverReady
pub mod FirstThread
pub mod Early
pub mod Announced
pub mod DockerReady
pub mod Runs
pub mod ThreadRuns
