-- ===== src/Dnp3.antt =====
-- The DNP3 outstation (src/cursus/dnp3): the Docker service, the container, the native outstation
-- and the entry point that chooses between them.
pub mod Config
pub mod Docker
pub mod Container
pub mod Outstation
pub mod Runtime
pub mod Passed
pub mod Service
pub mod Running
pub mod Choice
pub mod Runs
