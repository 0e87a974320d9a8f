-- ===== src/S7comm.antt =====
-- The S7comm server (src/cursus/s7comm/server.py).
pub mod Server
pub mod Stopping
pub mod Runs
