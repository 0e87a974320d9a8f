-- ===== src/Mbtcp.antt =====
-- The Modbus TCP server (src/cursus/mbtcp/server.py).
pub mod Server
pub mod Tables
pub mod Stopping
pub mod Runs
