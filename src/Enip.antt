-- ===== src/Enip.antt =====
-- The EtherNet/IP emulator (src/cursus/enip/server.py).
pub mod Objects
pub mod Path
pub mod Identity
pub mod Cip
pub mod CipService
pub mod Cpf
pub mod Encapsulation
pub mod Server
pub mod Connection
pub mod PathTermination
pub mod CipKeeps
pub mod Sessions
pub mod System
pub mod Runs
pub mod MemoryRuns
pub mod Framing
pub mod Draining
pub mod Stream
pub mod Guards
pub mod Assemblies
pub mod Memory
pub mod Socket
pub mod Responses
