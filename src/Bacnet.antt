-- ===== src/Bacnet.antt =====
-- The BACnet/IP emulator (src/cursus/bacnet/server.py).
pub mod Objects
pub mod Encode
pub mod Numbers
pub mod Decode
pub mod Tags
pub mod RoundTrip
pub mod Parsing
pub mod Requests
pub mod Replies
pub mod Envelope
pub mod Server
pub mod Datagram
pub mod Write
pub mod Read
pub mod ReadBack
pub mod Socket
pub mod Answered
pub mod SocketRuns
pub mod WhoIs
pub mod Runs
pub mod ReadRuns
