-- ===== src/Lms.antt =====
-- src/lms: the slimproto client and the HTTP stream reader.
pub mod Protocol
pub mod Op
pub mod Stat
pub mod Packet
pub mod Client
pub mod Process
pub mod Link
pub mod Stream
pub mod Icy
mod Runs
