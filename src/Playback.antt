-- ===== src/Playback.antt =====
-- src/playback: the stream's accounting, its exit policy, the volume policy and the coordinator.
pub mod Exit
pub mod Counters
pub mod Telemetry
pub mod Fade
pub mod Stream
pub mod Coordinator
pub mod Volume
mod Runs
