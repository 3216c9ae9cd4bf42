-- ===== src/Playback/Volume.antt =====
-- src/playback/volume_map.h and volume_map.cpp, and volume_controller.cpp: the volume policy of a
-- session. A double is an abstract type with the operations that the code uses.
pub mod Map
pub mod Controller
pub mod Chase
pub mod FixedMode
mod Runs
