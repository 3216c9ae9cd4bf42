-- ===== src/Playback/Coordinator.antt =====
-- src/playback/stream_coordinator.h and stream_coordinator.cpp: the life of one track. The reader
-- thread of the LMS link runs the handlers; the stream thread runs `streamLoop`. A run is a sequence
-- of events: a handler, or a move of the stream thread. The calls that the coordinator makes of the
-- link, the output, the volume and the track are kept in a log, newest first.
pub mod State
pub mod Loop
pub mod Handlers
pub mod Once
pub mod Callbacks
pub mod Flushing
pub mod Passes
pub mod Ending
pub mod Returning
pub mod Gate
mod Runs
unfoldable pub use State.*
unfoldable pub use Loop.*
unfoldable pub use Handlers.*
