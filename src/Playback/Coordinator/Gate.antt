-- ===== src/Playback/Coordinator/Gate.antt =====
-- The stream thread is started only when the flags let it: no 'codc' is awaited and, where LMS asked
-- for it, a 'cont' has come; and what that says of the track's decoder.
mod Reading
mod Known
mod Decoder
mod Joining
use squeeze2raop.Base.{Bool}
use squeeze2raop.Lms.Stat
use squeeze2raop.Playback.Coordinator.State.{Coordinator}
pub use squeeze2raop.Playback.Coordinator.Gate.Reading.{IsReady}
unfoldable pub use squeeze2raop.Playback.Coordinator.Gate.Known.{attached}
unfoldable pub use squeeze2raop.Playback.Coordinator.Gate.Decoder.{any_refused}
