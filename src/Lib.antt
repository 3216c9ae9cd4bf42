-- ===== src/Lib.antt =====
-- squeeze2raop2: a bridge that registers with Logitech Media Server (LMS) as a squeezelite player
-- and plays to AirPlay receivers. This library models its core and states what makes it correct.
--
-- The parts of the program and the modules that model them (paths from the root of the repository):
-- * src/common/byte_order.h, in Common/ByteOrder: integers in wire order. An unchecked read that
--   leaves its buffer, and a dereference of an empty optional, is the value `oob` of Base/Faults.
-- * src/common/util.cpp, in Common/Util: the text helpers. What they and their callers use of the C++
--   library (`find`, `from_chars`, the character classes, `std::map`) is in Base.
-- * src/discovery/device_registry.cpp, in Discovery/Registry: the device and the parsers of its fields in
--   Device, what a record says in Records, the operations in Registry itself. A run is a sequence of
--   the reports that mDNS makes.
-- * src/app/config.cpp, in App/Config: the settings and the inheritance of a player's.
-- * src/app/persistence.cpp, in App/Persistence: the state and its sections, the operations in
--   Operations, the values of keys in Keys and Parse, the reading of a file line by line in Lines and
--   what is written in Save. The checks of a volume percent and of a volume map are a parameter, and
--   each save carries the system's answer, whether the file was replaced.
-- * src/airplay/ptp_packets.cpp, in Airplay/Ptp and Airplay/Ptp/Build: the gPTP header, timestamps,
--   parsers and builders.
-- * src/lms/slimproto_protocol.h, in Lms/Protocol, Lms/Op and Lms/Stat: types and constants.
-- * src/lms/slimproto_packets.cpp, in Lms/Packet (the cursor), Lms/Client (what is sent) and
--   Lms/Process (`process`, what a server packet does). The session's callbacks are a parameter of
--   `process`: any function on the client.
-- * src/lms/slimproto.cpp, in Lms/Link: the read loop with its framing, heartbeat and silence
--   watchdog. The socket is the list of the bytes it will deliver; each round is an event.
-- * src/lms/lms_stream.cpp, in Lms/Stream: `read` and `pullRaw`, which take the metadata blocks out of a
--   station's audio. The transport is the list of the bytes it will deliver and its answer to each pull.
-- * src/lms/icy_meta.cpp, in Lms/Icy: the header that asks for metadata, the interval and the title.
-- * src/playback/playback_stream.cpp, in Playback/Stream: the state of a track, what opens it and the
--   calls of the reader thread; in Feed the audio path, where a chunk is known by its number of frames;
--   in Run the pump, one round of its loop at a time, with the answers of the output, the reader, the
--   decoder and the clock. The clock is read before, at and behind the read of the source. A request to
--   skip may come while a chunk is emitted; what is pushed is what `output_.push` is called with.
-- * src/playback, in Playback: stream_counters.cpp in Counters, ring_telemetry.cpp in Telemetry,
--   exit_policy.h in Exit, the fades of volume_map.h in Fade.
-- * src/playback/volume_map.cpp and volume_controller.cpp, in Playback/Volume: the anchors, the step
--   rule, the volume handlers and the stepper that chases a receiver's volume by button presses.
-- * src/playback/stream_coordinator.cpp, in Playback/Coordinator: the handlers of the reader thread in
--   Handlers, `streamLoop` and `waitForOutputDrain` in Loop. A run is a sequence of events: a handler,
--   or a move of the stream thread. What the track, the output, the volume and the clock answer is part
--   of the event, so a statement over all events holds whatever they answer. A handler that joins the
--   thread carries the moves that the thread still makes; it comes back when these end the loop. A flush
--   carries also those that it makes before the stop is asked for.
--
-- How the parts meet: the link hands a packet to `process`, whose 'strm', 'cont' and 'codc' handlers are
-- those of the coordinator and whose AUDG handler is that of the volume controller; the coordinator runs
-- the track, reports over the link by STAT packets with the counters' figures, and asks the output for a
-- session. The volume controller sends its presses over the link as BUTN packets. A device of the
-- registry is given its section, with its address and its credentials, by the persistence.
--
-- A byte string is a list of numbers. A machine word is a number, and every operation that can leave
-- its width carries its remainder. Numbers that C++ holds signed are given by their bit patterns
-- where the code only moves them. Volumes are doubles: they are an abstract type with the operations
-- that the code uses, a parameter of Playback/Volume. The clock is an argument of each call, and the
-- readings within one call agree. A mutex makes a method one step on the record.
--
-- Loops are structural: the read loop runs over its rounds, the stream loop over its moves, so no fuel
-- is needed. Event by event this says what the code does when it runs; that the stream loop ends, and
-- that a shutdown comes back, are theorems.
--
-- Not modelled: sockets, TLS, threads, logging; the vendored AirPlay sender, codecs, resampler and mDNS,
-- which the program only calls; the parser of the anchors and the logarithm of the gain, which rest on
-- the library's decimal conversion and log10; the samples of a track, with their gain and clamping in
-- floats; the template of the configuration and its replacement by a temporary file; and, not reached
-- yet, the command line, the session manager, the opening of an HTTP stream, the decoders and the PTP
-- clock.
pub mod Base
pub mod Common
pub mod Airplay
pub mod App
pub mod Discovery
pub mod Lms
pub mod Playback
