-- ===== src/Playback/Coordinator/State.antt =====
-- The state of the coordinator and the calls it makes of its neighbours.
use squeeze2raop.Base.{ℕ, Bool, true, false, List, [], ◌∷◌}
use squeeze2raop.Lms.Protocol.{PcmParams}
pub use squeeze2raop.Playback.Stream.{disconnect_none}

-- `PlaybackStream::End`: why the track's pump came back.
pub data End : Type 0 where
  stopped faded_out receiver_lost eof decode_error socket_error : End

abbrev pub retry_delay_ms : ℕ
retry_delay_ms = 2000

abbrev pub drain_timeout_ms : ℕ
drain_timeout_ms = 5000

abbrev pub drain_pump_ms : ℕ
drain_pump_ms = 20

abbrev pub default_stream_port : ℕ
default_stream_port = 9000

pub data Call : Type 0 where
  -- link_
  stat : List ℕ → Call
  disco : ℕ → Call
  resp : List ℕ → Call
  meta : List ℕ → Call
  -- output_ and volume_
  unpark : Call
  prepare : ℕ → Call
  consume_lost : Call
  park : Call
  stop_output : Bool → Call
  silence : Call
  pump : ℕ → Call
  launch : Call
  -- counters_
  set_queued : ℕ → Call
  -- track_
  new_track : Call
  hold_start : Call
  open_source : List ℕ → ℕ → Call
  attach_decoder : ℕ → PcmParams → Call
  interrupt : Call
  reapply_now_playing : Call
  pause_track : ℕ → Call
  unpause_track : ℕ → Call
  skip_track : ℕ → Call
  request_fade_out : Call
  close_track : Call
  -- std::this_thread
  sleep : ℕ → Call

-- Where the stream thread stands: not joinable, before the loop, inside `run`, between two passes,
-- in `waitForOutputDrain`, behind it, and returned but not joined. A flag is the pass's `keepSession`.
pub data Thread : Type 0 where
  absent : Thread
  entering : Thread
  running : Thread
  retrying : Bool → Thread
  draining : Bool → ℕ → Thread
  drained : Bool → Thread
  finished : Thread

pub record Coordinator : Type 0 where
  pub track : Bool
  pub thread : Thread
  pub stop_requested : Bool
  pub stream_active : Bool
  pub autostart : ℕ
  pub await_codc : Bool
  pub have_codc : Bool
  pub have_cont : Bool
  pub sent_stml : Bool
  pub sent_stms : Bool
  pub flushed : Bool
  pub retry_used : Bool
  pub log : List Call

abbrev pub initial : Coordinator
initial = record {
  track = false;
  thread = absent;
  stop_requested = false;
  stream_active = false;
  autostart = 1;
  await_codc = false;
  have_codc = false;
  have_cont = false;
  sent_stml = false;
  sent_stms = false;
  flushed = false;
  retry_used = false;
  log = [];
}

unfoldable pub emit : Call → Coordinator → Coordinator
emit c s = record s { log = c ∷ s.log }

-- `streamThread_.joinable()`.
unfoldable pub joinable : Thread → Bool
joinable absent = false
joinable _ = true
