-- ===== src/Playback/Coordinator/Handlers.antt =====
-- The handlers of the reader thread. A handler that joins the stream thread carries the moves that
-- the thread makes until it has returned; without them the handler does not come back, which is none.
use squeeze2raop.Base.{
  ℕ, ◌*◌, ◌/◌, ◌==◌, ltb, leb, u32, u64, if◌then◌else◌, Bool, true, false, not, ◌&&◌, ◌||◌, Option,
  none, some, List, [], ◌∷◌, and_then,
}
use squeeze2raop.Lms.Protocol.{
  StrmStart, StreamStats, PcmParams, unknown_format, autostart_decoder_ready,
  autostart_require_cont, default_channels, default_sample_rate,
}
use squeeze2raop.Lms.Stat
use squeeze2raop.Playback.Counters.{Counters, stats, minus, ms_per_second}
use squeeze2raop.Playback.Coordinator.State.{
  default_stream_port, Call, disco, resp, stop_output, silence, new_track, hold_start, open_source,
  attach_decoder, interrupt, pause_track, unpause_track, skip_track, request_fade_out, close_track,
  Coordinator, emit, joinable, Thread, absent, entering, finished,
}
use squeeze2raop.Playback.Coordinator.Loop.{Move, moves, move, report}

-- What the handlers read of their surroundings: the codecs of the build, the address printer of the
-- system and the host of the LMS link.
pub record Setup : Type 0 where
  pub supports_format : ℕ → Bool
  pub ipv4_to_string : ℕ → List ℕ
  pub server_host : List ℕ

-- What `track_` answers to `openSource`, `disconnectCode` and `attachDecoder`.
pub record Opening : Type 0 where
  pub headers : Option (List ℕ)
  pub disconnect_code : ℕ
  pub attached : Bool

unfoldable pub is_empty : List ℕ → Bool
is_empty [] = true
is_empty (_ ∷ _) = false

-- The early returns of `maybeStartPump`.
unfoldable pub must_wait : Coordinator → Bool
must_wait s =
    not s.track
    || joinable s.thread
    || (s.await_codc && not s.have_codc)
    || (leb autostart_require_cont s.autostart && not s.have_cont)

unfoldable pub maybe_start_pump : Coordinator → Coordinator
maybe_start_pump s =
    if must_wait s then s else record s { thread = entering; stop_requested = false }

-- A stop request wakes a read of the track: the callback lives as long as the loop.
unfoldable pub wake_on_stop : Thread → Coordinator → Coordinator
wake_on_stop absent s = s
wake_on_stop entering s = s
wake_on_stop finished s = s
wake_on_stop _ s = emit interrupt s

unfoldable pub request_stop : Coordinator → Coordinator
request_stop s = wake_on_stop s.thread (record s { stop_requested = true })

unfoldable pub with_track : Call → Coordinator → Coordinator
with_track c s = if s.track then emit c s else s

-- `streamThread_.join()`, once the thread has made its moves.
unfoldable pub join_at : Thread → Coordinator → Option Coordinator
join_at finished s = some (record s { thread = absent; stop_requested = false })
join_at _ s = none

abbrev pub join : Coordinator → Option Coordinator
join s = join_at s.thread s

unfoldable pub stop_thread : List Move → Coordinator → Option Coordinator
stop_thread ms s = and_then (moves ms (with_track (unpause_track 0) (request_stop s))) join

unfoldable pub shutdown_if : Bool → List Move → Coordinator → Option Coordinator
shutdown_if true ms s = and_then (stop_thread ms s) (λ s'. some (with_track close_track s'))
shutdown_if false ms s = some (with_track close_track s)

abbrev pub shutdown : List Move → Coordinator → Option Coordinator
shutdown ms s = shutdown_if (joinable s.thread) ms s

-- `track_->attachDecoder(..)` and what follows it in `onStreamStart` and `onCodc`.
unfoldable pub attach : ℕ → PcmParams → Bool → Coordinator → Coordinator
attach format pcm attached s =
    let s1 = record (emit (attach_decoder format pcm) s) { await_codc = false } in
    if attached then maybe_start_pump s1 else record (report Stat.error s1) { track = false }

-- What follows `openSource`, on its answer.
unfoldable pub opened : Option (List ℕ) → StrmStart → Opening → Coordinator → Coordinator
opened none st o s = record (report Stat.error (emit (disco o.disconnect_code) s)) { track = false }
opened (some headers) st o s =
    let s1 = report Stat.connect (emit (resp headers) s) in
    if st.format == unknown_format
    then record s1 { await_codc = true }
    else attach st.format st.pcm o.attached s1

unfoldable pub make_track : StrmStart → Coordinator → Coordinator
make_track st s =
    let s1 = record (emit new_track s) { track = true } in
    if st.autostart == autostart_decoder_ready then emit hold_start s1 else s1

unfoldable pub open_track : StrmStart → List ℕ → ℕ → Opening → Coordinator → Coordinator
open_track st host port o s = opened o.headers st o (emit (open_source host port) (make_track st s))

unfoldable pub rejects : Setup → StrmStart → List ℕ → Bool
rejects setup st host =
    is_empty host
    || is_empty st.request
    || (not (st.format == unknown_format) && not (setup.supports_format st.format))
    || ((st.format == unknown_format) && ltb st.autostart autostart_require_cont)

unfoldable pub reset_flags : ℕ → Coordinator → Coordinator
reset_flags autostart s = record s {
  flushed = false;
  retry_used = false;
  autostart = autostart;
  await_codc = false;
  have_codc = false;
  have_cont = false;
  sent_stml = false;
  sent_stms = false;
}

-- `onStreamStart` behind its `shutdown()`.
unfoldable pub start_track : Setup → StrmStart → Opening → Coordinator → Coordinator
start_track setup st o s =
    let s1 = reset_flags st.autostart s in
    let host = if st.server_ip == 0 then setup.server_host else setup.ipv4_to_string st.server_ip in
    let port = if st.server_port == 0 then default_stream_port else st.server_port in
    if rejects setup st host then report Stat.error s1 else open_track st host port o s1

unfoldable pub on_stream_start :
    Setup → StrmStart → Opening → List Move → Coordinator → Option Coordinator
on_stream_start setup st o ms s = and_then (shutdown ms s) (λ s'. some (start_track setup st o s'))

unfoldable pub on_cont : Coordinator → Coordinator
on_cont s = maybe_start_pump (record s { have_cont = true })

unfoldable pub on_codc : ℕ → PcmParams → Bool → Coordinator → Coordinator
on_codc format pcm attached s =
    if not s.await_codc || not s.track
    then s
    else attach format pcm attached (record s { have_codc = true })

-- `flushed_` is stored first; `early` is what the thread does before the stop is asked for.
unfoldable pub flush : List Move → List Move → Coordinator → Option Coordinator
flush early ms s =
    and_then (moves early (record s { flushed = true }))
      (λ s'. and_then (shutdown ms s') (λ s''. some (emit silence s'')))

unfoldable pub pause : ℕ → Coordinator → Coordinator
pause ms s = let s1 = with_track (pause_track ms) s in if ms == 0 then emit silence s1 else s1

unfoldable pub unpause : ℕ → Coordinator → Coordinator
unpause jiffies s = with_track (unpause_track jiffies) s

unfoldable pub skip_ahead : ℕ → Coordinator → Coordinator
skip_ahead ms s = with_track (skip_track ms) s

unfoldable pub tear_down : List Move → Coordinator → Option Coordinator
tear_down ms s = and_then (shutdown ms s) (λ s'. some (emit (stop_output true) s'))

-- `fades` is the answer of `track_->requestFadeOut()`.
unfoldable pub fade_or_tear_down : Bool → Bool → List Move → Coordinator → Option Coordinator
fade_or_tear_down true true ms s = some (emit request_fade_out s)
fade_or_tear_down true false ms s = tear_down ms (emit request_fade_out s)
fade_or_tear_down false _ ms s = tear_down ms s

abbrev pub request_stop_or_fade : Bool → List Move → Coordinator → Option Coordinator
request_stop_or_fade fades ms s = fade_or_tear_down (s.stream_active && s.track) fades ms s

unfoldable pub aude_off : List Move → Coordinator → Option Coordinator
aude_off ms s = tear_down ms s

-- What `currentStats` reads of the output.
pub record OutputView : Type 0 where
  pub capacity_bytes : ℕ
  pub queued_bytes : ℕ
  pub queued : ℕ
  pub has_target : Bool
  pub latency_frames : ℕ

unfoldable pub current_stats : Counters → OutputView → StreamStats
current_stats c v =
    let played = minus c.fed_samples (v.queued / default_channels) in
    let audible = if v.has_target then minus played v.latency_frames else played in
    record (stats c) {
      output_buffer_size = u32 v.capacity_bytes;
      output_buffer_fullness = u32 v.queued_bytes;
      elapsed_ms = u32 (u64 (audible * ms_per_second) / default_sample_rate);
    }

pub data Event : Type 0 where
  stream_start : StrmStart → Opening → List Move → Event
  cont : Event
  codc : ℕ → PcmParams → Bool → Event
  flushing : (early ms : List Move) → Event
  pausing : ℕ → Event
  unpausing : ℕ → Event
  skipping : ℕ → Event
  stopping : Bool → List Move → Event
  powered_off : List Move → Event
  shutting : List Move → Event
  moving : Move → Event

unfoldable pub step : Setup → Event → Coordinator → Option Coordinator
step setup (stream_start st o ms) s = on_stream_start setup st o ms s
step setup cont s = some (on_cont s)
step setup (codc f p a) s = some (on_codc f p a s)
step setup (flushing early ms) s = flush early ms s
step setup (pausing ms) s = some (pause ms s)
step setup (unpausing j) s = some (unpause j s)
step setup (skipping ms) s = some (skip_ahead ms s)
step setup (stopping fades ms) s = request_stop_or_fade fades ms s
step setup (powered_off ms) s = aude_off ms s
step setup (shutting ms) s = shutdown ms s
step setup (moving m) s = move m s

unfoldable pub steps : Setup → List Event → Coordinator → Option Coordinator
steps setup [] s = some s
steps setup (e ∷ es) s = and_then (step setup e s) (steps setup es)
