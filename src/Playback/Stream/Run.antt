-- ===== src/Playback/Stream/Run.antt =====
-- `run`: one round of the pump's loop at a time. What the output, the reader, the decoder and the
-- clock answer in a round is given, and so is a stop. A wait inside a round, for the end of a pause or
-- for the gate, changes nothing but the deadline of the source: the round ends behind it.
pub mod Reports
pub mod Watchdog
use squeeze2raop.Base.{
  ℕ, ◌+◌, ◌-◌, ◌*◌, ◌/◌, ◌^◌, List, [], ◌∷◌, Bool, true, false, not, ◌&&◌, ◌||◌, ltb, leb, ◌==◌,
  if◌then◌else◌, u32, u64, sub64, min,
}
use squeeze2raop.Lms.Protocol.{default_sample_rate}
use squeeze2raop.Lms.Stream.{ReadResult, data_read, timeout, closed, at_eof}
use squeeze2raop.Playback.Counters.{on_received, set_queued, ms_per_second}
use squeeze2raop.Playback.Telemetry.{observe}
use squeeze2raop.Playback.Coordinator.State.{
  End, stopped, faded_out, receiver_lost, eof, decode_error, socket_error,
}
use squeeze2raop.Playback.Stream.{
  PlaybackStream, output_ready, underrun, make, gate_open, prefill_reached, ring_target_samples,
  output_underrun, disconnect_ok, disconnect_remote, disconnect_timeout, underrun_window_ms,
  pacer_lead_ms, pacer_max_sleep_ms,
}
use squeeze2raop.Playback.Stream.Feed.{Fed, feed, fade_frames}

-- The clock is read before, at and behind the read of the source; `stopping` holds a stop request and
-- the end of the program.
pub record Round : Type 0 where
  pub stopping : Bool
  pub stopping_after : Bool
  pub lost : Bool
  pub lost_after : Bool
  pub has_player : Bool
  pub running : Bool
  pub queued : ℕ
  pub queued_after : ℕ
  pub now : ℕ
  pub read_at : ℕ
  pub after : ℕ
  pub result : ReadResult
  pub bytes : ℕ
  pub fed : Fed

-- The stream, and `outputReady` of the pass.
pub record Pass : Type 0 where
  pub stream : PlaybackStream
  pub ready : Bool

pub data Turn : Type 0 where
  again : Pass → Turn
  back : PlaybackStream → End → Turn

-- What `run` begins a pass with: without a receiver there is nothing to launch.
unfoldable pub begin_pass : Bool → ℕ → PlaybackStream → Pass
begin_pass has_target now s = record {
  stream = record s { last_data_ms = now };
  ready = not has_target;
}

-- Behind the loop.
pass_end : Round → Bool → Bool → PlaybackStream → End
pass_end r reached_eof decode_failed s =
    if s.fade_done
    then faded_out
    else if r.stopping_after
    then stopped
    else if r.lost_after
    then receiver_lost
    else if reached_eof
    then eof
    else if decode_failed
    then decode_error
    else socket_error

adopt_fade : PlaybackStream → PlaybackStream
unfolding fade_frames
adopt_fade s =
    if s.fade_out_requested
    then record s {
      fade_out_requested = false;
      fade_out = true;
      fade_out_frames = 0;
      fade_out_dur = fade_frames s;
    }
    else s

is_paused : ℕ → PlaybackStream → Bool
is_paused now s = not (s.pause_until_ms == 0) && ltb now s.pause_until_ms

end_pause : ℕ → PlaybackStream → PlaybackStream
unfolding is_paused
end_pause now s = if is_paused now s then s else record s { pause_until_ms = 0 }

-- The output is launched with the first audio behind the open gate.
launch : ℕ → ℕ → Pass → Pass
unfolding gate_open make
launch queued now p =
    let (s, open_now) = gate_open now p.stream in
    if not p.ready && (ltb 0 queued && open_now)
    then record { stream = make output_ready s; ready = true }
    else record { stream = if not p.ready && ltb 0 queued then s else p.stream; ready = p.ready }

-- The sample of the ring.
sample_ring : Round → Pass → Pass
unfolding set_queued observe
sample_ring r p =
    if p.ready && r.has_player
    then record p {
      stream = record p.stream {
        counters = set_queued r.queued p.stream.counters;
        telemetry = (observe r.queued r.now p.stream.telemetry).0;
      };
    }
    else p

throttle : Round → Pass → Pass
unfolding ring_target_samples
throttle r p =
    let target = ring_target_samples p.stream in
    if not (target == 0) && (p.ready && r.has_player)
    then (if not p.stream.ring_throttled && ltb target r.queued
        then record p { stream = record p.stream { ring_throttled = true } }
        else if p.stream.ring_throttled && ltb r.queued (target / 2)
        then record p { stream = record p.stream { ring_throttled = false } }
        else p)
    else p

-- The pace of the reads, behind a read that did not end the loop.
pace : Pass → Pass
pace p =
    let s = p.stream in
    let timeline = u64 (s.counters.fed_samples * ms_per_second) / default_sample_rate in
    let ahead = u64 (s.active_ms + pacer_lead_ms) in
    if s.pace_realtime && (not s.fade_out && ltb ahead timeline)
    then record p {
      stream = record s {
        active_ms = u64 (s.active_ms + min (timeline - ahead) pacer_max_sleep_ms);
      };
    }
    else p

-- Bytes from the source.
heard : Round → PlaybackStream → PlaybackStream
unfolding on_received
heard r s = record s {
  counters = on_received r.bytes s.counters;
  ring_empty_since_ms = 0;
  last_data_ms = r.read_at;
}

spend : ℕ → ℕ → PlaybackStream → PlaybackStream
spend from until s = record s { active_ms = u64 (s.active_ms + sub64 until from) }

fed_round : Round → Pass → PlaybackStream × Bool → Turn
unfolding launch spend pace pass_end
fed_round r p (s, false) = back s (pass_end r false true s)
fed_round r p (s, true) =
    if s.fade_done
    then back s faded_out
    else let q = launch r.queued_after r.after (record p { stream = s }) in
      again (pace (record q { stream = spend r.now r.after q.stream }))

-- Nothing came for as long as the watchdog allows.
source_is_silent : Round → PlaybackStream → Bool
source_is_silent r s =
    not (s.source_timeout_ms == 0) && leb s.source_timeout_ms (sub64 r.read_at s.last_data_ms)

-- The window of an underrun: it opens with an empty ring, and is reported once.
watch_ring : Bool → Round → PlaybackStream → PlaybackStream
unfolding output_underrun make
watch_ring paused r s =
    if not paused && output_underrun r.running r.queued_after
    then (if s.ring_empty_since_ms == 0
        then record s { ring_empty_since_ms = r.read_at }
        else if not s.underrun_fired
            && leb underrun_window_ms (sub64 r.read_at s.ring_empty_since_ms)
        then make underrun (record s { underrun_fired = true })
        else s)
    else record s { ring_empty_since_ms = 0 }

silent_round : Bool → Round → Pass → Turn
unfolding spend source_is_silent watch_ring pace pass_end
silent_round paused r p =
    let s = spend r.now r.read_at p.stream in
    if source_is_silent r s
    then (let s' = record s { disconnect = disconnect_timeout } in
        back s' (pass_end r false false s'))
    else again (pace (record p { stream = watch_ring paused r s }))

lost_source : Round → PlaybackStream → Turn
unfolding pass_end
lost_source r s =
    let s' = record s { disconnect = disconnect_remote } in back s' (pass_end r false false s')

-- The end of the track: the decoder's and the resampler's tails.
drained : Round → PlaybackStream × Bool → Turn
unfolding pass_end
drained r (s, ok) =
    let s' = record s { disconnect = disconnect_ok } in back s' (pass_end r true false s')

after_read : ReadResult → Bool → Round → Pass → Turn
unfolding heard fed_round silent_round lost_source drained pace feed
after_read data_read paused r p =
    if r.bytes == 0
    then again (pace p)
    else fed_round r p (feed r.fed true false (heard r p.stream))
after_read timeout paused r p = silent_round paused r p
after_read closed paused r p = lost_source r p.stream
after_read at_eof paused r p =
    drained r (if p.stream.has_decoder then feed r.fed true true p.stream else (p.stream, true))

-- The round from the ring's sample on.
streaming : Bool → Round → Pass → Turn
unfolding sample_ring throttle spend after_read
streaming paused r p =
    let q = throttle r (sample_ring r p) in
    if q.stream.ring_throttled
    then again
        (record q { stream = spend r.now r.after (record q.stream { last_data_ms = r.now }) })
    else after_read r.result paused r q

waits : Round → Pass → Turn
waits r p = again (record p { stream = record p.stream { last_data_ms = r.now } })

-- The round behind the gate's look.
gated : Bool → Round → Pass → PlaybackStream × Bool → Turn
unfolding waits prefill_reached launch streaming
gated paused r p (s, open_now) =
    let p' = record p { stream = s } in
    if not open_now && prefill_reached r.queued
    then waits r p'
    else streaming paused r (launch r.queued r.now p')

unfoldable pub round : Round → Pass → Turn
unfolding pass_end adopt_fade is_paused end_pause waits gated gate_open
round r p =
    let s = adopt_fade p.stream in
    let paused = is_paused r.now s in
    let s' = end_pause r.now s in
    let p' = record p { stream = s' } in
    if r.stopping || r.lost
    then back p.stream (pass_end r false false p.stream)
    else if s.fade_done
    then back s faded_out
    else if paused && not s.fade_out
    then waits r p'
    else gated paused r p' (gate_open r.now s')

-- The rounds of a pass, up to the one that ends it.
go_on : (Pass → Turn) → Turn → Turn
go_on f (again p) = f p
go_on f (back s e) = back s e

unfoldable pub run : List Round → Pass → Turn
unfolding go_on round
run [] p = again p
run (r ∷ rs) p = go_on (run rs) (round r p)
