-- ===== src/Playback/Stream/Runs.antt =====
-- A stream on concrete chunks and rounds, and the theorems about it there.
use squeeze2raop.Base.{
  ℕ, ◌==◌, ◌||◌, ◌+◌, ◌-◌, ◌^◌, ◌≡◌, refl, arith, List, [], ◌∷◌, true, false, codes, u32, u64, leb,
  if◌then◌else◌,
}
use squeeze2raop.Lms.Stream.{timeout}
use squeeze2raop.Playback.Counters
use squeeze2raop.Playback.Telemetry
use squeeze2raop.Playback.Fade.{fade_gain_16}
use squeeze2raop.Playback.Coordinator.State.{socket_error}
use squeeze2raop.Playback.Stream.{
  PlaybackStream, map_open_error, disconnect_none, disconnect_timeout, disconnect_unreachable,
  unpause, gate_open, fade_mode_none, fade_mode_out,
}
use squeeze2raop.Playback.Stream.Starting.{unpause-gate_open}
use squeeze2raop.Playback.Stream.Feed.{Chunk, Fed, feed_chunks}
use squeeze2raop.Playback.Stream.Feed.Skipping.{
  frames_lost, overtaken, Audio, skip, chunk, play, dropped_frames, pushed_frames, frames_in,
  frames_asked, play-account,
}
use squeeze2raop.Playback.Stream.Feed.FadeSteps.{fade_gains}
use squeeze2raop.Playback.Stream.Feed.Fading.{ramp, total_frames, feed_chunks-ramp}
use squeeze2raop.Playback.Stream.Feed.Reports.{underruns, readies}
use squeeze2raop.Playback.Stream.Run.{again, round, Round, Pass, back, run}
use squeeze2raop.Playback.Stream.Run.Reports.{turn, unpaused, live, live-reports}
use squeeze2raop.Playback.Stream.Run.Watchdog.{
  ring_target, watch_of, playing, IsSilent, run-watchdog,
}

open_error : map_open_error (codes "connect failed") ≡ disconnect_unreachable
unfolding map_open_error
open_error = refl

abbrev new_stream : PlaybackStream
new_stream = record {
  counters = Counters.initial;
  telemetry = Telemetry.initial;
  pace_realtime = true;
  source_timeout_ms = 30000;
  buffer_ms = 0;
  has_decoder = true;
  source_rate = 44100;
  has_resampler = true;
  pause_until_ms = 0;
  skip_frames = 0;
  output_gate_until_ms = 0;
  fade_out_requested = false;
  active_ms = 0;
  last_title = [];
  disconnect = disconnect_none;
  replay_gain = 0;
  fade_mode = fade_mode_none;
  fade_secs = 0;
  fade_in = false;
  fade_in_done = false;
  fade_out = false;
  fade_done = false;
  fade_in_frames = 0;
  fade_in_dur = 0;
  fade_out_frames = 0;
  fade_out_dur = 0;
  decoder_ready_fired = false;
  underrun_fired = false;
  ring_throttled = false;
  ring_empty_since_ms = 0;
  last_data_ms = 1000;
  made = [];
}

-- The clock wraps before the start that is asked for.
unpause-gate_open_example :
    ((unpause (u32 (4294967290 + 50)) 4294967290 new_stream).pause_until_ms ≡ 0)
    × ((gate_open 4294967300 (unpause (u32 (4294967290 + 50)) 4294967290 new_stream)).1
        ≡ (if 50 == 0 || leb (2 ^ 31) 50 then true else leb (4294967290 + 50) 4294967300))
    × ((gate_open 4294967300 (unpause (u32 (4294967290 + (2 ^ 32 - 50))) 4294967290 new_stream)).1
        ≡ true)
    × ((gate_open 4294967300 (unpause 0 4294967290 new_stream)).1 ≡ (
        if leb (u32 4294967290) (2 ^ 31)
        then true
        else leb (4294967290 + (2 ^ 32 - u32 4294967290)) 4294967300))
unpause-gate_open_example =
    unpause-gate_open new_stream 4294967290 50 4294967300 (omega arith) (omega arith)

abbrev piece : ℕ → Chunk
piece n = record { native_rate = 44100; frames = n; pending = 0 }

abbrev skipping : List Audio
skipping = chunk (piece 1152) ∷ skip 20 ∷ overtaken 10 (piece 600) ∷ chunk (piece 600) ∷ []

play-account_example :
    (dropped_frames (play skipping new_stream).made + pushed_frames (play skipping new_stream).made
      ≡ dropped_frames new_stream.made + pushed_frames new_stream.made + frames_in skipping)
    × ((play skipping new_stream).counters.fed_samples
        ≡ u64 (new_stream.counters.fed_samples + frames_in skipping))
    × (dropped_frames (play skipping new_stream).made
          + (play skipping new_stream).skip_frames
          + frames_lost skipping new_stream
        ≡ dropped_frames new_stream.made + new_stream.skip_frames + frames_asked skipping)
play-account_example = play-account skipping new_stream refl (omega arith) (omega arith)

-- A fade-out of 100 frames that ends in the second of three chunks.
abbrev fading_out : PlaybackStream
fading_out = record new_stream {
  fade_out = true;
  fade_out_dur = 100;
  fade_secs = 1;
  fade_mode = fade_mode_out;
}

abbrev pieces : List Chunk
pieces = piece 60 ∷ piece 60 ∷ piece 60 ∷ []

full_gain_behind : ramp 100 0 pieces [] ≡ 65536 ∷ 26215 ∷ 65536 ∷ []
unfolding ramp fade_gain_16
full_gain_behind = refl

feed_chunks-ramp_example :
    (fade_gains (feed_chunks true pieces fading_out).made ≡ ramp 100 0 pieces [])
    × ((feed_chunks true pieces fading_out).fade_done ≡ leb 100 (total_frames pieces))
feed_chunks-ramp_example =
    feed_chunks-ramp pieces fading_out refl refl refl (omega arith) refl refl (omega arith)
      (omega arith)

abbrev nothing_fed : Fed
nothing_fed = record { chunks = []; has_error = false; tail_frames = 0; tail_pending = 0 }

abbrev silence : ℕ → Round
silence t = record {
  stopping = false;
  stopping_after = false;
  lost = false;
  lost_after = false;
  has_player = true;
  running = true;
  queued = 0;
  queued_after = 0;
  now = t - 150;
  read_at = t;
  after = t;
  result = timeout;
  bytes = 0;
  fed = nothing_fed;
}

abbrev playing_pass : Pass
playing_pass = record { stream = new_stream; ready = true }

abbrev buffered_pass : Pass
buffered_pass = record { stream = record new_stream { buffer_ms = 500 }; ready = true }

live-reports_example :
    let s =
      (live
        (turn (silence 2000) ∷ turn (silence 3100) ∷ unpaused 0 3200 ∷ turn (silence 4300) ∷ [])
        playing_pass).stream in
    (underruns s.made ≡ (if s.underrun_fired then 1 else 0))
    × (readies s.made ≡ (if s.decoder_ready_fired then 1 else 0))
live-reports_example =
    live-reports
      (turn (silence 2000) ∷ turn (silence 3100) ∷ unpaused 0 3200 ∷ turn (silence 4300) ∷ [])
      playing_pass refl refl refl refl

silence-IsSilent : (t : ℕ) → IsSilent 500 (silence t)
unfolding ring_target
silence-IsSilent t = record {
  calm = refl;
  going = refl;
  going_after = refl;
  there = refl;
  there_after = refl;
  nothing = refl;
}

run-watchdog_example :
    (q : Pass) × (run (silence 2000 ∷ silence 30999 ∷ []) buffered_pass ≡ again q)
    × (watch_of q.stream ≡ playing 500 30000 1000)
    × (s : PlaybackStream) × (round (silence 31149) q ≡ back s socket_error)
    × (run (silence 2000 ∷ silence 30999 ∷ silence 31149 ∷ silence 32000 ∷ []) buffered_pass
        ≡ back s socket_error)
    × (s.disconnect ≡ disconnect_timeout)
run-watchdog_example =
    run-watchdog (silence 2000 ∷ silence 30999 ∷ []) (silence 32000 ∷ []) (silence 31149)
      buffered_pass 500 30000 1000 refl (omega arith)
      ((silence-IsSilent 2000, omega arith), ((silence-IsSilent 30999, omega arith), tt))
      (silence-IsSilent 31149) (omega arith)
