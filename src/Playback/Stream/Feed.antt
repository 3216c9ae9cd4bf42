-- ===== src/Playback/Stream/Feed.antt =====
-- The audio path of the pump: skip-ahead, replay gain and fades, and what is pushed to the ring. A
-- chunk is known by its number of frames; samples, resampling and clamping are left out.
pub mod Skipping
pub mod FadeSteps
pub mod Fading
pub mod Reports
use squeeze2raop.Base.{
  ℕ, ◌+◌, ◌-◌, ◌*◌, ◌/◌, ◌^◌, List, [], ◌∷◌, Bool, true, false, not, ◌&&◌, ◌||◌, ltb, leb, ◌==◌,
  if◌then◌else◌, u32, u64, min,
}
use squeeze2raop.Lms.Protocol.{default_sample_rate, default_channels}
use squeeze2raop.Playback.Counters.{on_fed}
use squeeze2raop.Playback.Fade.{fixed_one, fade_gain_16}
use squeeze2raop.Playback.Stream.{
  PlaybackStream, Gain, untouched, scaled, dropped, pushed, decoder_ready, make, skip_ahead,
  fade_mode_in, fade_mode_in_out,
}

-- `consumeSkip` behind its load: `want` is what was loaded, and the stream is the one at the store,
-- which the reader thread may have asked to skip since.
unfoldable pub store_skip : ℕ → ℕ → PlaybackStream → PlaybackStream × ℕ
store_skip want frames s =
    if want == 0 || frames == 0
    then (s, 0)
    else (record s { skip_frames = want - min want frames }, min want frames)

-- The frames to drop of a chunk, when no request comes between the load and the store.
unfoldable pub consume_skip : ℕ → PlaybackStream → PlaybackStream × ℕ
unfolding store_skip
consume_skip frames s = store_skip s.skip_frames frames s

-- The duration of a fade in frames.
unfoldable pub fade_frames : PlaybackStream → ℕ
fade_frames s = u32 (u64 (s.fade_secs * default_sample_rate))

-- The first emitted chunk starts the fade-in.
pub start_fade_in : PlaybackStream → PlaybackStream
unfolding fade_frames
start_fade_in s =
    if not s.fade_in
      && (not s.fade_in_done
          && (not s.fade_out
              && (ltb 0 s.fade_secs
                  && (s.fade_mode == fade_mode_in || s.fade_mode == fade_mode_in_out))))
    then record s { fade_in = true; fade_in_frames = 0; fade_in_dur = fade_frames s }
    else s

pub fade_in_gain : PlaybackStream → ℕ
unfolding fade_gain_16
fade_in_gain s =
    if s.fade_in
    then fade_gain_16 (min s.fade_in_frames s.fade_in_dur) s.fade_in_dur true
    else fixed_one

pub advance_fade_in : ℕ → PlaybackStream → PlaybackStream
advance_fade_in frames s =
    if s.fade_in
    then (if leb s.fade_in_dur (u64 (s.fade_in_frames + frames))
        then record s {
          fade_in_frames = u64 (s.fade_in_frames + frames);
          fade_in = false;
          fade_in_done = true;
        }
        else record s { fade_in_frames = u64 (s.fade_in_frames + frames) })
    else s

unfoldable pub fade_out_gain : PlaybackStream → ℕ
unfolding fade_gain_16
fade_out_gain s =
    if s.fade_out && not s.fade_done
    then fade_gain_16 (min s.fade_out_frames s.fade_out_dur) s.fade_out_dur false
    else fixed_one

unfoldable pub advance_fade_out : ℕ → PlaybackStream → PlaybackStream
advance_fade_out frames s =
    if s.fade_out && not s.fade_done
    then record s {
      fade_out_frames = u64 (s.fade_out_frames + frames);
      fade_done = leb s.fade_out_dur (u64 (s.fade_out_frames + frames));
    }
    else s

pub have_replay : PlaybackStream → Bool
have_replay s = not (s.replay_gain == 0) && not (s.replay_gain == fixed_one)

-- The replay gain and both fades; a chunk that nothing changes is left as it is.
pub gain_of : Bool → ℕ → Bool → ℕ → ℕ → Gain
gain_of replay base active fade_in fade_out =
    if not replay && not (active || (not (fade_in == fixed_one) || not (fade_out == fixed_one)))
    then untouched
    else scaled (if replay then base else fixed_one) fade_in fade_out

unfoldable pub apply_gain_fade : ℕ → PlaybackStream → PlaybackStream × Gain
unfolding start_fade_in fade_in_gain advance_fade_in fade_out_gain advance_fade_out have_replay
    gain_of
apply_gain_fade frames s =
    let s1 = start_fade_in s in
    let s2 = advance_fade_in frames s1 in
    let s3 = advance_fade_out frames s2 in
    (
      s3,
      gain_of (have_replay s) s.replay_gain (s3.fade_in || s3.fade_out) (fade_in_gain s1)
          (fade_out_gain s2),
    )

-- The dropped frames count as played.
pub drop_frames : ℕ → ℕ → PlaybackStream → PlaybackStream
unfolding make on_fed
drop_frames n pending s =
    if n == 0
    then s
    else make (dropped n)
        (record s { counters = on_fed (n * default_channels) default_channels pending s.counters })

-- The call of `output_.push`: the frames are handed to it and counted whatever it answers. It gives up
-- part way when the stream is stopped or the receiver is lost, and drops what is left.
pub push_frames : ℕ → ℕ → PlaybackStream → PlaybackStream
unfolding make on_fed apply_gain_fade
push_frames n pending s =
    let (s', gain) = apply_gain_fade n s in
    let s'' = make (pushed n gain) s' in
    record s'' { counters = on_fed (n * default_channels) default_channels pending s''.counters }

-- A chunk of which nothing is left, and one of a paused drain, is not pushed.
pub push_rest : Bool → ℕ → ℕ → PlaybackStream → PlaybackStream
push_rest to_output n pending s = if n == 0 || not to_output then s else push_frames n pending s

-- One resampled chunk.
unfoldable pub emit : Bool → ℕ → ℕ → PlaybackStream → PlaybackStream
unfolding consume_skip drop_frames push_frames push_rest
emit to_output frames pending s =
    let r = consume_skip frames s in
    push_rest to_output (frames - r.1) pending (drop_frames r.1 pending r.0)

-- One resampled chunk, with a request to skip that comes between the load and the store.
unfoldable pub emit_overtaken : ℕ → Bool → ℕ → ℕ → PlaybackStream → PlaybackStream
unfolding store_skip drop_frames push_frames push_rest skip_ahead
emit_overtaken ms to_output frames pending s =
    let r = store_skip s.skip_frames frames (skip_ahead ms s) in
    push_rest to_output (frames - r.1) pending (drop_frames r.1 pending r.0)

-- What the decoder and the resampler answer for a chunk: the native rate, the frames at the rate of
-- the output, and the bytes that the decoder still holds.
pub record Chunk : Type 0 where
  pub native_rate : ℕ
  pub frames : ℕ
  pub pending : ℕ

-- The resampler is made again when the native rate changes.
pub adopt_native_rate : ℕ → PlaybackStream → PlaybackStream
adopt_native_rate rate s =
    if not (rate == 0) && (not (rate == s.source_rate) || not s.has_resampler)
    then record s { source_rate = rate; has_resampler = true }
    else s

pub fire_ready : PlaybackStream → PlaybackStream
unfolding make
fire_ready s =
    if s.decoder_ready_fired
    then s
    else make decoder_ready (record s { decoder_ready_fired = true })

pub feed_chunk : Bool → Chunk → PlaybackStream → PlaybackStream
unfolding adopt_native_rate fire_ready emit
feed_chunk to_output c s =
    let s' = fire_ready (adopt_native_rate c.native_rate s) in
    if s'.has_resampler then emit to_output c.frames c.pending s' else s'

-- A chunk that a request to skip overtakes.
pub feed_overtaken : ℕ → Bool → Chunk → PlaybackStream → PlaybackStream
unfolding adopt_native_rate fire_ready emit_overtaken skip_ahead
feed_overtaken ms to_output c s =
    let s' = fire_ready (adopt_native_rate c.native_rate s) in
    if s'.has_resampler then emit_overtaken ms to_output c.frames c.pending s' else skip_ahead ms s'

pub feed_chunks : Bool → List Chunk → PlaybackStream → PlaybackStream
unfolding feed_chunk
feed_chunks to_output [] s = s
feed_chunks to_output (c ∷ cs) s = feed_chunks to_output cs (feed_chunk to_output c s)

-- The chunks of one call, whether the decoder failed behind them, and the resampler's tail.
pub record Fed : Type 0 where
  pub chunks : List Chunk
  pub has_error : Bool
  pub tail_frames : ℕ
  pub tail_pending : ℕ

unfoldable pub feed : Fed → Bool → Bool → PlaybackStream → PlaybackStream × Bool
unfolding feed_chunks emit
feed f to_output end_of_input s =
    let s' = feed_chunks to_output f.chunks s in
    if not s.has_decoder
    then (s, true)
    else if f.has_error
    then (s', false)
    else if end_of_input && s'.has_resampler
    then (emit to_output f.tail_frames f.tail_pending s', true)
    else (s', true)
