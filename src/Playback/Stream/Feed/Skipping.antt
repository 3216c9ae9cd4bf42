-- ===== src/Playback/Stream/Feed/Skipping.antt =====
-- Skip-ahead: every frame is dropped or handed to the output, and what becomes of the requests.
use squeeze2raop.Base.{
  ℕ, ◌+◌, ◌-◌, ◌*◌, ◌/◌, ◌^◌, ◌<◌, min, ◌≡◌, refl, ◌∙◌, ap, arith, List, [], ◌∷◌, Bool, true, u64,
  ◌==◌, ◌||◌, if◌then◌else◌,
}
use squeeze2raop.Playback.Stream.{
  PlaybackStream, Made, dropped, pushed, decoder_ready, underrun, output_ready, forwarded,
  now_playing, make, skip_ahead, skip_frames_for,
}
use squeeze2raop.Playback.Stream.Feed.{
  Chunk, store_skip, emit_overtaken, feed_overtaken, consume_skip, drop_frames, push_frames,
  push_rest, emit, adopt_native_rate, fire_ready, feed_chunk, apply_gain_fade, start_fade_in,
  advance_fade_in, advance_fade_out,
}
use squeeze2raop.Playback.Counters.{on_fed}
use squeeze2raop.Lms.Protocol.{default_sample_rate}

-- The frames dropped and handed to the output so far.
abbrev pub dropped_frames : List Made → ℕ
dropped_frames [] = 0
dropped_frames (dropped n ∷ m) = n + dropped_frames m
dropped_frames (pushed n g ∷ m) = dropped_frames m
dropped_frames (decoder_ready ∷ m) = dropped_frames m
dropped_frames (underrun ∷ m) = dropped_frames m
dropped_frames (output_ready ∷ m) = dropped_frames m
dropped_frames (forwarded b ∷ m) = dropped_frames m
dropped_frames (now_playing t ∷ m) = dropped_frames m

abbrev pub pushed_frames : List Made → ℕ
pushed_frames [] = 0
pushed_frames (dropped n ∷ m) = pushed_frames m
pushed_frames (pushed n g ∷ m) = n + pushed_frames m
pushed_frames (decoder_ready ∷ m) = pushed_frames m
pushed_frames (underrun ∷ m) = pushed_frames m
pushed_frames (output_ready ∷ m) = pushed_frames m
pushed_frames (forwarded b ∷ m) = pushed_frames m
pushed_frames (now_playing t ∷ m) = pushed_frames m

-- The reader thread asks for a skip, the pump emits a chunk, or a skip is asked for while the pump emits
-- a chunk, between the load and the store of the frames to drop.
pub data Audio : Type 0 where
  skip : ℕ → Audio
  chunk : Chunk → Audio
  overtaken : ℕ → Chunk → Audio

unfoldable pub play : List Audio → PlaybackStream → PlaybackStream
unfolding skip_ahead feed_chunk feed_overtaken
play [] s = s
play (skip ms ∷ xs) s = play xs (skip_ahead ms s)
play (chunk c ∷ xs) s = play xs (feed_chunk true c s)
play (overtaken ms c ∷ xs) s = play xs (feed_overtaken ms true c s)

-- The frames that come, and the frames that are asked to be dropped.
abbrev pub frames_in : List Audio → ℕ
frames_in [] = 0
frames_in (skip ms ∷ xs) = frames_in xs
frames_in (chunk c ∷ xs) = c.frames + frames_in xs
frames_in (overtaken ms c ∷ xs) = c.frames + frames_in xs

abbrev pub frames_asked : List Audio → ℕ
frames_asked [] = 0
frames_asked (skip ms ∷ xs) = u64 (ms * default_sample_rate) / 1000 + frames_asked xs
frames_asked (chunk c ∷ xs) = frames_asked xs
frames_asked (overtaken ms c ∷ xs) = u64 (ms * default_sample_rate) / 1000 + frames_asked xs

request_lost : ℕ → ℕ → PlaybackStream → ℕ
request_lost ms n s =
    if s.skip_frames == 0 || n == 0 then 0 else u64 (ms * default_sample_rate) / 1000

-- The frames asked for by requests that are lost: those that come between the load and the store while
-- frames are dropped of the chunk, so that the store overwrites them.
unfoldable pub frames_lost : List Audio → PlaybackStream → ℕ
unfolding skip_ahead feed_chunk feed_overtaken request_lost
frames_lost [] s = 0
frames_lost (skip ms ∷ xs) s = frames_lost xs (skip_ahead ms s)
frames_lost (chunk c ∷ xs) s = frames_lost xs (feed_chunk true c s)
frames_lost (overtaken ms c ∷ xs) s =
    request_lost ms c.frames s + frames_lost xs (feed_overtaken ms true c s)

-- The account of a stream: the frames dropped, pushed, counted as played, and still to drop. Without a
-- resampler, before the decoder knows its rate, a chunk is not emitted.
pub record Account : Type 0 where
  pub gone : ℕ
  pub out : ℕ
  pub played : ℕ
  pub left : ℕ
  pub resampled : Bool

abbrev pub account : PlaybackStream → Account
account s = record {
  gone = dropped_frames s.made;
  out = pushed_frames s.made;
  played = s.counters.fed_samples;
  left = s.skip_frames;
  resampled = s.has_resampler;
}

account-start_fade_in : (s : PlaybackStream) → account (start_fade_in s) ≡ account s
unfolding start_fade_in
account-start_fade_in s = ground arith

account-advance_fade_in : (n : ℕ) (s : PlaybackStream) → account (advance_fade_in n s) ≡ account s
unfolding advance_fade_in
account-advance_fade_in n s = ground arith

account-advance_fade_out : (n : ℕ) (s : PlaybackStream) → account (advance_fade_out n s) ≡ account s
unfolding advance_fade_out
account-advance_fade_out n s = ground arith

account-apply_gain_fade : (n : ℕ) (s : PlaybackStream) → account (apply_gain_fade n s).0 ≡ account s
unfolding apply_gain_fade
account-apply_gain_fade n s =
    account-advance_fade_out n (advance_fade_in n (start_fade_in s))
    ∙ account-advance_fade_in n (start_fade_in s)
    ∙ account-start_fade_in s

account-push_frames :
    (n pending : ℕ) (s : PlaybackStream)
    → account (push_frames n pending s) ≡ record (account s) {
      out = n + pushed_frames s.made;
      played = u64 (s.counters.fed_samples + n);
    }
unfolding push_frames make on_fed
account-push_frames n pending s = ground (arith, account-apply_gain_fade n s)

account-drop_frames :
    (n pending : ℕ) (s : PlaybackStream)
    → s.counters.fed_samples < 2 ^ 64
    → account (drop_frames n pending s) ≡ record (account s) {
      gone = n + dropped_frames s.made;
      played = u64 (s.counters.fed_samples + n);
    }
unfolding drop_frames make on_fed
account-drop_frames n pending s h = ground arith

account-consume_skip :
    (n : ℕ) (s : PlaybackStream)
    → ((consume_skip n s).1 ≡ min s.skip_frames n)
      × (account (consume_skip n s).0
          ≡ record (account s) { left = s.skip_frames - min s.skip_frames n })
unfolding consume_skip store_skip
account-consume_skip n s = (ground arith, ground arith)

account-emit :
    (n pending : ℕ) (s : PlaybackStream)
    → s.counters.fed_samples < 2 ^ 64
    → account (emit true n pending s) ≡ record {
      gone = min s.skip_frames n + dropped_frames s.made;
      out = (n - min s.skip_frames n) + pushed_frames s.made;
      played = u64 (s.counters.fed_samples + n);
      left = s.skip_frames - min s.skip_frames n;
      resampled = s.has_resampler;
    }
unfolding emit push_rest
account-emit n pending s h =
    let s' = (consume_skip n s).0 in
    let k = (consume_skip n s).1 in
    ground (
      arith,
      account-consume_skip n s,
      account-drop_frames k pending s',
      account-push_frames (n - k) pending (drop_frames k pending s'),
    )

account-ready :
    (rate : ℕ) (s : PlaybackStream)
    → s.has_resampler ≡ true
    → (account (fire_ready (adopt_native_rate rate s)) ≡ account s)
      × ((fire_ready (adopt_native_rate rate s)).has_resampler ≡ true)
unfolding fire_ready adopt_native_rate make
account-ready rate s h = (ground arith, ground arith)

account-feed_chunk :
    (c : Chunk) (s : PlaybackStream)
    → s.has_resampler ≡ true
    → s.counters.fed_samples < 2 ^ 64
    → account (feed_chunk true c s) ≡ record {
      gone = min s.skip_frames c.frames + dropped_frames s.made;
      out = (c.frames - min s.skip_frames c.frames) + pushed_frames s.made;
      played = u64 (s.counters.fed_samples + c.frames);
      left = s.skip_frames - min s.skip_frames c.frames;
      resampled = true;
    }
unfolding feed_chunk
account-feed_chunk c s h small =
    let s' = fire_ready (adopt_native_rate c.native_rate s) in
    ground (arith, account-ready c.native_rate s h, account-emit c.frames c.pending s')

account-skip_ahead :
    (ms : ℕ) (s : PlaybackStream)
    → account (skip_ahead ms s)
      ≡ record (account s) { left = u64 (s.skip_frames + u64 (ms * default_sample_rate) / 1000) }
unfolding skip_ahead skip_frames_for
account-skip_ahead ms s = refl

-- The request of an overtaken chunk is kept when nothing is dropped of the chunk, and else overwritten.
left_overtaken : ℕ → ℕ → PlaybackStream → ℕ
left_overtaken ms n s =
    if s.skip_frames == 0 || n == 0
    then u64 (s.skip_frames + u64 (ms * default_sample_rate) / 1000)
    else s.skip_frames - min s.skip_frames n

left_overtaken_lem :
    (ms n : ℕ) (s : PlaybackStream)
    → s.skip_frames + u64 (ms * default_sample_rate) / 1000 < 2 ^ 64
    → min s.skip_frames n + left_overtaken ms n s + request_lost ms n s
      ≡ s.skip_frames + u64 (ms * default_sample_rate) / 1000
unfolding left_overtaken request_lost
left_overtaken_lem ms n s fits = ground arith

account-store_skip :
    (ms n : ℕ) (s : PlaybackStream)
    → ((store_skip s.skip_frames n (skip_ahead ms s)).1 ≡ min s.skip_frames n)
      × (account (store_skip s.skip_frames n (skip_ahead ms s)).0
          ≡ record (account s) { left = left_overtaken ms n s })
unfolding store_skip skip_ahead skip_frames_for left_overtaken
account-store_skip ms n s = (ground arith, ground arith)

account-emit_overtaken :
    (ms n pending : ℕ) (s : PlaybackStream)
    → s.counters.fed_samples < 2 ^ 64
    → account (emit_overtaken ms true n pending s) ≡ record {
      gone = min s.skip_frames n + dropped_frames s.made;
      out = (n - min s.skip_frames n) + pushed_frames s.made;
      played = u64 (s.counters.fed_samples + n);
      left = left_overtaken ms n s;
      resampled = s.has_resampler;
    }
unfolding emit_overtaken push_rest
account-emit_overtaken ms n pending s h =
    let s' = (store_skip s.skip_frames n (skip_ahead ms s)).0 in
    let k = (store_skip s.skip_frames n (skip_ahead ms s)).1 in
    ground (
      arith,
      account-store_skip ms n s,
      account-drop_frames k pending s',
      account-push_frames (n - k) pending (drop_frames k pending s'),
    )

account-feed_overtaken :
    (ms : ℕ) (c : Chunk) (s : PlaybackStream)
    → s.has_resampler ≡ true
    → s.counters.fed_samples < 2 ^ 64
    → account (feed_overtaken ms true c s) ≡ record {
      gone = min s.skip_frames c.frames + dropped_frames s.made;
      out = (c.frames - min s.skip_frames c.frames) + pushed_frames s.made;
      played = u64 (s.counters.fed_samples + c.frames);
      left = left_overtaken ms c.frames s;
      resampled = true;
    }
unfolding feed_overtaken left_overtaken
account-feed_overtaken ms c s h small =
    let s' = fire_ready (adopt_native_rate c.native_rate s) in
    ground (arith, account-ready c.native_rate s h, account-emit_overtaken ms c.frames c.pending s')

-- Over any sequence of chunks of a resampled stream and requests to skip, also requests that come while
-- a chunk is emitted, as long as the frames to drop fit a uint64_t: every frame that comes is either
-- dropped or handed to the output, and all of them count as played. The frames dropped, those still to
-- drop and those of lost requests are together those that were asked for; a request is lost exactly
-- when it comes between the load and the store of a chunk of which frames are dropped.
pub play-account :
    (xs : List Audio) (s : PlaybackStream)
    → s.has_resampler ≡ true
    → s.counters.fed_samples < 2 ^ 64
    → s.skip_frames + frames_asked xs < 2 ^ 64
    → (dropped_frames (play xs s).made + pushed_frames (play xs s).made
        ≡ dropped_frames s.made + pushed_frames s.made + frames_in xs)
      × ((play xs s).counters.fed_samples ≡ u64 (s.counters.fed_samples + frames_in xs))
      × (dropped_frames (play xs s).made + (play xs s).skip_frames + frames_lost xs s
          ≡ dropped_frames s.made + s.skip_frames + frames_asked xs)
unfolding play frames_lost
play-account [] s h small fits = (omega arith, omega arith, omega arith)
play-account (skip ms ∷ xs) s h small fits =
    let t = skip_ahead ms s in
    let step = account-skip_ahead ms s in
    let played = ap Account.played step in
    let left = ap Account.left step in
    let (frames, samples, asked) =
      play-account xs t (ap Account.resampled step ∙ h) (omega (arith, played))
        (omega (arith, left)) in
    (
      omega (arith, ap Account.gone step, ap Account.out step, frames),
      samples ∙ ground (arith, played),
      omega (arith, ap Account.gone step, left, asked),
    )
play-account (chunk c ∷ xs) s h small fits =
    let t = feed_chunk true c s in
    let step = account-feed_chunk c s h small in
    let played = ap Account.played step in
    let left = ap Account.left step in
    let (frames, samples, asked) =
      play-account xs t (ap Account.resampled step) (omega (arith, played)) (omega (arith, left)) in
    (
      omega (arith, ap Account.gone step, ap Account.out step, frames),
      omega (arith, samples, played),
      omega (arith, ap Account.gone step, left, asked),
    )
play-account (overtaken ms c ∷ xs) s h small fits =
    let t = feed_overtaken ms true c s in
    let step = account-feed_overtaken ms c s h small in
    let played = ap Account.played step in
    let left = ap Account.left step in
    let kept = left_overtaken_lem ms c.frames s (omega arith) in
    let (frames, samples, asked) =
      play-account xs t (ap Account.resampled step) (omega (arith, played))
        (omega (arith, left, kept)) in
    (
      omega (arith, ap Account.gone step, ap Account.out step, frames),
      omega (arith, samples, played),
      omega (arith, ap Account.gone step, left, kept, asked),
    )
