-- ===== src/Playback/Stream/Feed/FadeSteps.antt =====
-- What a fade-out reads and writes, and how one chunk moves it.
use squeeze2raop.Base.{
  ℕ, ◌+◌, ◌-◌, ◌<◌, min, ◌≡◌, ◌∙◌, ap, arith, List, [], ◌∷◌, Bool, true, false, leb, if◌then◌else◌,
  ◌||◌, u64,
}
use squeeze2raop.Playback.Fade.{fixed_one, fade_gain_16}
use squeeze2raop.Playback.Stream.{
  PlaybackStream, Gain, untouched, scaled, Made, dropped, pushed, decoder_ready, underrun,
  output_ready, forwarded, now_playing, make,
}
use squeeze2raop.Playback.Stream.Feed.{
  Chunk, consume_skip, drop_frames, push_frames, push_rest, emit, adopt_native_rate, fire_ready,
  feed_chunk, apply_gain_fade, start_fade_in, advance_fade_in, advance_fade_out, fade_out_gain,
  gain_of, have_replay, fade_in_gain,
}

abbrev pub gain_out : Gain → ℕ
gain_out untouched = fixed_one
gain_out (scaled base fade_in fade_out) = fade_out

-- The fade-out gains of the chunks pushed so far, newest first.
abbrev pub fade_gains : List Made → List ℕ
fade_gains [] = []
fade_gains (dropped n ∷ m) = fade_gains m
fade_gains (pushed n g ∷ m) = gain_out g ∷ fade_gains m
fade_gains (decoder_ready ∷ m) = fade_gains m
fade_gains (underrun ∷ m) = fade_gains m
fade_gains (output_ready ∷ m) = fade_gains m
fade_gains (forwarded b ∷ m) = fade_gains m
fade_gains (now_playing t ∷ m) = fade_gains m

-- What a fade-out reads and writes.
pub record FadeOut : Type 0 where
  pub gains : List ℕ
  pub active : Bool
  pub finished : Bool
  pub pos : ℕ
  pub dur : ℕ
  pub to_skip : ℕ
  pub resampled : Bool

abbrev pub fade_of : PlaybackStream → FadeOut
fade_of s = record {
  gains = fade_gains s.made;
  active = s.fade_out;
  finished = s.fade_done;
  pos = s.fade_out_frames;
  dur = s.fade_out_dur;
  to_skip = s.skip_frames;
  resampled = s.has_resampler;
}

fade_of-start_fade_in : (s : PlaybackStream) → fade_of (start_fade_in s) ≡ fade_of s
unfolding start_fade_in
fade_of-start_fade_in s = ground arith

fade_of-advance_fade_in : (n : ℕ) (s : PlaybackStream) → fade_of (advance_fade_in n s) ≡ fade_of s
unfolding advance_fade_in
fade_of-advance_fade_in n s = ground arith

-- The fade behind a chunk of `n` frames.
abbrev pub stepped : ℕ → FadeOut → FadeOut
stepped n f =
    if f.finished
    then f
    else record f { pos = u64 (f.pos + n); finished = leb f.dur (u64 (f.pos + n)) }

fade_of-advance_fade_out :
    (n : ℕ) (s : PlaybackStream)
    → s.fade_out ≡ true
    → fade_of (advance_fade_out n s) ≡ stepped n (fade_of s)
unfolding advance_fade_out
fade_of-advance_fade_out n s h = ground (arith, h)

abbrev pub chunk_gain : FadeOut → ℕ
chunk_gain f = if f.finished then fixed_one else fade_gain_16 (min f.pos f.dur) f.dur false

fade_out_gain_lem :
    (s : PlaybackStream) → s.fade_out ≡ true → fade_out_gain s ≡ chunk_gain (fade_of s)
unfolding fade_out_gain
fade_out_gain_lem s h = ground (arith, h)

gain_out-gain_of :
    (replay active : Bool) (base i o : ℕ)
    → active ≡ true
    → gain_out (gain_of replay base active i o) ≡ o
unfolding gain_of
gain_out-gain_of replay active base i o h = ground (arith, h)

active_stepped : (n : ℕ) (f : FadeOut) → (stepped n f).active ≡ f.active
active_stepped n f = ground arith

apply_gain_fade_out :
    (n : ℕ) (s : PlaybackStream)
    → s.fade_out ≡ true
    → (fade_of (apply_gain_fade n s).0 ≡ stepped n (fade_of s))
      × (gain_out (apply_gain_fade n s).1 ≡ chunk_gain (fade_of s))
unfolding apply_gain_fade
apply_gain_fade_out n s h =
    let s2 = advance_fade_in n (start_fade_in s) in
    let same : fade_of s2 ≡ fade_of s =
      fade_of-advance_fade_in n (start_fade_in s) ∙ fade_of-start_fade_in s in
    let still : s2.fade_out ≡ true = ap FadeOut.active same ∙ h in
    let step = fade_of-advance_fade_out n s2 still ∙ ap (stepped n) same in
    let active : (advance_fade_out n s2).fade_out ≡ true =
      ap FadeOut.active step ∙ active_stepped n (fade_of s) ∙ h in
    (
      step,
      gain_out-gain_of (have_replay s)
            ((advance_fade_out n s2).fade_in || (advance_fade_out n s2).fade_out) s.replay_gain
            (fade_in_gain (start_fade_in s)) (fade_out_gain s2) (ground (arith, active))
          ∙ fade_out_gain_lem s2 still
          ∙ ap chunk_gain same,
    )

fade_of-push_frames :
    (n pending : ℕ) (s : PlaybackStream)
    → s.fade_out ≡ true
    → fade_of (push_frames n pending s)
      ≡ record (stepped n (fade_of s)) { gains = chunk_gain (fade_of s) ∷ fade_gains s.made }
unfolding push_frames make
fade_of-push_frames n pending s h =
    let (state, gain) = apply_gain_fade_out n s h in ground (arith, state, gain)

consume_skip_nothing : (n : ℕ) (s : PlaybackStream) → s.skip_frames ≡ 0 → consume_skip n s ≡ (s, 0)
unfolding consume_skip
consume_skip_nothing n s k = ground (arith, k)

push_whole :
    (n pending : ℕ) (s : PlaybackStream)
    → 0 < n
    → push_rest true (n - 0) pending (drop_frames 0 pending s) ≡ push_frames n pending s
unfolding push_rest drop_frames
push_whole n pending s pos = ground arith

fade_of-emit :
    (n pending : ℕ) (s : PlaybackStream)
    → s.fade_out ≡ true
    → s.skip_frames ≡ 0
    → 0 < n
    → fade_of (emit true n pending s)
      ≡ record (stepped n (fade_of s)) { gains = chunk_gain (fade_of s) ∷ fade_gains s.made }
unfolding emit
fade_of-emit n pending s h k pos =
    ap
      (λ (r : PlaybackStream × ℕ).
        fade_of (push_rest true (n - r.1) pending (drop_frames r.1 pending r.0)))
      (consume_skip_nothing n s k)
    ∙ ap fade_of (push_whole n pending s pos)
    ∙ fade_of-push_frames n pending s h

fade_of-ready :
    (rate : ℕ) (s : PlaybackStream)
    → s.has_resampler ≡ true
    → fade_of (fire_ready (adopt_native_rate rate s)) ≡ fade_of s
unfolding fire_ready adopt_native_rate make
fade_of-ready rate s h = ground arith

pub fade_of-feed_chunk :
    (c : Chunk) (s : PlaybackStream)
    → s.has_resampler ≡ true
    → s.fade_out ≡ true
    → s.skip_frames ≡ 0
    → 0 < c.frames
    → fade_of (feed_chunk true c s)
      ≡ record (stepped c.frames (fade_of s)) { gains = chunk_gain (fade_of s) ∷ fade_gains s.made }
unfolding feed_chunk
fade_of-feed_chunk c s r h k pos =
    let s' = fire_ready (adopt_native_rate c.native_rate s) in
    let same = fade_of-ready c.native_rate s r in
    ground (arith, same, fade_of-emit c.frames c.pending s')
