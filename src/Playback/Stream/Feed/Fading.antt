-- ===== src/Playback/Stream/Feed/Fading.antt =====
-- A fade-out over the chunks of a read: the gain of each, and when it is done.
use mathlib.Core.Path.{sym, subst}
use squeeze2raop.Base.{
  ℕ, ◌+◌, ◌^◌, ◌<◌, ◌≡◌, refl, ◌∙◌, ap, arith, List, [], ◌∷◌, true, false, leb, if◌then◌else◌, All,
  Bool-cases, inl, inr,
}
use squeeze2raop.Playback.Fade.{fixed_one, fade_gain_16}
use squeeze2raop.Playback.Stream.{PlaybackStream}
use squeeze2raop.Playback.Stream.Feed.{Chunk, feed_chunk, feed_chunks}
use squeeze2raop.Playback.Stream.Feed.FadeSteps.{
  fade_gains, FadeOut, fade_of, stepped, chunk_gain, fade_of-feed_chunk,
}

-- What a chunk at frame `pos` of the fade gets: the falling ramp, and behind its end the full gain.
abbrev pub ramp_gain : ℕ → ℕ → ℕ
ramp_gain dur pos = if leb dur pos then fixed_one else fade_gain_16 pos dur false

-- The gains of the chunks that follow at `pos`, put before those that were.
unfoldable pub ramp : ℕ → ℕ → List Chunk → List ℕ → List ℕ
ramp dur pos [] gains = gains
ramp dur pos (c ∷ cs) gains = ramp dur (pos + c.frames) cs (ramp_gain dur pos ∷ gains)

abbrev pub total_frames : List Chunk → ℕ
total_frames [] = 0
total_frames (c ∷ cs) = c.frames + total_frames cs

-- The fade stands at frame `v`, counted also behind its end.
record StandsAt (dur v : ℕ) (f : FadeOut) : Type 0 where
  active : f.active ≡ true
  plain : f.to_skip ≡ 0
  resampled : f.resampled ≡ true
  length : f.dur ≡ dur
  finished : f.finished ≡ leb dur v
  place : f.finished ≡ false → f.pos ≡ v

stepped-StandsAt :
    (dur v n : ℕ) (f : FadeOut) (gains : List ℕ)
    → v + n < 2 ^ 64
    → StandsAt dur v f
    → StandsAt dur (v + n) (record (stepped n f) { gains = gains })
stepped-StandsAt dur v n f gains fits h = elim (Bool-cases f.finished) [
  | inl e ↦ record {
    active = ground (arith, e, h.active);
    plain = ground (arith, e, h.plain);
    resampled = ground (arith, e, h.resampled);
    length = ground (arith, e, h.length);
    finished = ground (arith, e, h.finished);
    place = λ no_end. ground (arith, e, no_end);
  }
  | inr e ↦ record {
    active = ground (arith, e, h.active);
    plain = ground (arith, e, h.plain);
    resampled = ground (arith, e, h.resampled);
    length = ground (arith, e, h.length);
    finished = ground (arith, e, h.length, h.place e);
    place = λ on_way. ground (arith, e, h.place e);
  }
]

chunk_gain-StandsAt : (dur v : ℕ) (f : FadeOut) → StandsAt dur v f → chunk_gain f ≡ ramp_gain dur v
chunk_gain-StandsAt dur v f h = elim (Bool-cases f.finished) [
  | inl e ↦ ground (arith, e, h.finished)
  | inr e ↦ ground (arith, e, h.finished, h.place e, h.length)
]

feed_chunks-StandsAt :
    (cs : List Chunk) (dur v : ℕ) (s : PlaybackStream)
    → StandsAt dur v (fade_of s)
    → All (λ (c : Chunk). 0 < c.frames) cs
    → v + total_frames cs < 2 ^ 64
    → (fade_gains (feed_chunks true cs s).made ≡ ramp dur v cs (fade_gains s.made))
      × ((feed_chunks true cs s).fade_done ≡ leb dur (v + total_frames cs))
unfolding feed_chunks ramp
feed_chunks-StandsAt [] dur v s h pos fits = (refl, ground (arith, h.finished))
feed_chunks-StandsAt (c ∷ cs) dur v s h (some_frames, pos) fits =
    let step = fade_of-feed_chunk c s h.resampled h.active h.plain some_frames in
    let gains : fade_gains (feed_chunk true c s).made ≡ ramp_gain dur v ∷ fade_gains s.made =
      ap FadeOut.gains step
      ∙ ap (λ g. g ∷ fade_gains s.made) (chunk_gain-StandsAt dur v (fade_of s) h) in
    let stands : StandsAt dur (v + c.frames) (fade_of (feed_chunk true c s)) =
      subst (StandsAt dur (v + c.frames)) (sym step) (
        stepped-StandsAt dur v c.frames (fade_of s) (chunk_gain (fade_of s) ∷ fade_gains s.made)
          (omega arith) h) in
    let (later, done) =
      feed_chunks-StandsAt cs dur (v + c.frames) (feed_chunk true c s) stands pos (omega arith) in
    (later ∙ ap (ramp dur (v + c.frames) cs) gains, done ∙ ground arith)

-- A fade-out of `dur` frames, from its first frame on and with nothing to skip: the chunks that are
-- fed get the falling ramp at their places, each by its first frame, and the fade is done exactly when
-- `dur` frames went out. Chunks behind the end that come in the same read get the full gain again.
pub feed_chunks-ramp :
    (cs : List Chunk) (s : PlaybackStream)
    → s.fade_out ≡ true
    → s.fade_done ≡ false
    → s.fade_out_frames ≡ 0
    → 0 < s.fade_out_dur
    → s.skip_frames ≡ 0
    → s.has_resampler ≡ true
    → All (λ (c : Chunk). 0 < c.frames) cs
    → total_frames cs < 2 ^ 64
    → (fade_gains (feed_chunks true cs s).made ≡ ramp s.fade_out_dur 0 cs (fade_gains s.made))
      × ((feed_chunks true cs s).fade_done ≡ leb s.fade_out_dur (total_frames cs))
feed_chunks-ramp cs s out begun start some_dur plain resampled pos fits =
    let (gains, done) =
      feed_chunks-StandsAt cs s.fade_out_dur 0 s
        (record {
          active = out;
          plain = plain;
          resampled = resampled;
          length = refl;
          finished = ground (arith, begun);
          place = λ on_way. start;
        })
        pos (omega arith) in
    (gains, done ∙ ground arith)
