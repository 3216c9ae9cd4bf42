-- ===== src/Playback/Stream/Feed/Reports.antt =====
-- What the pump reports to LMS through the session: the decoder's first audio (STMl) and an underrun
-- (STMo). Here the audio path; Run/Reports has the rounds.
use squeeze2raop.Base.{ℕ, ◌+◌, ◌-◌, ◌≡◌, arith, List, [], ◌∷◌, Bool, if◌then◌else◌}
use squeeze2raop.Playback.Counters.{on_fed}
use squeeze2raop.Playback.Stream.{
  PlaybackStream, Made, dropped, pushed, decoder_ready, underrun, output_ready, forwarded,
  now_playing, make,
}
use squeeze2raop.Playback.Stream.Feed.{
  Chunk, Fed, consume_skip, drop_frames, push_frames, push_rest, emit, adopt_native_rate,
  fire_ready, feed_chunk, feed_chunks, feed, apply_gain_fade, start_fade_in, advance_fade_in,
  advance_fade_out,
}

abbrev pub underruns : List Made → ℕ
underruns [] = 0
underruns (underrun ∷ m) = 1 + underruns m
underruns (dropped n ∷ m) = underruns m
underruns (pushed n g ∷ m) = underruns m
underruns (decoder_ready ∷ m) = underruns m
underruns (output_ready ∷ m) = underruns m
underruns (forwarded b ∷ m) = underruns m
underruns (now_playing t ∷ m) = underruns m

abbrev pub readies : List Made → ℕ
readies [] = 0
readies (decoder_ready ∷ m) = 1 + readies m
readies (underrun ∷ m) = readies m
readies (dropped n ∷ m) = readies m
readies (pushed n g ∷ m) = readies m
readies (output_ready ∷ m) = readies m
readies (forwarded b ∷ m) = readies m
readies (now_playing t ∷ m) = readies m

-- Each report was made as often as its flag says.
abbrev pub IsOnce : PlaybackStream → Type 0
IsOnce s =
    (underruns s.made ≡ (if s.underrun_fired then 1 else 0))
    × (readies s.made ≡ (if s.decoder_ready_fired then 1 else 0))

start_fade_in-IsOnce : (s : PlaybackStream) → IsOnce s → IsOnce (start_fade_in s)
unfolding start_fade_in
start_fade_in-IsOnce s h = ground arith

advance_fade_in-IsOnce : (n : ℕ) (s : PlaybackStream) → IsOnce s → IsOnce (advance_fade_in n s)
unfolding advance_fade_in
advance_fade_in-IsOnce n s h = ground arith

advance_fade_out-IsOnce : (n : ℕ) (s : PlaybackStream) → IsOnce s → IsOnce (advance_fade_out n s)
unfolding advance_fade_out
advance_fade_out-IsOnce n s h = ground arith

drop_frames-IsOnce :
    (n pending : ℕ) (s : PlaybackStream) → IsOnce s → IsOnce (drop_frames n pending s)
unfolding drop_frames make on_fed
drop_frames-IsOnce n pending s h = ground arith

adopt_native_rate-IsOnce :
    (rate : ℕ) (s : PlaybackStream) → IsOnce s → IsOnce (adopt_native_rate rate s)
unfolding adopt_native_rate
adopt_native_rate-IsOnce rate s h = ground arith

fire_ready-IsOnce : (s : PlaybackStream) → IsOnce s → IsOnce (fire_ready s)
unfolding fire_ready make
fire_ready-IsOnce s h = ground arith

apply_gain_fade-IsOnce : (n : ℕ) (s : PlaybackStream) → IsOnce s → IsOnce (apply_gain_fade n s).0
unfolding apply_gain_fade
apply_gain_fade-IsOnce n s h =
    advance_fade_out-IsOnce n (advance_fade_in n (start_fade_in s))
      (advance_fade_in-IsOnce n (start_fade_in s) (start_fade_in-IsOnce s h))

push_frames-IsOnce :
    (n pending : ℕ) (s : PlaybackStream) → IsOnce s → IsOnce (push_frames n pending s)
unfolding push_frames make on_fed
push_frames-IsOnce n pending s h = apply_gain_fade-IsOnce n s h

push_rest-IsOnce :
    (out : Bool) (n pending : ℕ) (s : PlaybackStream)
    → IsOnce s
    → IsOnce (push_rest out n pending s)
unfolding push_rest
push_rest-IsOnce out n pending s h = ground (arith, push_frames-IsOnce n pending s h)

consume_skip-IsOnce : (n : ℕ) (s : PlaybackStream) → IsOnce s → IsOnce (consume_skip n s).0
unfolding consume_skip
consume_skip-IsOnce n s h = ground arith

emit-IsOnce :
    (out : Bool) (n pending : ℕ) (s : PlaybackStream) → IsOnce s → IsOnce (emit out n pending s)
unfolding emit
emit-IsOnce out n pending s h =
    let r = consume_skip n s in
    push_rest-IsOnce out (n - r.1) pending (drop_frames r.1 pending r.0)
      (drop_frames-IsOnce r.1 pending r.0 (consume_skip-IsOnce n s h))

feed_chunk-IsOnce :
    (out : Bool) (c : Chunk) (s : PlaybackStream) → IsOnce s → IsOnce (feed_chunk out c s)
unfolding feed_chunk
feed_chunk-IsOnce out c s h =
    let s' = fire_ready (adopt_native_rate c.native_rate s) in
    let h' : IsOnce s' =
      fire_ready-IsOnce (adopt_native_rate c.native_rate s)
        (adopt_native_rate-IsOnce c.native_rate s h) in
    ground (arith, h', emit-IsOnce out c.frames c.pending s' h')

feed_chunks-IsOnce :
    (out : Bool) (cs : List Chunk) (s : PlaybackStream) → IsOnce s → IsOnce (feed_chunks out cs s)
unfolding feed_chunks
feed_chunks-IsOnce out [] s h = h
feed_chunks-IsOnce out (c ∷ cs) s h =
    feed_chunks-IsOnce out cs (feed_chunk out c s) (feed_chunk-IsOnce out c s h)

pub feed-IsOnce :
    (f : Fed) (out end : Bool) (s : PlaybackStream) → IsOnce s → IsOnce (feed f out end s).0
unfolding feed
feed-IsOnce f out end s h =
    let s' = feed_chunks out f.chunks s in
    let h' : IsOnce s' = feed_chunks-IsOnce out f.chunks s h in
    ground (arith, h', emit-IsOnce out f.tail_frames f.tail_pending s' h')
