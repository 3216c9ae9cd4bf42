-- ===== src/Playback/Stream/Run/Reports.antt =====
-- The reports over all that can happen to a stream: rounds of its passes, and calls of the reader
-- thread between them, in any order.
use squeeze2raop.Base.{
  ℕ, ◌≡◌, arith, List, [], ◌∷◌, Bool, true, false, if◌then◌else◌, Option, none, some,
}
use squeeze2raop.Lms.Stream.{ReadResult, data_read, timeout, closed, at_eof}
use squeeze2raop.Playback.Stream.{
  PlaybackStream, make, gate_open, pause, unpause, hold_start, skip_ahead, request_fade_out,
  on_meta, on_title, reapply_now_playing, reapply, forwarded,
}
use squeeze2raop.Lms.Icy.{parse_stream_title}
use squeeze2raop.Playback.Stream.Feed.{feed}
use squeeze2raop.Playback.Stream.Feed.Reports.{underruns, readies, IsOnce, feed-IsOnce}
use squeeze2raop.Playback.Stream.Run.{
  Round, Pass, Turn, again, back, begin_pass, round, adopt_fade, end_pause, launch, sample_ring,
  throttle, pace, heard, spend, fed_round, watch_ring, silent_round, lost_source, drained,
  after_read, streaming, waits, gated, is_paused,
}

abbrev pub turn_stream : Turn → PlaybackStream
turn_stream (again p) = p.stream
turn_stream (back s e) = s

-- A round, a new pass, and the calls of the reader thread with the clock.
pub data Happening : Type 0 where
  turn : Round → Happening
  pass : Bool → ℕ → Happening
  paused : ℕ → ℕ → Happening
  unpaused : ℕ → ℕ → Happening
  held : Happening
  skipped : ℕ → Happening
  fading : Happening
  told : List ℕ → Happening
  reapplied : Happening

behind : Turn → Pass
behind (again p) = p
behind (back s e) = record { stream = s; ready = false }

happen : Happening → Pass → Pass
unfolding behind pause unpause hold_start skip_ahead request_fade_out on_meta reapply_now_playing
    round
happen (turn r) p = behind (round r p)
happen (pass has_target now) p = begin_pass has_target now p.stream
happen (paused ms now) p = record p { stream = pause ms now p.stream }
happen (unpaused jiffies now) p = record p { stream = unpause jiffies now p.stream }
happen held p = record p { stream = hold_start p.stream }
happen (skipped ms) p = record p { stream = skip_ahead ms p.stream }
happen fading p = record p { stream = (request_fade_out p.stream).0 }
happen (told block) p = record p { stream = on_meta block p.stream }
happen reapplied p = record p { stream = reapply_now_playing p.stream }

unfoldable pub live : List Happening → Pass → Pass
unfolding happen
live [] p = p
live (h ∷ hs) p = live hs (happen h p)

adopt_fade-IsOnce : (s : PlaybackStream) → IsOnce s → IsOnce (adopt_fade s)
unfolding adopt_fade
adopt_fade-IsOnce s h = ground arith

end_pause-IsOnce : (now : ℕ) (s : PlaybackStream) → IsOnce s → IsOnce (end_pause now s)
unfolding end_pause
end_pause-IsOnce now s h = ground arith

gate_open-IsOnce : (now : ℕ) (s : PlaybackStream) → IsOnce s → IsOnce (gate_open now s).0
unfolding gate_open
gate_open-IsOnce now s h = ground arith

launch-IsOnce : (queued now : ℕ) (p : Pass) → IsOnce p.stream → IsOnce (launch queued now p).stream
unfolding launch make
launch-IsOnce queued now p h = ground (arith, gate_open-IsOnce now p.stream h)

sample_ring-IsOnce : (r : Round) (p : Pass) → IsOnce p.stream → IsOnce (sample_ring r p).stream
unfolding sample_ring
sample_ring-IsOnce r p h = ground arith

throttle-IsOnce : (r : Round) (p : Pass) → IsOnce p.stream → IsOnce (throttle r p).stream
unfolding throttle
throttle-IsOnce r p h = ground arith

pace-IsOnce : (p : Pass) → IsOnce p.stream → IsOnce (pace p).stream
unfolding pace
pace-IsOnce p h = ground arith

watch_ring-IsOnce :
    (quiet : Bool) (r : Round) (s : PlaybackStream) → IsOnce s → IsOnce (watch_ring quiet r s)
unfolding watch_ring make
watch_ring-IsOnce quiet r s h = ground arith

fed_round-IsOnce :
    (r : Round) (p : Pass) (f : PlaybackStream × Bool)
    → IsOnce f.0
    → IsOnce (turn_stream (fed_round r p f))
unfolding fed_round spend
fed_round-IsOnce r p (s, false) h = h
fed_round-IsOnce r p (s, true) h =
    let q = launch r.queued_after r.after (record p { stream = s }) in
    ground (
      arith,
      launch-IsOnce r.queued_after r.after (record p { stream = s }) h,
      pace-IsOnce (record q { stream = spend r.now r.after q.stream }),
    )

silent_round-IsOnce :
    (quiet : Bool) (r : Round) (p : Pass)
    → IsOnce p.stream
    → IsOnce (turn_stream (silent_round quiet r p))
unfolding silent_round spend
silent_round-IsOnce quiet r p h =
    let s = spend r.now r.read_at p.stream in
    let watched = watch_ring quiet r s in
    ground (arith, watch_ring-IsOnce quiet r s h, pace-IsOnce (record p { stream = watched }))

drained-IsOnce :
    (r : Round) (f : PlaybackStream × Bool) → IsOnce f.0 → IsOnce (turn_stream (drained r f))
unfolding drained
drained-IsOnce r (s, b) h = h

after_read-IsOnce :
    (res : ReadResult) (quiet : Bool) (r : Round) (p : Pass)
    → IsOnce p.stream
    → IsOnce (turn_stream (after_read res quiet r p))
unfolding after_read heard lost_source
after_read-IsOnce data_read quiet r p h = ground (
  arith,
  pace-IsOnce p h,
  fed_round-IsOnce r p (feed r.fed true false (heard r p.stream)),
  feed-IsOnce r.fed true false (heard r p.stream) h,
)
after_read-IsOnce timeout quiet r p h = silent_round-IsOnce quiet r p h
after_read-IsOnce closed quiet r p h = h
after_read-IsOnce at_eof quiet r p h = ground (
  arith,
  drained-IsOnce r (feed r.fed true true p.stream) (feed-IsOnce r.fed true true p.stream h),
  drained-IsOnce r (p.stream, true) h,
)

streaming-IsOnce :
    (quiet : Bool) (r : Round) (p : Pass)
    → IsOnce p.stream
    → IsOnce (turn_stream (streaming quiet r p))
unfolding streaming spend
streaming-IsOnce quiet r p h =
    let q = throttle r (sample_ring r p) in
    let h' : IsOnce q.stream = throttle-IsOnce r (sample_ring r p) (sample_ring-IsOnce r p h) in
    ground (arith, h', after_read-IsOnce r.result quiet r q h')

gated-IsOnce :
    (quiet : Bool) (r : Round) (p : Pass) (g : PlaybackStream × Bool)
    → IsOnce g.0
    → IsOnce (turn_stream (gated quiet r p g))
unfolding gated waits
gated-IsOnce quiet r p (s, open_now) h =
    let p' = record p { stream = s } in
    ground (
      arith,
      streaming-IsOnce quiet r (launch r.queued r.now p') (launch-IsOnce r.queued r.now p' h),
    )

round-IsOnce : (r : Round) (p : Pass) → IsOnce p.stream → IsOnce (turn_stream (round r p))
unfolding round waits
round-IsOnce r p h =
    let s = adopt_fade p.stream in
    let s' = end_pause r.now s in
    let h' : IsOnce s' = end_pause-IsOnce r.now s (adopt_fade-IsOnce p.stream h) in
    ground (
      arith,
      h',
      adopt_fade-IsOnce p.stream h,
      gated-IsOnce (is_paused r.now s) r (record p { stream = s' }) (gate_open r.now s')
          (gate_open-IsOnce r.now s' h'),
    )

on_title-IsOnce : (t : Option (List ℕ)) (s : PlaybackStream) → IsOnce s → IsOnce (on_title t s)
unfolding on_title make
on_title-IsOnce none s h = h
on_title-IsOnce (some t) s h = ground arith

reapply-IsOnce : (t : List ℕ) (s : PlaybackStream) → IsOnce s → IsOnce (reapply t s)
unfolding reapply make
reapply-IsOnce [] s h = h
reapply-IsOnce (c ∷ t) s h = h

behind-IsOnce : (t : Turn) → IsOnce (turn_stream t) → IsOnce (behind t).stream
unfolding behind
behind-IsOnce (again p) h = h
behind-IsOnce (back s e) h = h

happen-IsOnce : (h : Happening) (p : Pass) → IsOnce p.stream → IsOnce (happen h p).stream
unfolding happen begin_pass pause unpause hold_start skip_ahead request_fade_out on_meta make
    reapply_now_playing
happen-IsOnce (turn r) p h = behind-IsOnce (round r p) (round-IsOnce r p h)
happen-IsOnce (pass has_target now) p h = h
happen-IsOnce (paused ms now) p h = h
happen-IsOnce (unpaused jiffies now) p h = h
happen-IsOnce held p h = h
happen-IsOnce (skipped ms) p h = h
happen-IsOnce fading p h = ground arith
happen-IsOnce (told block) p h =
    on_title-IsOnce (parse_stream_title block) (make (forwarded block) p.stream) h
happen-IsOnce reapplied p h = reapply-IsOnce p.stream.last_title p.stream h

live-IsOnce : (hs : List Happening) (p : Pass) → IsOnce p.stream → IsOnce (live hs p).stream
unfolding live
live-IsOnce [] p h = h
live-IsOnce (h ∷ hs) p k = live-IsOnce hs (happen h p) (happen-IsOnce h p k)

-- A stream that has reported nothing yet reports its first audio at most once and an underrun at most
-- once, over all rounds of all its passes and whatever the reader thread calls in between; and each was
-- reported exactly when its flag is set.
pub live-reports :
    (hs : List Happening) (p : Pass)
    → underruns p.stream.made ≡ 0
    → readies p.stream.made ≡ 0
    → p.stream.underrun_fired ≡ false
    → p.stream.decoder_ready_fired ≡ false
    → let s = (live hs p).stream in
      (underruns s.made ≡ (if s.underrun_fired then 1 else 0))
      × (readies s.made ≡ (if s.decoder_ready_fired then 1 else 0))
live-reports hs p u r fu fr = live-IsOnce hs p (ground (arith, u, fu), ground (arith, r, fr))
