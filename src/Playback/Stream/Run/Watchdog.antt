-- ===== src/Playback/Stream/Run/Watchdog.antt =====
-- The watchdog of the source: how long a pass goes on when nothing comes.
use squeeze2raop.Base.{
  ℕ, ◌≤◌, ◌<◌, ◌≡◌, refl, ◌∙◌, ap, arith, List, [], ◌∷◌, ◌++◌, Bool, true, false, All, sub64, ◌*◌,
  ◌/◌, ◌^◌, ◌==◌, leb, ltb, not, ◌&&◌, ◌||◌, if◌then◌else◌,
}
use squeeze2raop.Lms.Protocol.{default_sample_rate, default_channels}
use squeeze2raop.Lms.Stream.{timeout}
use squeeze2raop.Playback.Coordinator.State.{socket_error}
use squeeze2raop.Playback.Stream.{
  PlaybackStream, make, gate_open, is_gate_open, ring_target_samples, disconnect_timeout,
}
use squeeze2raop.Playback.Stream.Run.{
  Round, Pass, again, back, round, run, go_on, adopt_fade, is_paused, end_pause, launch,
  sample_ring, throttle, pace, spend, watch_ring, silent_round, source_is_silent, after_read,
  streaming, gated, pass_end,
}

-- What decides whether a round reads, and the watchdog's settings.
pub record Watch : Type 0 where
  pub pause_until : ℕ
  pub gate : ℕ
  pub buffer : ℕ
  pub throttled : Bool
  pub fade_wanted : Bool
  pub fading : Bool
  pub faded : Bool
  pub limit : ℕ
  pub last : ℕ

abbrev pub watch_of : PlaybackStream → Watch
watch_of s = record {
  pause_until = s.pause_until_ms;
  gate = s.output_gate_until_ms;
  buffer = s.buffer_ms;
  throttled = s.ring_throttled;
  fade_wanted = s.fade_out_requested;
  fading = s.fade_out;
  faded = s.fade_done;
  limit = s.source_timeout_ms;
  last = s.last_data_ms;
}

-- A track that plays: no pause, no gate, no fade-out and no throttle, with a buffer setting and a limit
-- of the silence.
abbrev pub playing : ℕ → ℕ → ℕ → Watch
playing buffer limit last = record {
  pause_until = 0;
  gate = 0;
  buffer = buffer;
  throttled = false;
  fade_wanted = false;
  fading = false;
  faded = false;
  limit = limit;
  last = last;
}

-- The samples that the ring is to hold by the buffer setting, in milliseconds; 0 is no target.
unfoldable pub ring_target : ℕ → ℕ
ring_target buffer_ms =
    if buffer_ms == 0 || leb (2 ^ 31) buffer_ms
    then 0
    else buffer_ms * default_sample_rate / 1000 * default_channels

-- A round that hears nothing, with no stop, with the receiver there, and with the ring not above its
-- target.
pub record IsSilent (b : ℕ) (r : Round) : Type 0 where
  pub calm : (not (ring_target b == 0) && ltb (ring_target b) r.queued) ≡ false
  pub going : r.stopping ≡ false
  pub going_after : r.stopping_after ≡ false
  pub there : r.lost ≡ false
  pub there_after : r.lost_after ≡ false
  pub nothing : r.result ≡ timeout

watch_of-launch :
    (queued now : ℕ) (p : Pass) {b l t : ℕ}
    → watch_of p.stream ≡ playing b l t
    → watch_of (launch queued now p).stream ≡ playing b l t
unfolding launch make gate_open is_gate_open
watch_of-launch queued now p h = ground (arith, h)

watch_of-sample_ring :
    (r : Round) (p : Pass) → watch_of (sample_ring r p).stream ≡ watch_of p.stream
unfolding sample_ring
watch_of-sample_ring r p = ground arith

watch_of-throttle :
    (r : Round) (p : Pass) {b l t : ℕ}
    → watch_of p.stream ≡ playing b l t
    → IsSilent b r
    → watch_of (throttle r p).stream ≡ playing b l t
unfolding throttle ring_target_samples ring_target
watch_of-throttle r p h i = ground (arith, h, ap Watch.buffer h, ap Watch.throttled h, i.calm)

watch_of-watch_ring :
    (quiet : Bool) (r : Round) (s : PlaybackStream) → watch_of (watch_ring quiet r s) ≡ watch_of s
unfolding watch_ring make
watch_of-watch_ring quiet r s = ground arith

watch_of-pace : (p : Pass) → watch_of (pace p).stream ≡ watch_of p.stream
unfolding pace
watch_of-pace p = ground arith

watch_of-adopt_fade :
    (s : PlaybackStream) {b l t : ℕ}
    → watch_of s ≡ playing b l t
    → watch_of (adopt_fade s) ≡ playing b l t
unfolding adopt_fade
watch_of-adopt_fade s h = ground (arith, h)

watch_of-end_pause :
    (now : ℕ) (s : PlaybackStream) {b l t : ℕ}
    → watch_of s ≡ playing b l t
    → (is_paused now s ≡ false) × (watch_of (end_pause now s) ≡ playing b l t)
unfolding end_pause is_paused
watch_of-end_pause now s h = (ground (arith, h), ground (arith, h))

watch_of-gate_open :
    (now : ℕ) (s : PlaybackStream) {b l t : ℕ}
    → watch_of s ≡ playing b l t
    → ((gate_open now s).1 ≡ true) × (watch_of (gate_open now s).0 ≡ playing b l t)
unfolding gate_open is_gate_open
watch_of-gate_open now s h = (ground (arith, h), ground (arith, h))

streaming-timeout :
    (r : Round) (p : Pass) {b l t : ℕ}
    → watch_of p.stream ≡ playing b l t
    → IsSilent b r
    → streaming false r p ≡ silent_round false r (throttle r (sample_ring r p))
unfolding streaming after_read
streaming-timeout r p h i =
    let w = watch_of-throttle r (sample_ring r p) (watch_of-sample_ring r p ∙ h) i in
    ground (arith, ap Watch.throttled w, i.nothing)

gated-open :
    (r : Round) (p : Pass) (g : PlaybackStream × Bool)
    → g.1 ≡ true
    → gated false r p g ≡ streaming false r (launch r.queued r.now (record p { stream = g.0 }))
unfolding gated
gated-open r p (s, b) e = ground (arith, e)

round-gated :
    (r : Round) (p : Pass) {b l t : ℕ}
    → watch_of p.stream ≡ playing b l t
    → IsSilent b r
    → round r p
      ≡ gated false r
          (record p { stream = end_pause r.now (adopt_fade p.stream) })
          (gate_open r.now (end_pause r.now (adopt_fade p.stream)))
unfolding round
round-gated r p h i =
    let w = watch_of-adopt_fade p.stream h in
    ground (
      arith,
      i.going,
      i.there,
      ap Watch.faded w,
      (watch_of-end_pause r.now (adopt_fade p.stream) w).0,
    )

-- Such a round comes to the watchdog.
round-silent :
    (r : Round) (p : Pass) {b l t : ℕ}
    → watch_of p.stream ≡ playing b l t
    → IsSilent b r
    → (q : Pass) × (round r p ≡ silent_round false r q) × (watch_of q.stream ≡ playing b l t)
round-silent r p h i =
    let s = end_pause r.now (adopt_fade p.stream) in
    let p' = record p { stream = s } in
    let w = (watch_of-end_pause r.now (adopt_fade p.stream) (watch_of-adopt_fade p.stream h)).1 in
    let (open_now, w') = watch_of-gate_open r.now s w in
    let opened = record p' { stream = (gate_open r.now s).0 } in
    let w'' = watch_of-launch r.queued r.now opened w' in
    let q = launch r.queued r.now opened in
    (
      throttle r (sample_ring r q),
      round-gated r p h i
          ∙ gated-open r p' (gate_open r.now s) open_now
          ∙ streaming-timeout r q w'' i,
      watch_of-throttle r (sample_ring r q) (watch_of-sample_ring r q ∙ w'') i,
    )

-- Before the limit the pass goes on, and the silence counts on.
silent_round-early :
    (r : Round) (q : Pass) {b l t : ℕ}
    → watch_of q.stream ≡ playing b l t
    → sub64 r.read_at t < l
    → (p : Pass) × (silent_round false r q ≡ again p) × (watch_of p.stream ≡ playing b l t)
unfolding silent_round source_is_silent spend
silent_round-early r q h early =
    let s = spend r.now r.read_at q.stream in
    let p = record q { stream = watch_ring false r s } in
    (
      pace p,
      ground (arith, ap Watch.limit h, ap Watch.last h),
      watch_of-pace p ∙ watch_of-watch_ring false r s ∙ h,
    )

-- At the limit it ends.
silent_round-late :
    (r : Round) (q : Pass) {b l t : ℕ}
    → watch_of q.stream ≡ playing b l t
    → IsSilent b r
    → 0 < l
    → l ≤ sub64 r.read_at t
    → (s : PlaybackStream) × (silent_round false r q ≡ back s socket_error)
      × (s.disconnect ≡ disconnect_timeout)
unfolding silent_round source_is_silent spend pass_end
silent_round-late r q h i some_limit late = (
  record (spend r.now r.read_at q.stream) { disconnect = disconnect_timeout },
  ground (arith, ap Watch.limit h, ap Watch.last h, ap Watch.faded h, i.going_after, i.there_after),
  refl,
)

-- A source that dies ends its track, at the limit and not before: from a playing pass, with a limit of
-- the silence and the last byte at `t`, a sequence of silent rounds that read the clock below `t` and the
-- limit leaves the pass going, playing and with its last byte still at `t`; the first round then
-- that reads the clock at or behind the limit ends the pass as a lost source, with the disconnect code
-- of a timeout. The buffer may have any setting; in a silent round the ring is not above its target.
pub run-watchdog :
    (rs later : List Round) (r : Round) (p : Pass) (b l t : ℕ)
    → watch_of p.stream ≡ playing b l t
    → 0 < l
    → All (λ (x : Round). IsSilent b x × (sub64 x.read_at t < l)) rs
    → IsSilent b r
    → l ≤ sub64 r.read_at t
    → (q : Pass) × (run rs p ≡ again q)
      × (watch_of q.stream ≡ playing b l t)
      × (s : PlaybackStream) × (round r q ≡ back s socket_error)
      × (run (rs ++ (r ∷ later)) p ≡ back s socket_error)
      × (s.disconnect ≡ disconnect_timeout)
unfolding run go_on
run-watchdog [] later r p b l t h some_limit early i late =
    let (q, e, w) = round-silent r p h i in
    let (s, f, d) = silent_round-late r q w i some_limit late in
    (p, refl, h, s, e ∙ f, ap (go_on (run later)) (e ∙ f), d)
run-watchdog (x ∷ rs) later r p b l t h some_limit ((j, before), early) i late =
    let (q, e, w) = round-silent x p h j in
    let (p', f, w') = silent_round-early x q w before in
    let (end, going, state, s, last, g, d) =
      run-watchdog rs later r p' b l t w' some_limit early i late in
    (
      end,
      ap (go_on (run rs)) (e ∙ f) ∙ going,
      state,
      s,
      last,
      ap (go_on (run (rs ++ (r ∷ later)))) (e ∙ f) ∙ g,
      d,
    )
