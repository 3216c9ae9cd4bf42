-- ===== src/Playback/Coordinator/Once.antt =====
-- STMs and STMl, the events that LMS counts a track by, go out at most once per track.
mod Sending
use squeeze2raop.Base.{
  ℕ, ◌+◌, ◌≤◌, ◌≡◌, refl, arith, List, [], ◌∷◌, Option, none, some, Bool, true, false, OnSome,
  OnSome-and_then, OnSome-elim, OnSome-map, ◌==◌, ◌&&◌, sym, All, and_then,
}
use mathlib.Core.Bool.{true≢false}
use squeeze2raop.Lms.Stat
use squeeze2raop.Lms.Protocol.{StrmStart, PcmParams, unknown_format}
use squeeze2raop.Playback.Coordinator.State.{
  Call, stat, resp, open_source, interrupt, unpause_track, close_track, stop_output, silence,
  request_fade_out, skip_track, Coordinator, Thread, absent, entering, finished, emit, joinable,
}
use squeeze2raop.Playback.Coordinator.Loop.{Move, report, moves}
use squeeze2raop.Playback.Coordinator.Handlers.{
  Setup, Opening, Event, stream_start, cont, codc, flushing, pausing, unpausing, skipping, stopping,
  powered_off, shutting, moving, step, steps, request_stop, wake_on_stop, with_track, join, join_at,
  shutdown_if, fade_or_tear_down, stop_thread, shutdown, maybe_start_pump, must_wait, attach,
  open_track, start_track, make_track, opened, reset_flags, on_cont, on_codc, flush, pause, unpause,
  skip_ahead, tear_down, aude_off,
}
unfoldable pub use squeeze2raop.Playback.Coordinator.Once.Sending.{times}
use squeeze2raop.Playback.Coordinator.Once.Sending.{
  Marks-refl, Marks-trans, emit-Marks, if-Marks, move-Marks, moves-Marks, Marks,
}

wake_on_stop-Marks : (t : Thread) (s : Coordinator) → Marks s (wake_on_stop t s)
unfolding wake_on_stop times
wake_on_stop-Marks absent s = Marks-refl s
wake_on_stop-Marks entering s = Marks-refl s
wake_on_stop-Marks finished s = Marks-refl s
wake_on_stop-Marks _ s = emit-Marks interrupt s refl refl

request_stop-Marks : (s : Coordinator) → Marks s (request_stop s)
unfolding request_stop
request_stop-Marks s =
    let t = record s { stop_requested = true } in
    Marks-trans s t _ (record { starts = refl; readies = refl }) (wake_on_stop-Marks s.thread t)

with_track-Marks :
    (c : Call) (s : Coordinator)
    → times Stat.start (c ∷ s.log) ≡ times Stat.start s.log
    → times Stat.autostart (c ∷ s.log) ≡ times Stat.autostart s.log
    → Marks s (with_track c s)
unfolding with_track
with_track-Marks c s h k = if-Marks s.track s (emit c s) s (emit-Marks c s h k) (Marks-refl s)

join-Marks : (t : Thread) (s : Coordinator) → OnSome (Marks s) (join_at t s)
unfolding join_at
join-Marks finished s = record { starts = refl; readies = refl }
join-Marks _ s = record {}

-- A chain of steps keeps the marks when each of its links does.
and_then-Marks :
    (s t : Coordinator) (o : Option Coordinator) (f : Coordinator → Option Coordinator)
    → Marks s t
    → OnSome (Marks t) o
    → ((u : Coordinator) → OnSome (Marks u) (f u))
    → OnSome (Marks s) (and_then o f)
and_then-Marks s t o f h k g = OnSome-and_then (Marks t) (Marks s) o f k (λ u e.
    OnSome-map (Marks u) (Marks s) (f u) (λ v d. Marks-trans s u v (Marks-trans s t u h e) d) (g u))

stop_thread-Marks : (ms : List Move) (s : Coordinator) → OnSome (Marks s) (stop_thread ms s)
unfolding stop_thread times
stop_thread-Marks ms s =
    let r = request_stop s in
    let w = with_track (unpause_track 0) r in
    and_then-Marks s w (moves ms w) join
      (Marks-trans s r w (request_stop-Marks s) (with_track-Marks (unpause_track 0) r refl refl))
      (moves-Marks ms w) (λ u. join-Marks u.thread u)

shutdown-Marks :
    (b : Bool) (ms : List Move) (s : Coordinator) → OnSome (Marks s) (shutdown_if b ms s)
unfolding shutdown_if times
shutdown-Marks true ms s =
    and_then-Marks s s (stop_thread ms s) _ (Marks-refl s) (stop_thread-Marks ms s)
      (λ u. with_track-Marks close_track u refl refl)
shutdown-Marks false ms s = with_track-Marks close_track s refl refl

tear_down-Marks : (ms : List Move) (s : Coordinator) → OnSome (Marks s) (tear_down ms s)
unfolding tear_down times
tear_down-Marks ms s =
    and_then-Marks s s (shutdown ms s) _ (Marks-refl s) (shutdown-Marks (joinable s.thread) ms s)
      (λ u. emit-Marks (stop_output true) u refl refl)

flush-Marks : (early ms : List Move) (s : Coordinator) → OnSome (Marks s) (flush early ms s)
unfolding flush times
flush-Marks early ms s =
    let t = record s { flushed = true } in
    and_then-Marks s t (moves early t) _ (record { starts = refl; readies = refl })
      (moves-Marks early t)
      (λ u.
        and_then-Marks u u (shutdown ms u) _ (Marks-refl u)
          (shutdown-Marks (joinable u.thread) ms u) (λ v. emit-Marks silence v refl refl))

fade_or_tear_down-Marks :
    (b f : Bool) (ms : List Move) (s : Coordinator) → OnSome (Marks s) (fade_or_tear_down b f ms s)
unfolding fade_or_tear_down times
fade_or_tear_down-Marks true true ms s = emit-Marks request_fade_out s refl refl
fade_or_tear_down-Marks true false ms s =
    let t = emit request_fade_out s in
    OnSome-map (Marks t) (Marks s) (tear_down ms t)
      (λ u. Marks-trans s t u (emit-Marks request_fade_out s refl refl)) (tear_down-Marks ms t)
fade_or_tear_down-Marks false f ms s = tear_down-Marks ms s

on_cont-Marks : (s : Coordinator) → Marks s (on_cont s)
unfolding on_cont maybe_start_pump must_wait
on_cont-Marks s = record { starts = ground arith; readies = ground arith }

attach-Marks : (f : ℕ) (p : PcmParams) (a : Bool) (s : Coordinator) → Marks s (attach f p a s)
unfolding attach maybe_start_pump must_wait emit times
attach-Marks f p a s = record { starts = ground arith; readies = ground arith }

on_codc-Marks : (f : ℕ) (p : PcmParams) (a : Bool) (s : Coordinator) → Marks s (on_codc f p a s)
unfolding on_codc
on_codc-Marks f p a s =
    let t = record s { have_codc = true } in
    if-Marks _ s s (attach f p a t) (Marks-refl s) (
      Marks-trans s t (attach f p a t) (record { starts = refl; readies = refl })
        (attach-Marks f p a t))

pause-Marks : (ms : ℕ) (s : Coordinator) → Marks s (pause ms s)
unfolding pause emit times with_track
pause-Marks ms s = record { starts = ground arith; readies = ground arith }

-- Everything but the start of another track.
unfoldable pub within_track : Event → Bool
within_track (stream_start _ _ _) = false
within_track _ = true

step-Marks :
    (setup : Setup) (e : Event) (s : Coordinator)
    → within_track e ≡ true
    → OnSome (Marks s) (step setup e s)
unfolding step within_track times skip_ahead unpause aude_off
step-Marks setup (stream_start st o ms) s h = elim (true≢false (sym h)) [ ]
step-Marks setup cont s h = on_cont-Marks s
step-Marks setup (codc f p a) s h = on_codc-Marks f p a s
step-Marks setup (flushing early ms) s h = flush-Marks early ms s
step-Marks setup (pausing ms) s h = pause-Marks ms s
step-Marks setup (unpausing j) s h = with_track-Marks (unpause_track j) s refl refl
step-Marks setup (skipping ms) s h = with_track-Marks (skip_track ms) s refl refl
step-Marks setup (stopping f ms) s h = fade_or_tear_down-Marks (s.stream_active && s.track) f ms s
step-Marks setup (powered_off ms) s h = tear_down-Marks ms s
step-Marks setup (shutting ms) s h = shutdown-Marks (joinable s.thread) ms s
step-Marks setup (moving m) s h = move-Marks s.thread m s

steps-Marks :
    (setup : Setup) (es : List Event) (s : Coordinator)
    → All (λ e. within_track e ≡ true) es
    → OnSome (Marks s) (steps setup es s)
unfolding steps
steps-Marks setup [] s h = Marks-refl s
steps-Marks setup (e ∷ es) s h =
    OnSome-and_then (Marks s) (Marks s) (step setup e s) (steps setup es) (step-Marks setup e s h.0)
      (λ t m.
        OnSome-map (Marks t) (Marks s) (steps setup es t) (λ u k. Marks-trans s t u m k)
          (steps-Marks setup es t h.1))

make_track-Marks : (st : StrmStart) (s : Coordinator) → Marks s (make_track st s)
unfolding make_track emit times
make_track-Marks st s = record { starts = ground arith; readies = ground arith }

opened-Marks :
    (h : Option (List ℕ)) (st : StrmStart) (o : Opening) (s : Coordinator)
    → Marks s (opened h st o s)
unfolding opened emit times
opened-Marks none st o s = record { starts = refl; readies = refl }
opened-Marks (some headers) st o s =
    let s1 = report Stat.connect (emit (resp headers) s) in
    let m : Marks s s1 = record { starts = refl; readies = refl } in
    if-Marks (st.format == unknown_format) s (record s1 { await_codc = true })
      (attach st.format st.pcm o.attached s1) (record { starts = refl; readies = refl })
      (Marks-trans s s1 _ m (attach-Marks st.format st.pcm o.attached s1))

open_track-Marks :
    (st : StrmStart) (host : List ℕ) (port : ℕ) (o : Opening) (s : Coordinator)
    → Marks s (open_track st host port o s)
unfolding open_track times
open_track-Marks st host port o s =
    let t = make_track st s in
    let u = emit (open_source host port) t in
    Marks-trans s t _ (make_track-Marks st s) (
      Marks-trans t u _ (emit-Marks (open_source host port) t refl refl)
        (opened-Marks o.headers st o u))

start_track-Marks :
    (setup : Setup) (st : StrmStart) (o : Opening) (s : Coordinator)
    → Marks (reset_flags st.autostart s) (start_track setup st o s)
unfolding start_track times
start_track-Marks setup st o s =
    let t = reset_flags st.autostart s in
    if-Marks _ t (report Stat.error t) _ (emit-Marks (stat Stat.error) t refl refl)
      (open_track-Marks st _ _ o t)

-- From the start of a track on, over any events up to the start of the next, the track's start (STMs)
-- and its readiness (STMl) are each reported at most once: `s` is the state in which the thread of the
-- track before has been joined.
pub steps-at_most_once :
    (setup : Setup) (st : StrmStart) (o : Opening) (es : List Event) (s t : Coordinator)
    → All (λ e. within_track e ≡ true) es
    → steps setup es (start_track setup st o s) ≡ some t
    → (times Stat.start t.log ≤ times Stat.start s.log + 1)
      × (times Stat.autostart t.log ≤ times Stat.autostart s.log + 1)
unfolding reset_flags
steps-at_most_once setup st o es s t h e =
    let u = start_track setup st o s in
    let m = OnSome-elim (Marks u) (steps setup es u) t (steps-Marks setup es u h) e in
    let n = start_track-Marks setup st o s in
    (ground (arith, m.starts, n.starts), ground (arith, m.readies, n.readies))
