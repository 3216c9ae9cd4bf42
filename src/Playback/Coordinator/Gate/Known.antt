-- ===== src/Playback/Coordinator/Gate/Known.antt =====
-- What the calls so far say of the track's decoder, and that no move and no join changes it.
use squeeze2raop.Base.{
  ℕ, ◌≡◌, refl, ◌∙◌, ap, arith, List, [], ◌∷◌, Option, some, Bool, true, false, if◌then◌else◌,
  OnSome, OnSome-and_then, OnSome-map, and_then,
}
use squeeze2raop.Playback.Exit.{
  ExitAction, silent_stop, retry, gave_up, ended_eof, ended_error, decide_exit,
}
use squeeze2raop.Playback.Coordinator.State.{
  Call, attach_decoder, new_track, Coordinator, Thread, absent, entering, running, retrying,
  draining, drained, finished, emit, End, joinable, unpause_track, close_track,
}
use squeeze2raop.Playback.Coordinator.Loop.{
  Move, PassEnd, DrainLook, begun, decoder_ready, output_ready, underrun, meta_block, pass_ended,
  retried, drain_looked, drain_ended, begin_loop, leave, exit_action, exit_inputs, end_pass,
  end_retry, drain_look, end_drain, move_at, move, moves, is_decode_error, is_faded_out, note_end,
  on_decoder_ready, on_output_ready, send_stml, send_stms,
}
use squeeze2raop.Playback.Coordinator.Handlers.{
  request_stop, wake_on_stop, with_track, join, join_at, stop_thread, shutdown, shutdown_if,
}

-- A decoder was attached since the last track was made; the newest call is first.
unfoldable pub attached : List Call → Bool
attached [] = false
attached (attach_decoder f p ∷ l) = true
attached (new_track ∷ l) = false
attached (_ ∷ l) = attached l

-- What is known of the track and its codec.
pub record Known : Type 0 where
  pub known_track : Bool
  pub known_await : Bool
  pub known_decoder : Bool

unfoldable pub known : Coordinator → Known
unfolding attached
known s = record {
  known_track = s.track;
  known_await = s.await_codc;
  known_decoder = attached s.log;
}

exit_action-known :
    (a : ExitAction) (k : Bool) (x : PassEnd) (s : Coordinator)
    → known (exit_action a k x s) ≡ known s
unfolding exit_action leave emit known attached
exit_action-known silent_stop true x s = refl
exit_action-known silent_stop false x s = refl
exit_action-known retry k x s = refl
exit_action-known gave_up true x s = refl
exit_action-known gave_up false x s = refl
exit_action-known ended_eof k x s = refl
exit_action-known ended_error k x s = ground arith

note_end-known : (f : Bool) (s : Coordinator) → known (note_end f s) ≡ known s
unfolding note_end emit known attached
note_end-known true s = refl
note_end-known false s = refl

leave-known : (k : Bool) (s : Coordinator) → known (leave k s) ≡ known s
unfolding leave emit known attached
leave-known true s = refl
leave-known false s = refl

if-known :
    (b : Bool) (s t u : Coordinator)
    → known t ≡ known s
    → known u ≡ known s
    → known (if b then t else u) ≡ known s
if-known true s t u h k = h
if-known false s t u h k = k

end_pass-known : (e : End) (x : PassEnd) (s : Coordinator) → known (end_pass e x s) ≡ known s
unfolding end_pass
end_pass-known e x s =
    let t = note_end (is_decode_error e) s in
    let n = note_end-known (is_decode_error e) s in
    let a = decide_exit (exit_inputs e x s) in
    if-known (is_faded_out e) s (leave s.flushed t) (exit_action a s.flushed x t)
      (leave-known s.flushed t ∙ n) (exit_action-known a s.flushed x t ∙ n)

begin_loop-known : (h p : Bool) (r : ℕ) (s : Coordinator) → known (begin_loop h p r s) ≡ known s
unfolding begin_loop emit known attached
begin_loop-known h p r s = ground arith

end_retry-known :
    (p : Bool) (r : ℕ) (k : Bool) (s : Coordinator) → known (end_retry p r k s) ≡ known s
unfolding end_retry leave emit known attached
end_retry-known p r k s = ground arith

drain_look-known :
    (v : DrainLook) (k : Bool) (d : ℕ) (s : Coordinator) → known (drain_look v k d s) ≡ known s
unfolding drain_look emit known attached
drain_look-known v k d s = ground arith

end_drain-known : (l d k : Bool) (s : Coordinator) → known (end_drain l d k s) ≡ known s
unfolding end_drain leave emit known attached
end_drain-known l d k s = ground arith

on_decoder_ready-known : (h : Bool) (s : Coordinator) → known (on_decoder_ready h s) ≡ known s
unfolding on_decoder_ready send_stml send_stms emit known attached
on_decoder_ready-known h s = ground arith

on_output_ready-known : (s : Coordinator) → known (on_output_ready s) ≡ known s
unfolding on_output_ready send_stms emit known attached
on_output_ready-known s = ground arith

unfoldable pub Kept : Coordinator → Coordinator → Type 0
Kept s t = known t ≡ known s

pub move_at-Kept : (t : Thread) (m : Move) (s : Coordinator) → OnSome (Kept s) (move_at t m s)
unfolding move_at Kept emit known attached
move_at-Kept entering (begun t p r) s = begin_loop-known t p r s
move_at-Kept running (decoder_ready t) s = on_decoder_ready-known t s
move_at-Kept running output_ready s = on_output_ready-known s
move_at-Kept running underrun s = refl
move_at-Kept running (meta_block b) s = refl
move_at-Kept running (pass_ended e x) s = end_pass-known e x s
move_at-Kept (retrying keep) (retried p r) s = end_retry-known p r keep s
move_at-Kept (draining keep deadline) (drain_looked v) s = drain_look-known v keep deadline s
move_at-Kept (drained keep) (drain_ended l d) s = end_drain-known l d keep s
move_at-Kept _ _ s = record {}

pub and_then-Kept :
    (s : Coordinator) (o : Option Coordinator) (f : Coordinator → Option Coordinator)
    → OnSome (Kept s) o
    → ((u : Coordinator) → OnSome (Kept u) (f u))
    → OnSome (Kept s) (and_then o f)
unfolding Kept
and_then-Kept s o f h g =
    OnSome-and_then (Kept s) (Kept s) o f h
      (λ u e. OnSome-map (Kept u) (Kept s) (f u) (λ v d. d ∙ e) (g u))

pub moves-Kept : (ms : List Move) (s : Coordinator) → OnSome (Kept s) (moves ms s)
unfolding moves Kept
moves-Kept [] s = refl
moves-Kept (m ∷ ms) s =
    and_then-Kept s (move m s) (moves ms) (move_at-Kept s.thread m s) (moves-Kept ms)

wake-Kept : (t : Thread) (s : Coordinator) → Kept s (wake_on_stop t s)
unfolding wake_on_stop emit known attached Kept
wake-Kept absent s = refl
wake-Kept entering s = refl
wake-Kept finished s = refl
wake-Kept _ s = refl

pub with_track-Kept :
    (c : Call) (s : Coordinator) → attached (c ∷ s.log) ≡ attached s.log → Kept s (with_track c s)
unfolding with_track emit known Kept
with_track-Kept c s h = ground (arith, h)

join-Kept : (t : Thread) (s : Coordinator) → OnSome (Kept s) (join_at t s)
unfolding join_at known Kept
join-Kept finished s = refl
join-Kept _ s = record {}

stop_thread-Kept : (ms : List Move) (s : Coordinator) → OnSome (Kept s) (stop_thread ms s)
unfolding stop_thread request_stop known attached Kept
stop_thread-Kept ms s =
    let r = request_stop s in
    let t = with_track (unpause_track 0) r in
    OnSome-map (Kept t) (Kept s) (and_then (moves ms t) join)
      (λ u e.
        e
        ∙ with_track-Kept (unpause_track 0) r refl
        ∙ wake-Kept s.thread (record s { stop_requested = true }))
      (and_then-Kept t (moves ms t) join (moves-Kept ms t) (λ u. join-Kept u.thread u))

pub shutdown-Kept :
    (b : Bool) (ms : List Move) (s : Coordinator) → OnSome (Kept s) (shutdown_if b ms s)
unfolding shutdown_if attached
shutdown-Kept true ms s =
    and_then-Kept s (stop_thread ms s) _ (stop_thread-Kept ms s)
      (λ u. with_track-Kept close_track u refl)
shutdown-Kept false ms s = with_track-Kept close_track s refl

-- A shutdown and one more call.
pub joined_call-Kept :
    (c : Call) (ms : List Move) (s : Coordinator)
    → ((l : List Call) → attached (c ∷ l) ≡ attached l)
    → OnSome (Kept s) (and_then (shutdown ms s) (λ t. some (emit c t)))
unfolding emit known Kept
joined_call-Kept c ms s h =
    and_then-Kept s (shutdown ms s) _ (shutdown-Kept (joinable s.thread) ms s)
      (λ u. ap (λ b. record (known u) { known_decoder = b }) (h u.log))
