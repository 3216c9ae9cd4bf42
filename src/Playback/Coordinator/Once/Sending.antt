-- ===== src/Playback/Coordinator/Once/Sending.antt =====
-- What was sent of STMs and STMl is what is marked as sent, over the moves of the stream thread.
use squeeze2raop.Base.{
  ℕ, ◌+◌, ◌≡◌, refl, arith, List, [], ◌∷◌, Bool, true, false, if◌then◌else◌, same_bytes, OnSome,
  OnSome-and_then, OnSome-map,
}
use squeeze2raop.Lms.Stat
use squeeze2raop.Playback.Exit.{
  ExitAction, silent_stop, retry, gave_up, ended_eof, ended_error, decide_exit,
}
use squeeze2raop.Playback.Coordinator.State.{
  Call, stat, End, launch, meta, Coordinator, Thread, entering, running, retrying, draining,
  drained, emit,
}
use squeeze2raop.Playback.Coordinator.Loop.{
  Move, PassEnd, DrainLook, begun, decoder_ready, output_ready, underrun, meta_block, pass_ended,
  retried, drain_looked, drain_ended, on_decoder_ready, on_output_ready, send_stms, send_stml,
  note_end, begin_loop, leave, exit_action, exit_inputs, end_pass, end_retry, drain_look, end_drain,
  move, move_at, moves, is_decode_error, is_faded_out,
}

-- How many times a STAT event was sent.
unfoldable pub times : List ℕ → List Call → ℕ
times code [] = 0
times code (stat c ∷ log) = if same_bytes c code then 1 + times code log else times code log
times code (_ ∷ log) = times code log

abbrev one : Bool → ℕ
one b = if b then 1 else 0

-- What was sent between two states is what was marked as sent.
pub record Marks (s t : Coordinator) : Type 0 where
  pub starts : times Stat.start t.log + one s.sent_stms ≡ times Stat.start s.log + one t.sent_stms
  pub readies :
      times Stat.autostart t.log + one s.sent_stml ≡ times Stat.autostart s.log + one t.sent_stml

pub Marks-refl : (s : Coordinator) → Marks s s
Marks-refl s = record { starts = refl; readies = refl }

pub Marks-trans : (s t u : Coordinator) → Marks s t → Marks t u → Marks s u
Marks-trans s t u h k = record {
  starts = omega (arith, h.starts, k.starts);
  readies = omega (arith, h.readies, k.readies);
}

pub emit-Marks :
    (c : Call) (s : Coordinator)
    → times Stat.start (c ∷ s.log) ≡ times Stat.start s.log
    → times Stat.autostart (c ∷ s.log) ≡ times Stat.autostart s.log
    → Marks s (emit c s)
unfolding emit
emit-Marks c s h k = record { starts = omega (arith, h); readies = omega (arith, k) }

send_stms-Marks : (s : Coordinator) → Marks s (send_stms s)
unfolding send_stms emit times
send_stms-Marks s = record { starts = ground arith; readies = ground arith }

send_stml-Marks : (s : Coordinator) → Marks s (send_stml s)
unfolding send_stml emit times
send_stml-Marks s = record { starts = ground arith; readies = ground arith }

on_decoder_ready-Marks : (h : Bool) (s : Coordinator) → Marks s (on_decoder_ready h s)
unfolding on_decoder_ready
on_decoder_ready-Marks true s = send_stml-Marks s
on_decoder_ready-Marks false s =
    Marks-trans s (send_stml s) (send_stms (send_stml s)) (send_stml-Marks s)
      (send_stms-Marks (send_stml s))

begin_loop-Marks : (h p : Bool) (r : ℕ) (s : Coordinator) → Marks s (begin_loop h p r s)
unfolding begin_loop emit times
begin_loop-Marks h p r s = record { starts = ground arith; readies = ground arith }

leave-Marks : (k : Bool) (s : Coordinator) → Marks s (leave k s)
unfolding leave emit times
leave-Marks k s = record { starts = ground arith; readies = ground arith }

drain_look-Marks :
    (v : DrainLook) (k : Bool) (d : ℕ) (s : Coordinator) → Marks s (drain_look v k d s)
unfolding drain_look emit times
drain_look-Marks v k d s = record { starts = ground arith; readies = ground arith }

end_drain-Marks : (l d k : Bool) (s : Coordinator) → Marks s (end_drain l d k s)
unfolding end_drain leave emit times
end_drain-Marks l d k s = record { starts = ground arith; readies = ground arith }

end_retry-Marks : (p : Bool) (r : ℕ) (k : Bool) (s : Coordinator) → Marks s (end_retry p r k s)
unfolding end_retry leave emit times
end_retry-Marks p r k s = record { starts = ground arith; readies = ground arith }

on_output_ready-Marks : (s : Coordinator) → Marks s (on_output_ready s)
unfolding on_output_ready times
on_output_ready-Marks s =
    Marks-trans s (send_stms s) (emit launch (send_stms s)) (send_stms-Marks s)
      (emit-Marks launch (send_stms s) refl refl)

exit_action-Marks :
    (a : ExitAction) (k : Bool) (x : PassEnd) (s : Coordinator) → Marks s (exit_action a k x s)
unfolding exit_action leave emit times
exit_action-Marks silent_stop k x s = record { starts = ground arith; readies = ground arith }
exit_action-Marks retry k x s = record { starts = ground arith; readies = ground arith }
exit_action-Marks gave_up k x s = record { starts = ground arith; readies = ground arith }
exit_action-Marks ended_eof k x s = record { starts = ground arith; readies = ground arith }
exit_action-Marks ended_error k x s = record { starts = ground arith; readies = ground arith }

note_end-Marks : (f : Bool) (s : Coordinator) → Marks s (note_end f s)
unfolding note_end emit times
note_end-Marks f s = record { starts = ground arith; readies = ground arith }

pub if-Marks :
    (b : Bool) (s t u : Coordinator) → Marks s t → Marks s u → Marks s (if b then t else u)
if-Marks true s t u h k = h
if-Marks false s t u h k = k

end_pass-Marks : (e : End) (x : PassEnd) (s : Coordinator) → Marks s (end_pass e x s)
unfolding end_pass
end_pass-Marks e x s =
    let s1 = note_end (is_decode_error e) s in
    let a = decide_exit (exit_inputs e x s) in
    let noted = note_end-Marks (is_decode_error e) s in
    if-Marks (is_faded_out e) s (leave s.flushed s1) (exit_action a s.flushed x s1)
      (Marks-trans s s1 _ noted (leave-Marks s.flushed s1))
      (Marks-trans s s1 _ noted (exit_action-Marks a s.flushed x s1))

pub move-Marks : (t : Thread) (m : Move) (s : Coordinator) → OnSome (Marks s) (move_at t m s)
unfolding move_at times
move-Marks entering (begun t p r) s = begin_loop-Marks t p r s
move-Marks running (decoder_ready t) s = on_decoder_ready-Marks t s
move-Marks running output_ready s = on_output_ready-Marks s
move-Marks running underrun s = emit-Marks (stat Stat.underrun) s refl refl
move-Marks running (meta_block b) s = emit-Marks (meta b) s refl refl
move-Marks running (pass_ended e x) s = end_pass-Marks e x s
move-Marks (retrying keep) (retried p r) s = end_retry-Marks p r keep s
move-Marks (draining keep deadline) (drain_looked v) s = drain_look-Marks v keep deadline s
move-Marks (drained keep) (drain_ended l d) s = end_drain-Marks l d keep s
move-Marks _ _ s = record {}

pub moves-Marks : (ms : List Move) (s : Coordinator) → OnSome (Marks s) (moves ms s)
unfolding moves
moves-Marks [] s = Marks-refl s
moves-Marks (m ∷ ms) s =
    OnSome-and_then (Marks s) (Marks s) (move m s) (moves ms) (move-Marks s.thread m s) (λ t h.
      OnSome-map (Marks t) (Marks s) (moves ms t) (λ u k. Marks-trans s t u h k) (moves-Marks ms t))
