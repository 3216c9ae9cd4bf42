-- ===== src/Playback/Coordinator/Gate/Reading.antt =====
-- What the gate of the pump reads, and that no move of the stream thread changes it.
use squeeze2raop.Base.{
  ℕ, ◌≡◌, refl, ◌∙◌, arith, leb, Bool, true, false, not, ◌&&◌, if◌then◌else◌, OnSome,
}
use squeeze2raop.Lms.Stat
use squeeze2raop.Lms.Protocol.{autostart_require_cont}
use squeeze2raop.Playback.Exit.{
  ExitAction, silent_stop, retry, gave_up, ended_eof, ended_error, decide_exit,
}
use squeeze2raop.Playback.Coordinator.Callbacks.{
  session, SamePlace, emit-SamePlace, on_decoder_ready-SamePlace, on_output_ready-SamePlace,
}
use squeeze2raop.Playback.Coordinator.State.{
  Coordinator, stat, meta, Thread, entering, running, retrying, draining, drained, emit, End,
  joinable,
}
use squeeze2raop.Playback.Coordinator.Loop.{
  Move, PassEnd, DrainLook, begun, decoder_ready, output_ready, underrun, meta_block, pass_ended,
  retried, drain_looked, drain_ended, begin_loop, leave, exit_action, exit_inputs, end_pass,
  end_retry, drain_look, end_drain, move_at, is_decode_error, is_faded_out, note_end,
}

-- What the pump waits for.
pub record IsReady (s : Coordinator) : Type 0 where
  pub has_track : s.track ≡ true
  pub awaits_no_codec : s.await_codc ≡ false
  pub may_start : (leb autostart_require_cont s.autostart && not s.have_cont) ≡ false

pub record IsGated (s : Coordinator) : Type 0 where
  pub exclusive : (s.await_codc && s.have_codc) ≡ false
  pub gate : joinable s.thread ≡ true → IsReady s

-- What the gate reads.
pub record Facts : Type 0 where
  pub fact_track : Bool
  pub fact_autostart : ℕ
  pub fact_await : Bool
  pub fact_codc : Bool
  pub fact_cont : Bool

unfoldable pub facts : Coordinator → Facts
facts s = record {
  fact_track = s.track;
  fact_autostart = s.autostart;
  fact_await = s.await_codc;
  fact_codc = s.have_codc;
  fact_cont = s.have_cont;
}

begin_loop-facts : (h p : Bool) (r : ℕ) (s : Coordinator) → facts (begin_loop h p r s) ≡ facts s
unfolding begin_loop emit facts
begin_loop-facts h p r s = ground arith

end_retry-facts :
    (p : Bool) (r : ℕ) (k : Bool) (s : Coordinator) → facts (end_retry p r k s) ≡ facts s
unfolding end_retry leave emit facts
end_retry-facts p r k s = ground arith

drain_look-facts :
    (v : DrainLook) (k : Bool) (d : ℕ) (s : Coordinator) → facts (drain_look v k d s) ≡ facts s
unfolding drain_look emit facts
drain_look-facts v k d s = ground arith

end_drain-facts : (l d k : Bool) (s : Coordinator) → facts (end_drain l d k s) ≡ facts s
unfolding end_drain leave emit facts
end_drain-facts l d k s = ground arith

exit_action-facts :
    (a : ExitAction) (k : Bool) (x : PassEnd) (s : Coordinator)
    → facts (exit_action a k x s) ≡ facts s
unfolding exit_action leave emit facts
exit_action-facts silent_stop k x s = refl
exit_action-facts retry k x s = refl
exit_action-facts gave_up k x s = refl
exit_action-facts ended_eof k x s = refl
exit_action-facts ended_error k x s = ground arith

note_end-facts : (f : Bool) (s : Coordinator) → facts (note_end f s) ≡ facts s
unfolding note_end emit facts
note_end-facts true s = refl
note_end-facts false s = refl

leave-facts : (k : Bool) (s : Coordinator) → facts (leave k s) ≡ facts s
unfolding leave emit facts
leave-facts k s = refl

pub if-facts :
    (b : Bool) (s t u : Coordinator)
    → facts t ≡ facts s
    → facts u ≡ facts s
    → facts (if b then t else u) ≡ facts s
if-facts true s t u h k = h
if-facts false s t u h k = k

end_pass-facts : (e : End) (x : PassEnd) (s : Coordinator) → facts (end_pass e x s) ≡ facts s
unfolding end_pass
end_pass-facts e x s =
    let t = note_end (is_decode_error e) s in
    let n = note_end-facts (is_decode_error e) s in
    let a = decide_exit (exit_inputs e x s) in
    if-facts (is_faded_out e) s (leave s.flushed t) (exit_action a s.flushed x t)
      (leave-facts s.flushed t ∙ n) (exit_action-facts a s.flushed x t ∙ n)

SamePlace-facts : (s t : Coordinator) → SamePlace s t → facts t ≡ facts s
unfolding facts
SamePlace-facts s t h =
    ground (arith, h.same_track, h.same_autostart, h.same_await, h.same_codc, h.same_cont)

pub move-facts :
    (t : Thread) (m : Move) (s : Coordinator)
    → OnSome (λ u. (joinable t ≡ true) × (facts u ≡ facts s)) (move_at t m s)
unfolding move_at joinable session
move-facts entering (begun t p r) s = (refl, begin_loop-facts t p r s)
move-facts running (decoder_ready t) s =
    (refl, SamePlace-facts s _ (on_decoder_ready-SamePlace t s))
move-facts running output_ready s = (refl, SamePlace-facts s _ (on_output_ready-SamePlace s))
move-facts running underrun s =
    (refl, SamePlace-facts s _ (emit-SamePlace (stat Stat.underrun) s refl))
move-facts running (meta_block b) s = (refl, SamePlace-facts s _ (emit-SamePlace (meta b) s refl))
move-facts running (pass_ended e x) s = (refl, end_pass-facts e x s)
move-facts (retrying keep) (retried p r) s = (refl, end_retry-facts p r keep s)
move-facts (draining keep deadline) (drain_looked v) s = (refl, drain_look-facts v keep deadline s)
move-facts (drained keep) (drain_ended l d) s = (refl, end_drain-facts l d keep s)
move-facts _ _ s = record {}
