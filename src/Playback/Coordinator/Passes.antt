-- ===== src/Playback/Coordinator/Passes.antt =====
-- `streamLoop` makes two passes at most: one, and one more after a lost receiver.
use squeeze2raop.Base.{
  ℕ, ◌+◌, ◌≤◌, ◌≡◌, refl, arith, List, [], ◌∷◌, some, Bool, true, false, if◌then◌else◌, OnSome,
  OnSome-and_then, OnSome-elim, OnSome-map, ◌∙◌,
}
use squeeze2raop.Lms.Stat
use squeeze2raop.Playback.Exit.{
  ExitAction, ExitInputs, silent_stop, retry, gave_up, ended_eof, ended_error, decide_exit,
}
use squeeze2raop.Playback.Coordinator.Callbacks.{
  session, SamePlace, emit-SamePlace, on_decoder_ready-SamePlace, on_output_ready-SamePlace,
}
use squeeze2raop.Playback.Coordinator.State.{
  Coordinator, stat, meta, Thread, entering, running, retrying, draining, drained, emit, End,
}
use squeeze2raop.Playback.Coordinator.Loop.{
  Move, PassEnd, begun, decoder_ready, output_ready, underrun, meta_block, pass_ended, retried,
  drain_looked, drain_ended, begin_loop, leave, exit_action, exit_inputs, end_pass, end_retry,
  drain_look, end_drain, move_at, move, moves, is_decode_error, is_faded_out, note_end,
}

unfoldable pub ends_pass : Move → ℕ
ends_pass (pass_ended e x) = 1
ends_pass _ = 0

unfoldable pub passes : List Move → ℕ
passes [] = 0
passes (m ∷ ms) = ends_pass m + passes ms

-- The passes that a thread may still end.
unfoldable pub passes_left : Thread → Bool → ℕ
passes_left entering used = if used then 1 else 2
passes_left running used = if used then 1 else 2
passes_left (retrying keep) used = if used then 1 else 2
passes_left _ used = 0

abbrev left : Coordinator → ℕ
left s = passes_left s.thread s.retry_used

left-leave : (k : Bool) (s : Coordinator) → left (leave k s) ≡ 0
unfolding leave emit passes_left
left-leave k s = refl

stay_left :
    (s t : Coordinator)
    → s.thread ≡ running
    → SamePlace s t
    → 0 + left t ≤ passes_left running s.retry_used
stay_left s t h p = rw (p.same_thread, h, p.same_retry) (omega arith)

decide_exit-retry : (i : ExitInputs) → decide_exit i ≡ retry → i.retry_used ≡ false
unfolding decide_exit
decide_exit-retry i h = ground arith

left-exit_action :
    (a : ExitAction) (k : Bool) (x : PassEnd) (s : Coordinator)
    → (a ≡ retry → s.retry_used ≡ false)
    → 1 + left (exit_action a k x s) ≤ (if s.retry_used then 1 else 2)
unfolding exit_action leave emit passes_left
left-exit_action silent_stop k x s h = ground arith
left-exit_action retry k x s h = ground (arith, h refl)
left-exit_action gave_up k x s h = ground arith
left-exit_action ended_eof k x s h = ground arith
left-exit_action ended_error k x s h = ground arith

retry_used-note_end : (f : Bool) (s : Coordinator) → (note_end f s).retry_used ≡ s.retry_used
unfolding note_end emit
retry_used-note_end true s = refl
retry_used-note_end false s = refl

left-end_pass :
    (e : End) (x : PassEnd) (s : Coordinator)
    → 1 + left (end_pass e x s) ≤ (if s.retry_used then 1 else 2)
unfolding end_pass exit_inputs
left-end_pass e x s =
    let t = note_end (is_decode_error e) s in
    let u = retry_used-note_end (is_decode_error e) s in
    elim (is_faded_out e)
      as (λ b.
        1
          + left (
              if b
              then leave s.flushed t
              else exit_action (decide_exit (exit_inputs e x s)) s.flushed x t)
        ≤ (if s.retry_used then 1 else 2)) [
          | true ↦ ground (arith, left-leave s.flushed t)
          | false ↦ ground (
            arith,
            u,
            left-exit_action (decide_exit (exit_inputs e x s)) s.flushed x t
                (λ r. u ∙ decide_exit-retry (exit_inputs e x s) r),
          )
        ]

left-move :
    (t : Thread) (m : Move) (s : Coordinator)
    → s.thread ≡ t
    → OnSome (λ u. ends_pass m + left u ≤ passes_left t s.retry_used) (move_at t m s)
unfolding move_at ends_pass passes_left begin_loop leave end_retry drain_look end_drain emit session
left-move entering (begun t p r) s h = ground (arith, h)
left-move running (decoder_ready t) s h = stay_left s _ h (on_decoder_ready-SamePlace t s)
left-move running output_ready s h = stay_left s _ h (on_output_ready-SamePlace s)
left-move running underrun s h = stay_left s _ h (emit-SamePlace (stat Stat.underrun) s refl)
left-move running (meta_block b) s h = stay_left s _ h (emit-SamePlace (meta b) s refl)
left-move running (pass_ended e x) s h = left-end_pass e x s
left-move (retrying keep) (retried p r) s h = ground (arith, h)
left-move (draining keep deadline) (drain_looked v) s h = ground (arith, h)
left-move (drained keep) (drain_ended l d) s h = ground (arith, h)
left-move _ _ s h = record {}

left-moves :
    (ms : List Move) (s : Coordinator) → OnSome (λ t. passes ms + left t ≤ left s) (moves ms s)
unfolding moves passes
left-moves [] s = omega arith
left-moves (m ∷ ms) s =
    OnSome-and_then (λ u. ends_pass m + left u ≤ left s)
      (λ t. ends_pass m + passes ms + left t ≤ left s) (move m s) (moves ms)
      (left-move s.thread m s refl)
      (λ u h.
        OnSome-map (λ t. passes ms + left t ≤ left u) _ (moves ms u) (λ t k. omega (arith, h, k))
          (left-moves ms u))

-- Whatever the track, the receiver and the clock answer, a stream thread that is about to enter its
-- loop ends at most two passes of the pump, and at most one when the track's retry is spent.
pub moves-passes :
    (ms : List Move) (s t : Coordinator)
    → s.thread ≡ entering
    → moves ms s ≡ some t
    → passes ms ≤ (if s.retry_used then 1 else 2)
unfolding passes_left
moves-passes ms s t h e =
    ground
      (arith, h, OnSome-elim (λ t. passes ms + left t ≤ left s) (moves ms s) t (left-moves ms s) e)
