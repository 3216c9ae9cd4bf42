-- ===== src/Playback/Coordinator/Returning.antt =====
-- A shutdown, and what begins with one, comes back as soon as the pump does.
use squeeze2raop.Base.{◌≡◌, refl, ◌∙◌, ap, List, [], ◌∷◌, ◌++◌, All, some, true, and_then}
use squeeze2raop.Playback.Coordinator.Callbacks.{session, SamePlace-trans}
use squeeze2raop.Playback.Coordinator.Flushing.{
  is_callback, callback-SamePlace, end_pass-leave, leave-session, with_track-SamePlace,
  wake-SamePlace,
}
use squeeze2raop.Playback.Coordinator.State.{
  Coordinator, unpause_track, close_track, stop_output, emit, running, finished, End, joinable,
}
use squeeze2raop.Playback.Coordinator.Loop.{
  Move, PassEnd, pass_ended, end_pass, move_at, move, moves, is_decode_error, note_end,
}
use squeeze2raop.Playback.Coordinator.Handlers.{
  request_stop, wake_on_stop, with_track, join, join_at, stop_thread, shutdown, shutdown_if, Setup,
  Opening, aude_off, tear_down, on_stream_start, start_track,
}
use squeeze2raop.Lms.Protocol.{StrmStart}

moves-finished :
    (ms : List Move) (e : End) (x : PassEnd) (s : Coordinator)
    → All (λ m. is_callback m ≡ true) ms
    → s.thread ≡ running
    → s.stop_requested ≡ true
    → (u : Coordinator) × (moves (ms ++ (pass_ended e x ∷ [])) s ≡ some u) × (u.thread ≡ finished)
unfolding moves move_at
moves-finished [] e x s a h p = (
  end_pass e x s,
  ap (λ t. and_then (move_at t (pass_ended e x) s) some) h,
  ap (λ u. u.thread) (end_pass-leave e x s p)
      ∙ (leave-session s.flushed (note_end (is_decode_error e) s)).0,
)
moves-finished (m ∷ ms) e x s a h p =
    let (u, q, c) = callback-SamePlace m s a.0 in
    let (t, r, f) = moves-finished ms e x u a.1 (c.same_thread ∙ h) (c.same_stop ∙ p) in
    let first : move m s ≡ some u = ap (λ t. move_at t m s) h ∙ q in
    (t, ap (λ o. and_then o (moves (ms ++ (pass_ended e x ∷ [])))) first ∙ r, f)

join-returns : (u : Coordinator) → u.thread ≡ finished → (t : Coordinator) × (join u ≡ some t)
unfolding join_at
join-returns u f = (_, ap (λ t. join_at t u) f)

shutdown_returns :
    (ms : List Move) (e : End) (x : PassEnd) (s : Coordinator)
    → All (λ m. is_callback m ≡ true) ms
    → s.thread ≡ running
    → (t : Coordinator) × (shutdown (ms ++ (pass_ended e x ∷ [])) s ≡ some t)
unfolding shutdown_if stop_thread request_stop session joinable
shutdown_returns ms e x s a h =
    let all = ms ++ (pass_ended e x ∷ []) in
    let r = record s { stop_requested = true } in
    let w = wake_on_stop s.thread r in
    let b = with_track (unpause_track 0) w in
    let p =
      SamePlace-trans r w b (wake-SamePlace s.thread r)
        (with_track-SamePlace (unpause_track 0) w refl) in
    let (u, q, f) = moves-finished ms e x b a (p.same_thread ∙ h) p.same_stop in
    let (t, j) = join-returns u f in
    let stopped : stop_thread all s ≡ some t = ap (λ o. and_then o join) q ∙ j in
    (
      with_track close_track t,
      ap (λ b. shutdown_if b all s) (ap joinable h)
          ∙ ap (λ o. and_then o (λ t. some (with_track close_track t))) stopped,
    )

-- While a track plays: whatever callbacks the pump still makes, and however it then ends, a shutdown
-- comes back, and so do a power-off and the start of the next track, each with what it does behind its
-- shutdown.
pub shutdown-returns :
    (setup : Setup) (st : StrmStart) (o : Opening) (ms : List Move) (e : End) (x : PassEnd)
    (s : Coordinator)
    → All (λ m. is_callback m ≡ true) ms
    → s.thread ≡ running
    → let all = ms ++ (pass_ended e x ∷ []) in
      (t : Coordinator) × (shutdown all s ≡ some t)
      × (aude_off all s ≡ some (emit (stop_output true) t))
      × (on_stream_start setup st o all s ≡ some (start_track setup st o t))
unfolding aude_off tear_down on_stream_start
shutdown-returns setup st o ms e x s a h =
    let (t, back) = shutdown_returns ms e x s a h in
    (
      t,
      back,
      ap (λ r. and_then r (λ u. some (emit (stop_output true) u))) back,
      ap (λ r. and_then r (λ u. some (start_track setup st o u))) back,
    )
