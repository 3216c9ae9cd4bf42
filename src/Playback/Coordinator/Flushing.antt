-- ===== src/Playback/Coordinator/Flushing.antt =====
-- What a handler that joins the stream thread does to the receiver's session: what a flush, a stop and a
-- power-off leave of it.
use squeeze2raop.Base.{
  ◌≡◌, refl, sym, ◌∙◌, ap, ap₂, List, [], ◌∷◌, some, Bool, true, false, if◌then◌else◌, OnSome, All,
  OnSome-and_then, OnSome-elim, OnSome-map, ◌⊎◌, inl, inr, ◌||◌,
}
use mathlib.Core.Bool.{true≢false}
use mathlib.Core.Path.{subst}
use squeeze2raop.Lms.Stat
use squeeze2raop.Playback.Exit.{ExitInputs, decide_exit}
use squeeze2raop.Playback.Coordinator.Callbacks.{
  session, SamePlace, SamePlace-trans, if-SamePlace, SamePlace-refl, emit-SamePlace,
  on_decoder_ready-SamePlace, on_output_ready-SamePlace,
}
use squeeze2raop.Playback.Coordinator.State.{
  Call, Coordinator, stat, meta, park, stop_output, silence, request_fade_out, interrupt,
  unpause_track, close_track, Thread, absent, entering, running, finished, emit, End, joinable,
}
use squeeze2raop.Playback.Coordinator.Loop.{
  Move, PassEnd, decoder_ready, output_ready, underrun, meta_block, pass_ended, leave, exit_action,
  exit_inputs, end_pass, move_at, move, moves, is_decode_error, is_faded_out, note_end,
}
use squeeze2raop.Playback.Coordinator.Handlers.{
  request_stop, wake_on_stop, with_track, join, join_at, stop_thread, shutdown, shutdown_if, flush,
}

abbrev pub farewell : Bool → Call
farewell keep = if keep then park else stop_output false

-- The pump goes on, or the loop has returned and has said farewell to the session once.
Ending : Coordinator → Coordinator → Type 0
Ending s t =
    SamePlace s t ⊎ ((t.thread ≡ finished) × (session t.log ≡ farewell s.flushed ∷ session s.log))

pub leave-session :
    (k : Bool) (s : Coordinator)
    → ((leave k s).thread ≡ finished) × (session (leave k s).log ≡ farewell k ∷ session s.log)
unfolding leave emit session
leave-session true s = (refl, refl)
leave-session false s = (refl, refl)

note_end-session : (f : Bool) (s : Coordinator) → session (note_end f s).log ≡ session s.log
unfolding note_end emit session
note_end-session true s = refl
note_end-session false s = refl

if_same : (b : Bool) (s t : Coordinator) → t ≡ s → (if b then s else t) ≡ s
if_same true s t h = refl
if_same false s t h = h

exit_action-leave :
    (i : ExitInputs) (k : Bool) (x : PassEnd) (s : Coordinator)
    → i.stopping ≡ true
    → exit_action (decide_exit i) k x s ≡ leave k s
unfolding decide_exit exit_action
exit_action-leave i k x s h = rw h refl

-- When a stop is asked for, a pass ends without a retry and without a word.
pub end_pass-leave :
    (e : End) (x : PassEnd) (s : Coordinator)
    → s.stop_requested ≡ true
    → end_pass e x s ≡ leave s.flushed (note_end (is_decode_error e) s)
unfolding end_pass exit_inputs
end_pass-leave e x s h = if_same (is_faded_out e) _ _ (
    exit_action-leave (exit_inputs e x s) s.flushed x (note_end (is_decode_error e) s)
      (ap (λ b. b || x.shutting_down) h))

end_pass-Ending :
    (e : End) (x : PassEnd) (s : Coordinator) → s.stop_requested ≡ true → Ending s (end_pass e x s)
unfolding Ending
end_pass-Ending e x s h =
    let t = note_end (is_decode_error e) s in
    let l = leave-session s.flushed t in
    let said = ap (◌∷◌ (farewell s.flushed)) (note_end-session (is_decode_error e) s) in
    rw (end_pass-leave e x s h) (inr (l.0, l.1 ∙ said))

move-Ending :
    (m : Move) (s : Coordinator) → s.stop_requested ≡ true → OnSome (Ending s) (move_at running m s)
unfolding move_at session Ending
move-Ending (decoder_ready t) s p = inl (on_decoder_ready-SamePlace t s)
move-Ending output_ready s p = inl (on_output_ready-SamePlace s)
move-Ending underrun s p = inl (emit-SamePlace (stat Stat.underrun) s refl)
move-Ending (meta_block b) s p = inl (emit-SamePlace (meta b) s refl)
move-Ending (pass_ended e x) s p = end_pass-Ending e x s p
move-Ending _ s p = record {}

-- A thread that has returned makes no move.
finished-moves :
    (ms : List Move) (s : Coordinator) → s.thread ≡ finished → OnSome (λ t. t ≡ s) (moves ms s)
unfolding moves move_at
finished-moves [] s h = refl
finished-moves (m ∷ ms) s h = rw h record {}

Ending-trans : (s t u : Coordinator) → SamePlace s t → Ending t u → Ending s u
unfolding Ending
Ending-trans s t u h (inl k) = inl (SamePlace-trans s t u h k)
Ending-trans s t u h (inr k) =
    inr (k.0, k.1 ∙ ap₂ (λ b l. farewell b ∷ l) h.same_flushed h.same_session)

moves-Ending :
    (ms : List Move) (s : Coordinator)
    → s.thread ≡ running
    → s.stop_requested ≡ true
    → OnSome (Ending s) (moves ms s)
unfolding moves Ending
moves-Ending [] s h p = inl (SamePlace-refl s)
moves-Ending (m ∷ ms) s h p =
    OnSome-and_then (Ending s) (Ending s) (move m s) (moves ms)
      (subst (λ r. OnSome (Ending s) (move_at r m s)) (sym h) (move-Ending m s p))
      (λ t e. elim e [
        | inl k ↦
            OnSome-map (Ending t) (Ending s) (moves ms t) (λ u. Ending-trans s t u k)
              (moves-Ending ms t (k.same_thread ∙ h) (k.same_stop ∙ p))
        | inr k ↦
            OnSome-map (λ u. u ≡ t) (Ending s) (moves ms t) (λ u q. rw q (inr k))
              (finished-moves ms t k.0)
      ])

-- What the reader finds when the thread has been joined.
Joined : Coordinator → Coordinator → Type 0
Joined s t = (t.thread ≡ absent) × (session t.log ≡ farewell s.flushed ∷ session s.log)

pub wake-SamePlace : (t : Thread) (s : Coordinator) → SamePlace s (wake_on_stop t s)
unfolding wake_on_stop session
wake-SamePlace absent s = SamePlace-refl s
wake-SamePlace entering s = SamePlace-refl s
wake-SamePlace finished s = SamePlace-refl s
wake-SamePlace _ s = emit-SamePlace interrupt s refl

pub with_track-SamePlace :
    (c : Call) (s : Coordinator)
    → session (c ∷ s.log) ≡ session s.log
    → SamePlace s (with_track c s)
unfolding with_track
with_track-SamePlace c s h =
    if-SamePlace s.track s (emit c s) s (emit-SamePlace c s h) (SamePlace-refl s)

join-Joined : (s t : Coordinator) → s.thread ≡ running → Ending s t → OnSome (Joined s) (join t)
unfolding Ending join_at Joined
join-Joined s t h (inl k) = rw (k.same_thread, h) record {}
join-Joined s t h (inr k) = rw k.0 (refl, k.1)

stop_thread-Joined :
    (ms : List Move) (s : Coordinator) → s.thread ≡ running → OnSome (Joined s) (stop_thread ms s)
unfolding stop_thread request_stop session Joined
stop_thread-Joined ms s h =
    let r = record s { stop_requested = true } in
    let w = wake_on_stop s.thread r in
    let t = with_track (unpause_track 0) w in
    let p =
      SamePlace-trans r w t (wake-SamePlace s.thread r)
        (with_track-SamePlace (unpause_track 0) w refl) in
    OnSome-and_then (Ending t) (Joined s) (moves ms t) join
      (moves-Ending ms t (p.same_thread ∙ h) p.same_stop)
      (λ u e.
        OnSome-map (Joined r) (Joined s) (join u) (λ v j. j)
          (join-Joined r u h (Ending-trans r t u p e)))

shutdown-Joined :
    (ms : List Move) (s : Coordinator) → s.thread ≡ running → OnSome (Joined s) (shutdown ms s)
unfolding shutdown_if joinable session Joined
shutdown-Joined ms s h =
    subst (λ b. OnSome (Joined s) (shutdown_if b ms s)) (sym (ap joinable h))
      (OnSome-and_then (Joined s) (Joined s) (stop_thread ms s)
        (λ t. some (with_track close_track t)) (stop_thread-Joined ms s h)
        (λ t j.
          let p = with_track-SamePlace close_track t refl in
          (p.same_thread ∙ j.0, p.same_session ∙ j.1)))

-- The moves that the pump makes through its callbacks.
unfoldable pub is_callback : Move → Bool
is_callback (decoder_ready _) = true
is_callback output_ready = true
is_callback underrun = true
is_callback (meta_block _) = true
is_callback _ = false

pub callback-SamePlace :
    (m : Move) (s : Coordinator)
    → is_callback m ≡ true
    → (u : Coordinator) × (move_at running m s ≡ some u) × SamePlace s u
unfolding is_callback move_at session
callback-SamePlace (decoder_ready t) s h = (_, refl, on_decoder_ready-SamePlace t s)
callback-SamePlace output_ready s h = (_, refl, on_output_ready-SamePlace s)
callback-SamePlace underrun s h = (_, refl, emit-SamePlace (stat Stat.underrun) s refl)
callback-SamePlace (meta_block b) s h = (_, refl, emit-SamePlace (meta b) s refl)
callback-SamePlace _ s h = elim (true≢false (sym h)) [ ]

callbacks-SamePlace :
    (ms : List Move) (s : Coordinator)
    → s.thread ≡ running
    → All (λ m. is_callback m ≡ true) ms
    → OnSome (SamePlace s) (moves ms s)
unfolding moves
callbacks-SamePlace [] s h c = SamePlace-refl s
callbacks-SamePlace (m ∷ ms) s h (c, cs) =
    let (u, e, p) = callback-SamePlace m s c in
    let first : move m s ≡ some u = ap (λ t. move_at t m s) h ∙ e in
    rw first (
      OnSome-map (SamePlace u) (SamePlace s) (moves ms u) (λ v. SamePlace-trans s u v p)
        (callbacks-SamePlace ms u (p.same_thread ∙ h) cs))

flush-Joined :
    (early ms : List Move) (s : Coordinator)
    → s.thread ≡ running
    → All (λ m. is_callback m ≡ true) early
    → OnSome (λ t. (t.thread ≡ absent) × (session t.log ≡ park ∷ session s.log)) (flush early ms s)
unfolding flush Joined session emit
flush-Joined early ms s h c =
    let r = record s { flushed = true } in
    OnSome-and_then (SamePlace r) _ (moves early r) _ (callbacks-SamePlace early r h c) (λ u p.
      OnSome-and_then (Joined u) _ (shutdown ms u) (λ t. some (emit silence t))
        (shutdown-Joined ms u (p.same_thread ∙ h))
        (λ t j. (j.0, j.1 ∙ ap₂ (λ b l. farewell b ∷ l) p.same_flushed p.same_session)))

-- When a flush of a running track comes back, and the pump made only callbacks between the store of
-- `flushed_` and the request to stop, then whatever the thread did after it, callbacks, a fade and a lost
-- receiver included: the thread has been joined, and the receiver's session was parked once and never
-- stopped.
pub flush-session :
    (early ms : List Move) (s t : Coordinator)
    → s.thread ≡ running
    → All (λ m. is_callback m ≡ true) early
    → flush early ms s ≡ some t
    → (t.thread ≡ absent) × (session t.log ≡ park ∷ session s.log)
flush-session early ms s t h c e =
    OnSome-elim _ (flush early ms s) t (flush-Joined early ms s h c) e

-- The loop and then the handler have stopped the session, and the thread has been joined.
abbrev pub TornDown : Coordinator → Coordinator → Type 0
TornDown s t =
    (t.thread ≡ absent) × (session t.log ≡ stop_output true ∷ stop_output false ∷ session s.log)

-- The track is active and fades out, and the handler has only asked for that; or all is torn down.
abbrev pub Stopped : Bool → Coordinator → Coordinator → Type 0
Stopped fading s t = (fading ≡ true) × (t ≡ emit request_fade_out s) ⊎ TornDown s t
