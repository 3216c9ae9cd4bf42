-- ===== src/Playback/Coordinator/Ending.antt =====
-- The natural end of a track, from the last byte of the source to the end of the output.
use squeeze2raop.Base.{
  ℕ, ◌≡◌, refl, sym, ◌∙◌, ap, arith, List, [], ◌∷◌, some, Bool, true, false, if◌then◌else◌, OnSome,
  OnSome-elim, OnSome-map, and_then, u64, ◌+◌, ◌⊎◌, inl, inr, ◌||◌, ◌==◌, leb,
}
use mathlib.Core.Path.{subst}
use squeeze2raop.Lms.Stat
use squeeze2raop.Playback.Exit.{decide_exit}
use squeeze2raop.Playback.Coordinator.Callbacks.{session}
use squeeze2raop.Playback.Coordinator.Flushing.{farewell}
use squeeze2raop.Playback.Coordinator.State.{
  Call, Coordinator, stat, disco, resp, meta, running, draining, drained, finished, emit, eof,
}
use squeeze2raop.Playback.Coordinator.Loop.{
  Move, PassEnd, DrainLook, pass_ended, drain_looked, drain_ended, leave, exit_action, exit_inputs,
  end_pass, drain_look, end_drain, move_at, moves, is_decode_error, is_faded_out, is_eof, note_end,
}

-- What LMS is sent.
unfoldable pub link : List Call → List Call
link [] = []
link (stat c ∷ log) = stat c ∷ link log
link (disco c ∷ log) = disco c ∷ link log
link (resp h ∷ log) = resp h ∷ link log
link (meta b ∷ log) = meta b ∷ link log
link (_ ∷ log) = link log

-- The looks of the drain, and its end.
unfoldable pub draining_moves : List DrainLook → Bool → Bool → List Move
draining_moves [] lost shutting_down = drain_ended lost shutting_down ∷ []
draining_moves (v ∷ vs) lost shutting_down = drain_looked v ∷ draining_moves vs lost shutting_down

-- STMu is sent unless the receiver was lost or the program stops.
abbrev pub underrun_report : Bool → List Call → List Call
underrun_report silent log = if silent then log else stat Stat.end ∷ log

record Ended (keep silent : Bool) (s t : Coordinator) : Type 0 where
  over : t.thread ≡ finished
  told : link t.log ≡ underrun_report silent (link s.log)
  left : session t.log ≡ farewell keep ∷ session s.log

-- A look changes neither what was told nor the session, and stays in the drain or ends it.
record Drains (keep : Bool) (deadline : ℕ) (s t : Coordinator) : Type 0 where
  place : (t.thread ≡ draining keep deadline) ⊎ (t.thread ≡ drained keep)
  stop : t.stop_requested ≡ s.stop_requested
  link_same : link t.log ≡ link s.log
  session_same : session t.log ≡ session s.log

drain_look-Drains :
    (v : DrainLook) (k : Bool) (d : ℕ) (s : Coordinator)
    → s.thread ≡ draining k d
    → Drains k d s (drain_look v k d s)
unfolding drain_look emit link session
drain_look-Drains v k d s h =
    elim (s.stop_requested || v.shutting_down || v.lost)
      as (λ b. Drains k d s (if b then record s { thread = drained k } else looked)) [
        | true ↦ record { place = inr refl; stop = refl; link_same = refl; session_same = refl }
        | false ↦
            elim ((v.queued == 0) || leb d v.now)
              as (λ b. Drains k d s (
                if b
                then record (emit (Call.set_queued v.queued) s) { thread = drained k }
                else emit (Call.pump 20) (emit (Call.set_queued v.queued) s))) [
                  | true ↦ record {
                    place = inr refl;
                    stop = refl;
                    link_same = refl;
                    session_same = refl;
                  }
                  | false ↦ record {
                    place = inl h;
                    stop = refl;
                    link_same = refl;
                    session_same = refl;
                  }
                ]
      ]
  where
    looked : Coordinator
    looked =
        if (v.queued == 0) || leb d v.now
        then record (emit (Call.set_queued v.queued) s) { thread = drained k }
        else emit (Call.pump 20) (emit (Call.set_queued v.queued) s)

end_drain-Ended :
    (l d k : Bool) (s : Coordinator)
    → s.stop_requested ≡ false
    → Ended k (d || l) s (end_drain l d k s)
unfolding end_drain leave emit link session
end_drain-Ended l d true s h = record { over = refl; told = ground (arith, h); left = ground arith }
end_drain-Ended l d false s h = record {
  over = refl;
  told = ground (arith, h);
  left = ground arith;
}

Ended-after :
    (k b : Bool) (s t u : Coordinator)
    → link t.log ≡ link s.log
    → session t.log ≡ session s.log
    → Ended k b t u
    → Ended k b s u
Ended-after k b s t u hl hs e = record {
  over = e.over;
  told = e.told ∙ ap (underrun_report b) hl;
  left = e.left ∙ ap (◌∷◌ (farewell k)) hs;
}

-- The one move that may follow, by where the thread stands.
drained-moves :
    (vs : List DrainLook) (l d k : Bool) (dl : ℕ) (s : Coordinator)
    → (s.thread ≡ draining k dl) ⊎ (s.thread ≡ drained k)
    → s.stop_requested ≡ false
    → OnSome (Ended k (d || l) s) (moves (draining_moves vs l d) s)
unfolding moves draining_moves move_at
drained-moves [] l d k dl s (inl h) p =
    subst (λ t. OnSome (Ended k (d || l) s) (and_then (move_at t (drain_ended l d) s) some)) (sym h)
      (record {})
drained-moves [] l d k dl s (inr h) p =
    subst (λ t. OnSome (Ended k (d || l) s) (and_then (move_at t (drain_ended l d) s) some)) (sym h)
      (end_drain-Ended l d k s p)
drained-moves (v ∷ vs) l d k dl s (inr h) p =
    subst
      (λ t.
        OnSome (Ended k (d || l) s)
          (and_then (move_at t (drain_looked v) s) (moves (draining_moves vs l d))))
      (sym h) (record {})
drained-moves (v ∷ vs) l d k dl s (inl h) p =
    let u = drain_look v k dl s in
    let r = drain_look-Drains v k dl s h in
    subst
      (λ t.
        OnSome (Ended k (d || l) s)
          (and_then (move_at t (drain_looked v) s) (moves (draining_moves vs l d))))
      (sym h)
      (OnSome-map (Ended k (d || l) u) (Ended k (d || l) s) (moves (draining_moves vs l d) u)
        (λ t. Ended-after k (d || l) s u t r.link_same r.session_same)
        (drained-moves vs l d k dl u r.place (r.stop ∙ p)))

-- The end of the source, when nobody stops the track and the receiver is there.
end_pass-eof :
    (x : PassEnd) (s : Coordinator)
    → s.stop_requested ≡ false
    → x.shutting_down ≡ false
    → x.lost ≡ false
    → let t = end_pass eof x s in
      (t.thread ≡ draining s.flushed (u64 (x.now + 5000)))
      × (t.stop_requested ≡ false)
      × (link t.log ≡ stat Stat.done ∷ disco x.disconnect_code ∷ link s.log)
      × (session t.log ≡ session s.log)
unfolding end_pass note_end is_decode_error is_faded_out exit_inputs is_eof decide_exit exit_action
    emit link session
end_pass-eof x s h hs hl = rw (h, hs, hl) (refl, refl, refl, refl)

-- When the source has ended with the decoder drained, nobody stops the track and the receiver is there,
-- and the loop then returns, however often the drain looks at the ring: LMS is sent the disconnect, the
-- end of decoding (STMd) and, unless the receiver was lost or the program stops in the meantime, the end
-- of output (STMu), in that order and nothing else; and the session is parked or stopped once.
pub natural_end :
    (x : PassEnd) (vs : List DrainLook) (l d : Bool) (s t : Coordinator)
    → s.thread ≡ running
    → s.stop_requested ≡ false
    → x.shutting_down ≡ false
    → x.lost ≡ false
    → moves (pass_ended eof x ∷ draining_moves vs l d) s ≡ some t
    → (t.thread ≡ finished)
      × (link t.log
          ≡ underrun_report (d || l) (stat Stat.done ∷ disco x.disconnect_code ∷ link s.log))
      × (session t.log ≡ farewell s.flushed ∷ session s.log)
unfolding moves move_at
natural_end x vs l d s t r h hs hl e =
    let u = end_pass eof x s in
    let p = end_pass-eof x s h hs hl in
    let all : OnSome (Ended s.flushed (d || l) u) (moves (draining_moves vs l d) u) =
      drained-moves vs l d s.flushed (u64 (x.now + 5000)) u (inl p.0) p.1 in
    let step : and_then (move_at running (pass_ended eof x) s) (moves (draining_moves vs l d))
        ≡ some t =
      subst
        (λ q. and_then (move_at q (pass_ended eof x) s) (moves (draining_moves vs l d)) ≡ some t) r
        e in
    let f = OnSome-elim (Ended s.flushed (d || l) u) (moves (draining_moves vs l d) u) t all step in
    (f.over, f.told ∙ ap (underrun_report (d || l)) p.2, f.left ∙ ap (◌∷◌ (farewell s.flushed)) p.3)
