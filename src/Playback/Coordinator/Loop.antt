-- ===== src/Playback/Coordinator/Loop.antt =====
-- The stream thread: `streamLoop`, its callbacks and `waitForOutputDrain`, one move at a time. A move
-- carries what the output, the track and the clock answer in it.
use squeeze2raop.Base.{
  ℕ, ◌+◌, ◌==◌, leb, u64, if◌then◌else◌, Bool, true, false, not, ◌&&◌, ◌||◌, Option, none, some,
  List, [], ◌∷◌, and_then,
}
use squeeze2raop.Lms.Protocol.{autostart_decoder_ready}
use squeeze2raop.Lms.Stat
use squeeze2raop.Playback.Exit.{
  ExitAction, ExitInputs, silent_stop, retry, gave_up, ended_eof, ended_error, decide_exit,
}
use squeeze2raop.Playback.Coordinator.State.{
  End, faded_out, eof, decode_error, disconnect_none, retry_delay_ms, drain_timeout_ms,
  drain_pump_ms, Call, disco, meta, unpark, prepare, consume_lost, park, stop_output, pump, launch,
  set_queued, interrupt, reapply_now_playing, close_track, sleep, Coordinator, emit, Thread,
  entering, running, retrying, draining, drained, finished,
}

-- What is answered when a pass of the pump has ended: `output_.consumeLost()`, `!g_run`,
-- `track_->disconnectCode()` and `nowMs()`. The pass ends where `flushed_` is exchanged; a stop that is
-- asked for between that and the look at the stop is seen like `!g_run`, by `shutting_down`.
pub record PassEnd : Type 0 where
  pub lost : Bool
  pub shutting_down : Bool
  pub disconnect_code : ℕ
  pub now : ℕ

-- One look of `waitForOutputDrain`: `output_.lost()`, `!g_run`, `output_.queued()` and `nowMs()`.
pub record DrainLook : Type 0 where
  pub lost : Bool
  pub shutting_down : Bool
  pub queued : ℕ
  pub now : ℕ

pub data Move : Type 0 where
  begun : (has_target prepared : Bool) (sample_rate : ℕ) → Move
  decoder_ready : (has_target : Bool) → Move
  output_ready : Move
  underrun : Move
  meta_block : List ℕ → Move
  pass_ended : End → PassEnd → Move
  retried : (prepared : Bool) (sample_rate : ℕ) → Move
  drain_looked : DrainLook → Move
  drain_ended : (lost shutting_down : Bool) → Move

unfoldable pub is_eof : End → Bool
is_eof eof = true
is_eof _ = false

unfoldable pub is_decode_error : End → Bool
is_decode_error decode_error = true
is_decode_error _ = false

unfoldable pub is_faded_out : End → Bool
is_faded_out faded_out = true
is_faded_out _ = false

-- `link_.stat(code)`.
abbrev pub report : List ℕ → Coordinator → Coordinator
report code s = emit (Call.stat code) s

-- `if (!sentStms_) {..}`.
unfoldable pub send_stms : Coordinator → Coordinator
send_stms s = if s.sent_stms then s else report Stat.start (record s { sent_stms = true })

unfoldable pub send_stml : Coordinator → Coordinator
send_stml s =
    if (s.autostart == autostart_decoder_ready) && not s.sent_stml
    then report Stat.autostart (record s { sent_stml = true })
    else s

unfoldable pub on_decoder_ready : Bool → Coordinator → Coordinator
on_decoder_ready has_target s = if has_target then send_stml s else send_stms (send_stml s)

unfoldable pub on_output_ready : Coordinator → Coordinator
on_output_ready s = emit launch (send_stms s)

-- The head of `streamLoop`, up to the first pass.
unfoldable pub begin_loop : Bool → Bool → ℕ → Coordinator → Coordinator
begin_loop has_target prepared rate s =
    if not s.track
    then record s { thread = finished; stream_active = false }
    else let s1 = record s { stream_active = true } in
      let s2 = emit unpark (if s.stop_requested then emit interrupt s1 else s1) in
      if not has_target
      then record s2 { thread = running }
      else if prepared
      then record (emit (prepare rate) s2) { thread = running }
      else record (report Stat.error (emit (prepare rate) s2)) {
        thread = finished;
        stream_active = false;
      }

-- The foot of `streamLoop`: park or stop the session, close the track.
unfoldable pub leave : Bool → Coordinator → Coordinator
leave keep s = record (emit close_track (emit (if keep then park else stop_output false) s)) {
  thread = finished;
  stream_active = false;
}

unfoldable pub exit_action : ExitAction → Bool → PassEnd → Coordinator → Coordinator
exit_action silent_stop keep x s = leave keep s
exit_action retry keep x s = record (emit (sleep retry_delay_ms) s) {
  retry_used = true;
  thread = retrying keep;
}
exit_action gave_up keep x s = leave keep (report Stat.done s)
exit_action ended_eof keep x s = record (report Stat.done (emit (disco x.disconnect_code) s)) {
  thread = draining keep (u64 (x.now + drain_timeout_ms));
}
exit_action ended_error keep x s =
    if x.disconnect_code == disconnect_none
    then leave keep (report Stat.end s)
    else leave keep (report Stat.error (emit (disco x.disconnect_code) s))

unfoldable pub exit_inputs : End → PassEnd → Coordinator → ExitInputs
exit_inputs e x s = record {
  stopping = s.stop_requested || x.shutting_down;
  lost = x.lost;
  retry_used = s.retry_used;
  reached_eof = is_eof e;
}

-- A decode error is reported, the flush is taken note of, and so is a lost receiver.
unfoldable pub note_end : Bool → Coordinator → Coordinator
note_end failed s =
    let s1 = if failed then report Stat.error s else s in
    emit consume_lost (record s1 { flushed = false })

-- The end of a pass; `keepSession` is what `flushed` was.
unfoldable pub end_pass : End → PassEnd → Coordinator → Coordinator
end_pass e x s =
    let s1 = note_end (is_decode_error e) s in
    if is_faded_out e
    then leave s.flushed s1
    else exit_action (decide_exit (exit_inputs e x s)) s.flushed x s1

-- The new session of a retry: back into the pump, or an error.
unfoldable pub end_retry : Bool → ℕ → Bool → Coordinator → Coordinator
end_retry prepared rate keep s =
    let s1 = emit (prepare rate) s in
    if prepared
    then record (emit reapply_now_playing s1) { thread = running }
    else leave keep (report Stat.error s1)

unfoldable pub drain_look : DrainLook → Bool → ℕ → Coordinator → Coordinator
drain_look v keep deadline s =
    if s.stop_requested || v.shutting_down || v.lost
    then record s { thread = drained keep }
    else let s1 = emit (set_queued v.queued) s in
      if (v.queued == 0) || leb deadline v.now
      then record s1 { thread = drained keep }
      else emit (pump drain_pump_ms) s1

unfoldable pub end_drain : Bool → Bool → Bool → Coordinator → Coordinator
end_drain lost shutting_down keep s =
    leave keep (if s.stop_requested || shutting_down || lost then s else report Stat.end s)

-- A move that the thread is not at is none.
unfoldable pub move_at : Thread → Move → Coordinator → Option Coordinator
move_at entering (begun t p r) s = some (begin_loop t p r s)
move_at running (decoder_ready t) s = some (on_decoder_ready t s)
move_at running output_ready s = some (on_output_ready s)
move_at running underrun s = some (report Stat.underrun s)
move_at running (meta_block b) s = some (emit (meta b) s)
move_at running (pass_ended e x) s = some (end_pass e x s)
move_at (retrying keep) (retried p r) s = some (end_retry p r keep s)
move_at (draining keep deadline) (drain_looked v) s = some (drain_look v keep deadline s)
move_at (drained keep) (drain_ended l d) s = some (end_drain l d keep s)
move_at _ _ s = none

abbrev pub move : Move → Coordinator → Option Coordinator
move m s = move_at s.thread m s

unfoldable pub moves : List Move → Coordinator → Option Coordinator
moves [] s = some s
moves (m ∷ ms) s = and_then (move m s) (moves ms)
