-- ===== src/Playback/Coordinator/Runs.antt =====
-- The coordinator at a concrete track, and the theorems about it there.
use squeeze2raop.Base.{
  ◌+◌, ◌≤◌, ◌≡◌, refl, List, [], ◌∷◌, none, some, Option, true, false, ◌==◌, codes,
}
use squeeze2raop.Lms.Stat
use squeeze2raop.Lms.Protocol.{StrmStart}
use squeeze2raop.Playback.Exit.{decide_exit}
use squeeze2raop.Playback.Coordinator.State.{Call}
use squeeze2raop.Playback.Coordinator.{
  DrainLook, meta_block, aude_off, shutdown, finished, Setup, Opening, Coordinator, initial, Event,
  stream_start, cont, moving, steps, step, Move, moves, move_at, begun, decoder_ready, output_ready,
  underrun, pass_ended, drain_looked, drain_ended, retried, PassEnd, eof, stopped, receiver_lost,
  start_track, running, entering, absent, flush, joinable, emit, park, stop_output, send_stms,
  send_stml, on_decoder_ready, on_output_ready, begin_loop, leave, exit_action, exit_inputs,
  end_pass, note_end, end_retry, drain_look, end_drain, is_eof, is_decode_error, is_faded_out,
  must_wait, maybe_start_pump, attach, opened, make_track, open_track, reset_flags, rejects,
  is_empty, on_stream_start, shutdown_if, with_track, on_cont, stop_thread, join_at, request_stop,
  wake_on_stop,
}
use squeeze2raop.Playback.Coordinator.Ending.{link, draining_moves, natural_end}
use squeeze2raop.Playback.Coordinator.Returning.{shutdown-returns}
use squeeze2raop.Playback.Coordinator.Once.{times, within_track, steps-at_most_once}
use squeeze2raop.Playback.Coordinator.Passes.{passes, moves-passes}
use squeeze2raop.Playback.Coordinator.Callbacks.{session}
use squeeze2raop.Playback.Coordinator.Flushing.{is_callback, flush-session}
use squeeze2raop.Playback.Coordinator.Gate.{attached}

abbrev setup : Setup
setup = record {
  supports_format = λ f. f == b'p';
  ipv4_to_string = λ ip. codes "10.0.0.2";
  server_host = codes "lms";
}

abbrev request : StrmStart
request = record {
  autostart = 2;
  format = b'p';
  pcm = record {
    sample_size_code = b'1';
    sample_rate_code = b'3';
    channels_code = b'2';
    endian_code = b'1';
  };
  threshold_kb = 10;
  transition_type = 0;
  transition_period_s = 0;
  flags = 0;
  ssl = false;
  replay_gain = 0;
  server_ip = 0;
  server_port = 9000;
  request = codes "GET /stream";
}

abbrev opening : Opening
opening = record {
  headers = some (codes "HTTP/1.0 200 OK");
  disconnect_code = 0xff;
  attached = true;
}

abbrev lost_end : PassEnd
lost_end = record { lost = true; shutting_down = false; disconnect_code = 0xff; now = 1000 }

abbrev clean_end : PassEnd
clean_end = record { lost = false; shutting_down = false; disconnect_code = 0; now = 9000 }

-- The receiver is lost once and comes back, and the track plays to its end.
abbrev track_moves : List Move
track_moves =
    begun true true 44100
    ∷ decoder_ready true
    ∷ output_ready
    ∷ pass_ended receiver_lost lost_end
    ∷ retried true 44100
    ∷ output_ready
    ∷ pass_ended eof clean_end
    ∷ drain_looked (record { lost = false; shutting_down = false; queued = 0; now = 9020 })
    ∷ drain_ended false false
    ∷ []

abbrev moving_all : List Move → List Event
moving_all [] = []
moving_all (m ∷ ms) = moving m ∷ moving_all ms

abbrev result : Option Coordinator → Coordinator
result none = initial
result (some s) = s

abbrev ready : Coordinator
ready = record initial { track = true; thread = entering }

abbrev playing : Coordinator
playing = record ready { thread = running; stream_active = true }

started_once :
    times Stat.start
      (result (
        steps setup
          (cont ∷ moving_all track_moves)
          (start_track setup request opening initial))).log
    ≡ 1
unfolding times steps step on_cont maybe_start_pump must_wait joinable start_track reset_flags
    rejects is_empty open_track make_track opened attach emit move_at begin_loop on_decoder_ready
    send_stml send_stms on_output_ready end_pass note_end exit_inputs is_eof is_decode_error
    is_faded_out decide_exit exit_action end_retry drain_look end_drain leave
started_once = refl

steps-at_most_once_example :
    let t =
      result
        (steps setup (cont ∷ moving_all track_moves) (start_track setup request opening initial)) in
    (times Stat.start t.log ≤ times Stat.start initial.log + 1)
    × (times Stat.autostart t.log ≤ times Stat.autostart initial.log + 1)
unfolding within_track steps step on_cont maybe_start_pump must_wait joinable start_track
    reset_flags rejects is_empty open_track make_track opened attach emit move_at begin_loop
    on_decoder_ready send_stml send_stms on_output_ready end_pass note_end exit_inputs is_eof
    is_decode_error is_faded_out decide_exit exit_action end_retry drain_look end_drain leave
steps-at_most_once_example =
    steps-at_most_once setup request opening (cont ∷ moving_all track_moves) initial _
      (refl, (refl, (refl, (refl, (refl, (refl, (refl, (refl, (refl, (refl, record {})))))))))) refl

moves-passes_example : passes track_moves ≤ 2
unfolding moves move_at begin_loop on_decoder_ready send_stml send_stms on_output_ready end_pass
    note_end exit_inputs is_eof is_decode_error is_faded_out decide_exit exit_action end_retry
    drain_look end_drain leave emit
moves-passes_example = moves-passes track_moves ready (result (moves track_moves ready)) refl refl

abbrev stop_moves : List Move
stop_moves = underrun ∷ pass_ended stopped clean_end ∷ []

flush-session_example :
    let t = result (flush (meta_block [] ∷ []) stop_moves playing) in
    (t.thread ≡ absent) × (session t.log ≡ park ∷ [])
unfolding session flush shutdown_if stop_thread request_stop wake_on_stop with_track join_at moves
    move_at end_pass note_end exit_inputs is_decode_error is_faded_out decide_exit exit_action leave
    emit joinable is_eof is_callback
flush-session_example =
    flush-session (meta_block [] ∷ []) stop_moves playing
      (result (flush (meta_block [] ∷ []) stop_moves playing)) refl (refl, record {}) refl

-- A receiver that is lost between the store of `flushed_` and the request to stop uses the flush up:
-- the retry goes on without it, and the session is stopped.
lost_in_flush :
    session
      (result (
        flush
          (pass_ended receiver_lost lost_end ∷ [])
          (retried true 44100 ∷ pass_ended stopped clean_end ∷ [])
          playing)).log
    ≡ stop_output false ∷ []
unfolding session flush shutdown_if stop_thread request_stop wake_on_stop with_track join_at moves
    move_at end_pass end_retry note_end exit_inputs is_decode_error is_faded_out decide_exit
    exit_action leave emit joinable is_eof
lost_in_flush = refl

abbrev looks : List DrainLook
looks =
    record { lost = false; shutting_down = false; queued = 500; now = 9010 }
    ∷ record { lost = false; shutting_down = false; queued = 0; now = 9030 }
    ∷ []

natural_end_example :
    let t = result (moves (pass_ended eof clean_end ∷ draining_moves looks false false) playing) in
    (t.thread ≡ finished)
    × (link t.log ≡ Call.stat Stat.end ∷ Call.stat Stat.done ∷ Call.disco 0 ∷ [])
    × (session t.log ≡ stop_output false ∷ [])
unfolding session link moves move_at draining_moves end_pass note_end exit_inputs is_decode_error
    is_faded_out decide_exit exit_action leave emit is_eof drain_look end_drain
natural_end_example =
    natural_end clean_end looks false false playing
      (result (moves (pass_ended eof clean_end ∷ draining_moves looks false false) playing)) refl
      refl refl refl refl

shutdown-returns_example :
    let all = underrun ∷ pass_ended stopped clean_end ∷ [] in
    (t : Coordinator) × (shutdown all playing ≡ some t)
    × (aude_off all playing ≡ some (emit (stop_output true) t))
    × (on_stream_start setup request opening all playing
        ≡ some (start_track setup request opening t))
unfolding is_callback
shutdown-returns_example =
    shutdown-returns setup request opening (underrun ∷ []) stopped clean_end playing
      (refl, record {}) refl

-- A track that is refused leaves the closed track of the stream before in place: a 'cont' that comes
-- then starts the pump on it.
refused_then_cont :
    (result (
      steps setup
        (stream_start (record request { format = b'x' }) opening [] ∷ cont ∷ [])
        (record initial { track = true }))).thread
    ≡ entering
unfolding steps step on_stream_start shutdown_if with_track on_cont maybe_start_pump must_wait
    joinable start_track reset_flags rejects is_empty emit
refused_then_cont = refl
