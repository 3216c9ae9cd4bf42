-- ===== src/Playback/Coordinator/Callbacks.antt =====
-- The callbacks of the track's pump report to LMS and launch the receiver, and leave the rest alone.
use squeeze2raop.Base.{◌≡◌, refl, ◌∙◌, List, [], ◌∷◌, Bool, true, false, if◌then◌else◌}
use squeeze2raop.Lms.Stat
use squeeze2raop.Playback.Coordinator.State.{
  Call, park, stop_output, launch, stat, Coordinator, emit,
}
use squeeze2raop.Playback.Coordinator.Loop.{send_stms, send_stml, on_decoder_ready, on_output_ready}

-- The calls that end a receiver session or keep it.
unfoldable pub session : List Call → List Call
session [] = []
session (park ∷ log) = park ∷ session log
session (stop_output b ∷ log) = stop_output b ∷ session log
session (_ ∷ log) = session log

pub record SamePlace (s t : Coordinator) : Type 0 where
  pub same_thread : t.thread ≡ s.thread
  pub same_stop : t.stop_requested ≡ s.stop_requested
  pub same_track : t.track ≡ s.track
  pub same_autostart : t.autostart ≡ s.autostart
  pub same_await : t.await_codc ≡ s.await_codc
  pub same_codc : t.have_codc ≡ s.have_codc
  pub same_cont : t.have_cont ≡ s.have_cont
  pub same_flushed : t.flushed ≡ s.flushed
  pub same_retry : t.retry_used ≡ s.retry_used
  pub same_session : session t.log ≡ session s.log

pub SamePlace-refl : (s : Coordinator) → SamePlace s s
SamePlace-refl s = record {
  same_thread = refl;
  same_stop = refl;
  same_track = refl;
  same_autostart = refl;
  same_await = refl;
  same_codc = refl;
  same_cont = refl;
  same_flushed = refl;
  same_retry = refl;
  same_session = refl;
}

pub SamePlace-trans : (s t u : Coordinator) → SamePlace s t → SamePlace t u → SamePlace s u
SamePlace-trans s t u h k = record {
  same_thread = k.same_thread ∙ h.same_thread;
  same_stop = k.same_stop ∙ h.same_stop;
  same_track = k.same_track ∙ h.same_track;
  same_autostart = k.same_autostart ∙ h.same_autostart;
  same_await = k.same_await ∙ h.same_await;
  same_codc = k.same_codc ∙ h.same_codc;
  same_cont = k.same_cont ∙ h.same_cont;
  same_flushed = k.same_flushed ∙ h.same_flushed;
  same_retry = k.same_retry ∙ h.same_retry;
  same_session = k.same_session ∙ h.same_session;
}

pub if-SamePlace :
    (b : Bool) (s t u : Coordinator)
    → SamePlace s t
    → SamePlace s u
    → SamePlace s (if b then t else u)
if-SamePlace true s t u h k = h
if-SamePlace false s t u h k = k

-- A state that differs in its log and its marks only.
logged-SamePlace :
    (s : Coordinator) (l m : Bool) (log : List Call)
    → session log ≡ session s.log
    → SamePlace s (record s { sent_stml = l; sent_stms = m; log = log })
logged-SamePlace s l m log h = record {
  same_thread = refl;
  same_stop = refl;
  same_track = refl;
  same_autostart = refl;
  same_await = refl;
  same_codc = refl;
  same_cont = refl;
  same_flushed = refl;
  same_retry = refl;
  same_session = h;
}

pub emit-SamePlace :
    (c : Call) (s : Coordinator) → session (c ∷ s.log) ≡ session s.log → SamePlace s (emit c s)
unfolding emit
emit-SamePlace c s h = logged-SamePlace s s.sent_stml s.sent_stms (c ∷ s.log) h

send_stms-SamePlace : (s : Coordinator) → SamePlace s (send_stms s)
unfolding send_stms emit session
send_stms-SamePlace s =
    if-SamePlace s.sent_stms s s _ (SamePlace-refl s)
      (logged-SamePlace s s.sent_stml true (stat Stat.start ∷ s.log) refl)

send_stml-SamePlace : (s : Coordinator) → SamePlace s (send_stml s)
unfolding send_stml emit session
send_stml-SamePlace s =
    if-SamePlace _ s _ s (logged-SamePlace s true s.sent_stms (stat Stat.autostart ∷ s.log) refl)
      (SamePlace-refl s)

pub on_decoder_ready-SamePlace : (h : Bool) (s : Coordinator) → SamePlace s (on_decoder_ready h s)
unfolding on_decoder_ready
on_decoder_ready-SamePlace true s = send_stml-SamePlace s
on_decoder_ready-SamePlace false s =
    SamePlace-trans s (send_stml s) _ (send_stml-SamePlace s) (send_stms-SamePlace (send_stml s))

pub on_output_ready-SamePlace : (s : Coordinator) → SamePlace s (on_output_ready s)
unfolding on_output_ready session
on_output_ready-SamePlace s =
    SamePlace-trans s (send_stms s) _ (send_stms-SamePlace s)
      (emit-SamePlace launch (send_stms s) refl)
