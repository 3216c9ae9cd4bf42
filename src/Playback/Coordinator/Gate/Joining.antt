-- ===== src/Playback/Coordinator/Gate/Joining.antt =====
-- Behind a join there is no thread, and the gate of the pump stands.
use squeeze2raop.Base.{
  ◌≡◌, refl, sym, ◌∙◌, ap, arith, leb, List, [], ◌∷◌, some, Bool, true, false, not, ◌&&◌,
  if◌then◌else◌, OnSome, OnSome-and_then, OnSome-map,
}
use mathlib.Core.Bool.{true≢false}
use squeeze2raop.Lms.Protocol.{autostart_require_cont}
use squeeze2raop.Playback.Coordinator.State.{
  Call, Coordinator, Thread, absent, entering, finished, emit, joinable, unpause_track, close_track,
}
use squeeze2raop.Playback.Coordinator.Loop.{Move, move, moves}
use squeeze2raop.Playback.Coordinator.Handlers.{
  request_stop, wake_on_stop, with_track, join, join_at, stop_thread, shutdown, shutdown_if,
}
use squeeze2raop.Playback.Coordinator.Gate.Reading.{IsReady}
use squeeze2raop.Playback.Coordinator.Gate.Reading.{facts, if-facts, move-facts, IsGated}

-- With the facts unchanged, the gate stays.
facts-IsReady : (s t : Coordinator) → facts t ≡ facts s → IsReady s → IsReady t
unfolding facts
facts-IsReady s t h r = record {
  has_track = ap (λ f. f.fact_track) h ∙ r.has_track;
  awaits_no_codec = ap (λ f. f.fact_await) h ∙ r.awaits_no_codec;
  may_start =
      ap (λ f. leb autostart_require_cont f.fact_autostart && not f.fact_cont) h ∙ r.may_start;
}

facts-exclusive :
    (s t : Coordinator)
    → facts t ≡ facts s
    → (s.await_codc && s.have_codc) ≡ false
    → (t.await_codc && t.have_codc) ≡ false
unfolding facts
facts-exclusive s t h g = ap (λ f. f.fact_await && f.fact_codc) h ∙ g

pub move-IsGated : (m : Move) (s : Coordinator) → IsGated s → OnSome IsGated (move m s)
move-IsGated m s g =
    OnSome-map (λ u. (joinable s.thread ≡ true) × (facts u ≡ facts s)) IsGated (move m s)
      (λ u h. record {
        exclusive = facts-exclusive s u h.1 g.exclusive;
        gate = λ _. facts-IsReady s u h.1 (g.gate h.0);
      })
      (move-facts s.thread m s)

-- A joined thread, and one that never ran, needs no gate.
unfoldable pub IsJoined : Coordinator → Type 0
IsJoined s = (joinable s.thread ≡ false) × ((s.await_codc && s.have_codc) ≡ false)

pub IsJoined-IsGated : (s : Coordinator) → IsJoined s → IsGated s
unfolding IsJoined
IsJoined-IsGated s h = record { exclusive = h.1; gate = λ j. elim (true≢false (sym j ∙ h.0)) [ ] }

pub moves-exclusive :
    (ms : List Move) (s : Coordinator)
    → (s.await_codc && s.have_codc) ≡ false
    → OnSome (λ t. (t.await_codc && t.have_codc) ≡ false) (moves ms s)
unfolding moves
moves-exclusive [] s g = g
moves-exclusive (m ∷ ms) s g =
    OnSome-and_then (λ u. (joinable s.thread ≡ true) × (facts u ≡ facts s)) _ (move m s) (moves ms)
      (move-facts s.thread m s) (λ u h. moves-exclusive ms u (facts-exclusive s u h.1 g))

join-IsJoined :
    (t : Thread) (s : Coordinator)
    → (s.await_codc && s.have_codc) ≡ false
    → OnSome IsJoined (join_at t s)
unfolding join_at joinable IsJoined
join-IsJoined finished s g = (refl, g)
join-IsJoined _ s g = record {}

emit-facts : (c : Call) (s : Coordinator) → facts (emit c s) ≡ facts s
unfolding emit facts
emit-facts c s = refl

with_track-facts : (c : Call) (s : Coordinator) → facts (with_track c s) ≡ facts s
unfolding with_track
with_track-facts c s = if-facts s.track s (emit c s) s (emit-facts c s) refl

wake-facts : (t : Thread) (s : Coordinator) → facts (wake_on_stop t s) ≡ facts s
unfolding wake_on_stop emit facts
wake-facts absent s = refl
wake-facts entering s = refl
wake-facts finished s = refl
wake-facts _ s = refl

request_stop-facts : (s : Coordinator) → facts (request_stop s) ≡ facts s
unfolding request_stop facts
request_stop-facts s = wake-facts s.thread (record s { stop_requested = true })

stop_thread-IsJoined :
    (ms : List Move) (s : Coordinator)
    → (s.await_codc && s.have_codc) ≡ false
    → OnSome IsJoined (stop_thread ms s)
unfolding stop_thread
stop_thread-IsJoined ms s g =
    let r = request_stop s in
    let t = with_track (unpause_track 0) r in
    OnSome-and_then (λ u. (u.await_codc && u.have_codc) ≡ false) IsJoined (moves ms t) join
      (moves-exclusive ms t
        (facts-exclusive s t (with_track-facts (unpause_track 0) r ∙ request_stop-facts s) g))
      (λ u e. join-IsJoined u.thread u e)

with_track-thread : (c : Call) (s : Coordinator) → (with_track c s).thread ≡ s.thread
unfolding with_track emit
with_track-thread c s = ground arith

with_track-IsJoined : (c : Call) (s : Coordinator) → IsJoined s → IsJoined (with_track c s)
unfolding IsJoined
with_track-IsJoined c s h = (
  ap joinable (with_track-thread c s) ∙ h.0,
  facts-exclusive s (with_track c s) (with_track-facts c s) h.1,
)

shutdown_if-IsJoined :
    (b : Bool) (ms : List Move) (s : Coordinator)
    → joinable s.thread ≡ b
    → (s.await_codc && s.have_codc) ≡ false
    → OnSome IsJoined (shutdown_if b ms s)
unfolding shutdown_if IsJoined
shutdown_if-IsJoined true ms s e g =
    OnSome-and_then IsJoined IsJoined (stop_thread ms s) (λ t. some (with_track close_track t))
      (stop_thread-IsJoined ms s g) (with_track-IsJoined close_track)
shutdown_if-IsJoined false ms s e g = with_track-IsJoined close_track s (e, g)

pub shutdown-IsJoined :
    (ms : List Move) (s : Coordinator)
    → (s.await_codc && s.have_codc) ≡ false
    → OnSome IsJoined (shutdown ms s)
shutdown-IsJoined ms s g = shutdown_if-IsJoined (joinable s.thread) ms s refl g

-- A call that nothing of the gate depends on.
pub emit-IsGated : (c : Call) (s : Coordinator) → IsGated s → IsGated (emit c s)
unfolding emit
emit-IsGated c s g = record {
  exclusive = g.exclusive;
  gate = λ j. facts-IsReady s (emit c s) (emit-facts c s) (g.gate j);
}

pub with_track-IsGated : (c : Call) (s : Coordinator) → IsGated s → IsGated (with_track c s)
unfolding with_track
with_track-IsGated c s g = elim s.track as (λ b. IsGated (if b then emit c s else s)) [
  | true ↦ emit-IsGated c s g
  | false ↦ g
]
