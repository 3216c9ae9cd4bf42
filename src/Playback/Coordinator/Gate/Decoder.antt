-- ===== src/Playback/Coordinator/Gate/Decoder.antt =====
-- The pump's track has a decoder, as long as no start is refused.
use squeeze2raop.Base.{
  ℕ, ◌≡◌, refl, ◌∙◌, ap, arith, ◌==◌, List, [], ◌∷◌, Option, none, some, Bool, true, false, not,
  ◌&&◌, ◌||◌, if◌then◌else◌, OnSome, OnSome-and_then, OnSome-elim, OnSome-map, Bool-cases, inl, inr,
}
use mathlib.Core.Bool.{true≢false}
use squeeze2raop.Lms.Protocol.{StrmStart, PcmParams, unknown_format}
use squeeze2raop.Playback.Coordinator.State.{
  attach_decoder, Coordinator, emit, joinable, unpause_track, silence, stop_output,
  request_fade_out, skip_track, initial,
}
use squeeze2raop.Playback.Coordinator.Loop.{Move, moves}
use squeeze2raop.Playback.Coordinator.Handlers.{
  Setup, Opening, Event, stream_start, cont, codc, flushing, pausing, unpausing, skipping, stopping,
  powered_off, shutting, moving, step, steps, with_track, shutdown, maybe_start_pump, attach,
  opened, open_track, start_track, rejects, on_cont, on_codc, flush, pause, unpause, skip_ahead,
  tear_down, fade_or_tear_down, aude_off, on_stream_start,
}
use squeeze2raop.Playback.Coordinator.Gate.Known.{
  attached, known, Kept, and_then-Kept, move_at-Kept, moves-Kept, with_track-Kept, shutdown-Kept,
  joined_call-Kept,
}

-- Where there is a track and no 'codc' is awaited, a decoder has been attached.
pub HasDecoder : Coordinator → Type 0
HasDecoder s = (not s.track || (s.await_codc || attached s.log)) ≡ true

Kept-HasDecoder : (s t : Coordinator) → HasDecoder s → Kept s t → HasDecoder t
unfolding HasDecoder Kept known
Kept-HasDecoder s t h k = ap (λ n. not n.known_track || (n.known_await || n.known_decoder)) k ∙ h

maybe_start_pump-Kept : (s : Coordinator) → Kept s (maybe_start_pump s)
unfolding maybe_start_pump known attached Kept
maybe_start_pump-Kept s = ground arith

attach-HasDecoder :
    (f : ℕ) (p : PcmParams) (a : Bool) (s : Coordinator) → HasDecoder (attach f p a s)
unfolding attach emit HasDecoder attached
attach-HasDecoder f p true s =
    let t = record (emit (attach_decoder f p) s) { await_codc = false } in
    Kept-HasDecoder t (maybe_start_pump t) (ground arith) (maybe_start_pump-Kept t)
attach-HasDecoder f p false s = refl

on_codc-HasDecoder :
    (f : ℕ) (p : PcmParams) (a : Bool) (s : Coordinator)
    → HasDecoder s
    → HasDecoder (on_codc f p a s)
unfolding on_codc
on_codc-HasDecoder f p a s h =
    elim (not s.await_codc || not s.track)
      as (λ b. HasDecoder (if b then s else attach f p a (record s { have_codc = true }))) [
        | true ↦ h
        | false ↦ attach-HasDecoder f p a (record s { have_codc = true })
      ]

opened-HasDecoder :
    (h : Option (List ℕ)) (st : StrmStart) (o : Opening) (s : Coordinator)
    → HasDecoder (opened h st o s)
unfolding opened emit HasDecoder
opened-HasDecoder none st o s = refl
opened-HasDecoder (some headers) st o s = elim (Bool-cases (st.format == unknown_format)) [
  | inl e ↦ ground (arith, e)
  | inr e ↦ rw e (attach-HasDecoder st.format st.pcm o.attached _)
]

-- The start is refused before its track is made.
unfoldable pub is_refused : Setup → Event → Bool
is_refused setup (stream_start st o ms) =
    rejects setup st
      (if st.server_ip == 0 then setup.server_host else setup.ipv4_to_string st.server_ip)
is_refused setup _ = false

start_track-HasDecoder :
    (setup : Setup) (st : StrmStart) (o : Opening) (ms : List Move) (s : Coordinator)
    → is_refused setup (stream_start st o ms) ≡ false
    → HasDecoder (start_track setup st o s)
unfolding start_track open_track is_refused
start_track-HasDecoder setup st o ms s h = rw h (opened-HasDecoder o.headers st o _)

carry_decoder :
    (s : Coordinator) (o : Option Coordinator)
    → HasDecoder s
    → OnSome (Kept s) o
    → OnSome HasDecoder o
carry_decoder s o h = OnSome-map (Kept s) HasDecoder o (λ t. Kept-HasDecoder s t h)

flagged-HasDecoder :
    (s : Coordinator) (b : Bool) → HasDecoder s → HasDecoder (record s { flushed = b })
unfolding HasDecoder
flagged-HasDecoder s b h = h

fade_or_tear_down-Kept :
    (b f : Bool) (ms : List Move) (s : Coordinator) → OnSome (Kept s) (fade_or_tear_down b f ms s)
unfolding fade_or_tear_down tear_down emit known attached Kept
fade_or_tear_down-Kept true true ms s = refl
fade_or_tear_down-Kept true false ms s =
    joined_call-Kept (stop_output true) ms (emit request_fade_out s) (λ l. refl)
fade_or_tear_down-Kept false f ms s = joined_call-Kept (stop_output true) ms s (λ l. refl)

flush-Kept : (early ms : List Move) (s : Coordinator) → OnSome (Kept s) (flush early ms s)
unfolding flush known attached Kept
flush-Kept early ms s =
    let t = record s { flushed = true } in
    and_then-Kept t (moves early t) _ (moves-Kept early t)
      (λ u. joined_call-Kept silence ms u (λ l. refl))

pause-Kept : (n : ℕ) (s : Coordinator) → Kept s (pause n s)
unfolding pause with_track emit known attached Kept
pause-Kept n s = ground arith

on_cont-HasDecoder : (s : Coordinator) → HasDecoder s → HasDecoder (on_cont s)
unfolding on_cont HasDecoder
on_cont-HasDecoder s h =
    let t = record s { have_cont = true } in
    Kept-HasDecoder t (maybe_start_pump t) h (maybe_start_pump-Kept t)

step-HasDecoder :
    (setup : Setup) (e : Event) (s : Coordinator)
    → is_refused setup e ≡ false
    → HasDecoder s
    → OnSome HasDecoder (step setup e s)
unfolding step on_stream_start tear_down aude_off unpause skip_ahead attached
step-HasDecoder setup (stream_start st o ms) s r h =
    OnSome-and_then (Kept s) HasDecoder (shutdown ms s) _ (shutdown-Kept (joinable s.thread) ms s)
      (λ t _. start_track-HasDecoder setup st o ms t r)
step-HasDecoder setup cont s r h = on_cont-HasDecoder s h
step-HasDecoder setup (codc f p a) s r h = on_codc-HasDecoder f p a s h
step-HasDecoder setup (flushing early ms) s r h =
    carry_decoder s (flush early ms s) h (flush-Kept early ms s)
step-HasDecoder setup (pausing n) s r h = Kept-HasDecoder s _ h (pause-Kept n s)
step-HasDecoder setup (unpausing j) s r h =
    Kept-HasDecoder s _ h (with_track-Kept (unpause_track j) s refl)
step-HasDecoder setup (skipping n) s r h =
    Kept-HasDecoder s _ h (with_track-Kept (skip_track n) s refl)
step-HasDecoder setup (stopping f ms) s r h =
    carry_decoder s _ h (fade_or_tear_down-Kept (s.stream_active && s.track) f ms s)
step-HasDecoder setup (powered_off ms) s r h =
    carry_decoder s _ h (joined_call-Kept (stop_output true) ms s (λ l. refl))
step-HasDecoder setup (shutting ms) s r h =
    carry_decoder s _ h (shutdown-Kept (joinable s.thread) ms s)
step-HasDecoder setup (moving m) s r h = carry_decoder s _ h (move_at-Kept s.thread m s)

-- Some start among the events is refused.
unfoldable pub any_refused : Setup → List Event → Bool
unfolding is_refused
any_refused setup [] = false
any_refused setup (e ∷ es) = is_refused setup e || any_refused setup es

first_of_or : (a b : Bool) → (a || b) ≡ false → (a ≡ false) × (b ≡ false)
first_of_or false b h = (refl, h)
first_of_or true b h = elim (true≢false h) [ ]

pub steps-HasDecoder :
    (setup : Setup) (es : List Event) (s : Coordinator)
    → any_refused setup es ≡ false
    → HasDecoder s
    → OnSome HasDecoder (steps setup es s)
unfolding steps any_refused
steps-HasDecoder setup [] s r h = h
steps-HasDecoder setup (e ∷ es) s r h =
    let (one, rest) = first_of_or (is_refused setup e) (any_refused setup es) r in
    OnSome-and_then HasDecoder HasDecoder (step setup e s) (steps setup es)
      (step-HasDecoder setup e s one h) (λ t k. steps-HasDecoder setup es t rest k)

-- A decoder, or a start that was refused.
pub steps_decoder :
    (setup : Setup) (es : List Event) (s : Coordinator)
    → steps setup es initial ≡ some s
    → s.track ≡ true
    → s.await_codc ≡ false
    → (attached s.log || any_refused setup es) ≡ true
unfolding HasDecoder
steps_decoder setup es s e t a = elim (Bool-cases (any_refused setup es)) [
  | inl r ↦ ground (arith, r)
  | inr r ↦
      let h =
        OnSome-elim HasDecoder (steps setup es initial) s (steps-HasDecoder setup es initial r refl)
          e in
      ground (arith, h, t, a)
]
