-- ===== src/Playback/Stream.antt =====
-- src/playback/playback_stream: one track's pump. This module has the state, what opens it and the
-- calls of the reader thread; Feed has the audio path and Run the pump itself.
pub mod Feed
pub mod Run
pub mod Starting
mod Runs
use squeeze2raop.Base.{
  ℕ, ◌+◌, ◌-◌, ◌*◌, ◌/◌, ◌%◌, ◌^◌, List, [], ◌∷◌, Bool, true, false, not, ◌&&◌, ◌||◌, Option, none,
  some, ltb, leb, ◌==◌, if◌then◌else◌, u32, u64, sub32, codes, find_text, same_bytes, min,
}
use squeeze2raop.Common.Util.{to_lower}
use squeeze2raop.Lms.Protocol.{
  StrmStart, PcmParams, pcm_format, default_sample_rate, default_channels,
}
use squeeze2raop.Lms.Icy.{with_icy_request_header, parse_stream_title}
use squeeze2raop.Playback.Counters.{Counters, reset, set_output_rate, ms_per_second}
use squeeze2raop.Playback.Telemetry.{Telemetry}
use squeeze2raop.Playback.Fade.{fixed_one}

-- `DisconnectCode` as its wire value.
abbrev pub disconnect_ok : ℕ
disconnect_ok = 0

abbrev pub disconnect_local : ℕ
disconnect_local = 1

abbrev pub disconnect_remote : ℕ
disconnect_remote = 2

abbrev pub disconnect_unreachable : ℕ
disconnect_unreachable = 3

abbrev pub disconnect_timeout : ℕ
disconnect_timeout = 4

abbrev pub disconnect_none : ℕ
disconnect_none = 0xff

abbrev pub underrun_window_ms : ℕ
underrun_window_ms = 1000

abbrev pub pacer_lead_ms : ℕ
pacer_lead_ms = 60

abbrev pub pacer_max_sleep_ms : ℕ
pacer_max_sleep_ms = 120

abbrev pub start_gate_prefill_ms : ℕ
start_gate_prefill_ms = 1000

abbrev pub fade_mode_none : ℕ
fade_mode_none = 0

abbrev pub fade_mode_cross : ℕ
fade_mode_cross = 1

abbrev pub fade_mode_in : ℕ
fade_mode_in = 2

abbrev pub fade_mode_out : ℕ
fade_mode_out = 3

abbrev pub fade_mode_in_out : ℕ
fade_mode_in_out = 4

-- `std::numeric_limits<uint64_t>::max()`.
abbrev pub forever : ℕ
forever = 2 ^ 64 - 1

-- What a chunk is multiplied with, in 16.16: nothing, or the replay gain and both fades.
pub data Gain : Type 0 where
  untouched : Gain
  scaled : ℕ → ℕ → ℕ → Gain

-- What the pump does outside its state, newest first.
pub data Made : Type 0 where
  dropped : ℕ → Made
  pushed : ℕ → Gain → Made
  decoder_ready : Made
  underrun : Made
  output_ready : Made
  forwarded : List ℕ → Made
  now_playing : List ℕ → Made

pub record PlaybackStream : Type 0 where
  pub counters : Counters
  pub telemetry : Telemetry
  pub pace_realtime : Bool
  pub source_timeout_ms : ℕ
  pub buffer_ms : ℕ
  pub has_decoder : Bool
  pub source_rate : ℕ
  pub has_resampler : Bool
  pub pause_until_ms : ℕ
  pub skip_frames : ℕ
  pub output_gate_until_ms : ℕ
  pub fade_out_requested : Bool
  pub active_ms : ℕ
  pub last_title : List ℕ
  pub disconnect : ℕ
  pub replay_gain : ℕ
  pub fade_mode : ℕ
  pub fade_secs : ℕ
  pub fade_in : Bool
  pub fade_in_done : Bool
  pub fade_out : Bool
  pub fade_done : Bool
  pub fade_in_frames : ℕ
  pub fade_in_dur : ℕ
  pub fade_out_frames : ℕ
  pub fade_out_dur : ℕ
  pub decoder_ready_fired : Bool
  pub underrun_fired : Bool
  pub ring_throttled : Bool
  pub ring_empty_since_ms : ℕ
  pub last_data_ms : ℕ
  pub made : List Made

unfoldable pub make : Made → PlaybackStream → PlaybackStream
make x s = record s { made = x ∷ s.made }

found : List ℕ → List ℕ → Bool
found k s = elim (find_text k s) [ none ↦ false | some i ↦ true ]

unfoldable pub map_open_error : List ℕ → ℕ
unfolding found find_text
map_open_error error =
    if found (codes "timed out") error
    then disconnect_timeout
    else if found (codes "request send") error
    then disconnect_local
    else if found (codes "connect") error
    then disconnect_unreachable
    else disconnect_remote

-- The fields that a new source sets, before the reader is source_opened.
adopt_start : StrmStart → PlaybackStream → PlaybackStream
adopt_start st s = record s {
  counters = reset (pcm_format st.pcm default_sample_rate).sample_rate s.counters;
  replay_gain = st.replay_gain;
  fade_mode = if st.transition_type == fade_mode_cross then fade_mode_none else st.transition_type;
  fade_secs = st.transition_period_s;
  fade_in = false;
  fade_in_done = false;
  fade_out = false;
  fade_done = false;
  fade_out_requested = false;
  skip_frames = 0;
  decoder_ready_fired = false;
  underrun_fired = false;
  ring_empty_since_ms = 0;
  disconnect = disconnect_none;
}

-- The reader is given the request, and answers with an error or the response's headers.
abbrev pub SourceReader : Type 0
SourceReader = List ℕ → Option (List ℕ) × List ℕ

source_opened : Option (List ℕ) × List ℕ → PlaybackStream → PlaybackStream × Option (List ℕ)
unfolding map_open_error
source_opened (some error, headers) s = (record s { disconnect = map_open_error error }, none)
source_opened (none, headers) s = (s, some headers)

unfoldable pub open_source :
    SourceReader → StrmStart → PlaybackStream → PlaybackStream × Option (List ℕ)
unfolding adopt_start source_opened with_icy_request_header reset pcm_format
open_source reader st s =
    source_opened (reader (with_icy_request_header st.request)) (adopt_start st s)

-- What `attachDecoder` is answered: whether there is a decoder for the format, and, where a debug sink
-- is wanted, whether its file opens.
pub record Attaching : Type 0 where
  pub created : Bool
  pub sink_opens : Option Bool

sink_result : Option Bool → Bool
sink_result none = true
sink_result (some opens) = opens

unfoldable pub attach_decoder : Attaching → PlaybackStream → PlaybackStream × Bool
unfolding sink_result set_output_rate
attach_decoder a s =
    if a.created
    then (
      record s { has_decoder = true; counters = set_output_rate default_sample_rate s.counters },
      sink_result a.sink_opens,
    )
    else (record s { has_decoder = false }, false)

unfoldable pub pause : ℕ → ℕ → PlaybackStream → PlaybackStream
pause ms now s = record s { pause_until_ms = if ms == 0 then forever else u64 (now + ms) }

-- `jiffies - now` on uint32_t, read as a signed number.
unfoldable pub gate_deadline_from_jiffies : ℕ → ℕ → ℕ
gate_deadline_from_jiffies jiffies now =
    let delta = sub32 jiffies (u32 now) in
    if delta == 0 || leb (2 ^ 31) delta then 0 else u64 (now + delta)

unfoldable pub unpause : ℕ → ℕ → PlaybackStream → PlaybackStream
unfolding gate_deadline_from_jiffies
unpause jiffies now s = record s {
  pause_until_ms = 0;
  output_gate_until_ms = gate_deadline_from_jiffies jiffies now;
}

unfoldable pub hold_start : PlaybackStream → PlaybackStream
hold_start s = record s { output_gate_until_ms = forever }

-- Whether the gate is open, and the state after the look.
unfoldable pub is_gate_open : ℕ → PlaybackStream → Bool
is_gate_open now s =
    s.output_gate_until_ms == 0
    || (not (s.output_gate_until_ms == forever) && leb s.output_gate_until_ms now)

unfoldable pub gate_open : ℕ → PlaybackStream → PlaybackStream × Bool
unfolding is_gate_open
gate_open now s =
    if is_gate_open now s then (record s { output_gate_until_ms = 0 }, true) else (s, false)

unfoldable pub prefill_reached : ℕ → Bool
prefill_reached queued =
    leb (default_sample_rate * start_gate_prefill_ms / ms_per_second * default_channels) queued

-- `bufferMs_` is an int, given by its bit pattern.
unfoldable pub ring_target_samples : PlaybackStream → ℕ
ring_target_samples s =
    if s.buffer_ms == 0 || leb (2 ^ 31) s.buffer_ms
    then 0
    else s.buffer_ms * default_sample_rate / ms_per_second * default_channels

-- The rate of `format()` is that of the output with a decoder and the same by default.
unfoldable pub skip_frames_for : ℕ → ℕ → ℕ
skip_frames_for ms rate = u64 (ms * rate) / 1000

unfoldable pub skip_ahead : ℕ → PlaybackStream → PlaybackStream
unfolding skip_frames_for
skip_ahead ms s = record s {
  skip_frames = u64 (s.skip_frames + skip_frames_for ms default_sample_rate);
}

unfoldable pub request_fade_out : PlaybackStream → PlaybackStream × Bool
request_fade_out s =
    if s.fade_secs == 0
      || (not (s.fade_mode == fade_mode_out) && not (s.fade_mode == fade_mode_in_out))
    then (s, false)
    else (record s { fade_out_requested = true }, true)

unfoldable pub reapply : List ℕ → PlaybackStream → PlaybackStream
unfolding make
reapply [] s = s
reapply (c ∷ t) s = make (now_playing (c ∷ t)) s

unfoldable pub reapply_now_playing : PlaybackStream → PlaybackStream
unfolding reapply
reapply_now_playing s = reapply s.last_title s

-- The title of a block, where it has one that is new.
unfoldable pub on_title : Option (List ℕ) → PlaybackStream → PlaybackStream
unfolding make
on_title none s = s
on_title (some t) s =
    if same_bytes t s.last_title then s else make (now_playing t) (record s { last_title = t })

unfoldable pub on_meta : List ℕ → PlaybackStream → PlaybackStream
unfolding make on_title parse_stream_title
on_meta block s = on_title (parse_stream_title block) (make (forwarded block) s)

unfoldable pub output_underrun : Bool → ℕ → Bool
output_underrun running queued = running && queued == 0
