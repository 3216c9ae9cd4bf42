-- ===== src/Playback/Telemetry.antt =====
-- src/playback/ring_telemetry.h and ring_telemetry.cpp: the health sampler of the output ring.
-- The log lines of a starvation are returned: a warning when it begins, the recovery when it ends.

pub mod Episodes
use squeeze2raop.Base.{
  ℕ, ◌-◌, ◌^◌, ltb, leb, ◌==◌, if◌then◌else◌, Option, none, some, Bool, not, sub64,
}

abbrev pub size_max : ℕ
size_max = 2 ^ 64 - 1

pub record Telemetry : Type 0 where
  pub min_seen : ℕ
  pub max_seen : ℕ
  pub mark_ms : ℕ
  pub starved_ms : ℕ

abbrev pub initial : Telemetry
initial = record { min_seen = size_max; max_seen = 0; mark_ms = 0; starved_ms = 0 }

pub data Notice : Type 0 where
  quiet warned recovered : Notice

unfoldable pub starved : Telemetry → Bool
starved t = not (t.starved_ms == 0)

-- The extremes of the window, before the summary.
unfoldable pub widen : ℕ → Telemetry → Telemetry
widen queued t = record t {
  min_seen = if ltb queued t.min_seen then queued else t.min_seen;
  max_seen = if ltb t.max_seen queued then queued else t.max_seen;
}

-- The summary of a window of ten seconds.
unfoldable pub summarise : ℕ → Telemetry → Telemetry × Option ℕ
summarise now t =
    if t.mark_ms == 0
    then (record t { mark_ms = now }, none)
    else if leb 10000 (sub64 now t.mark_ms)
    then (record t { min_seen = size_max; max_seen = 0; mark_ms = now }, some (sub64 now t.mark_ms))
    else (t, none)

-- The latch of a starvation.
unfoldable pub latch : ℕ → ℕ → Telemetry → Telemetry × Notice
latch queued now t =
    if queued == 0
    then (if t.starved_ms == 0 then (record t { starved_ms = now }, warned) else (t, quiet))
    else if t.starved_ms == 0
    then (t, quiet)
    else (record t { starved_ms = 0 }, recovered)

unfoldable pub observe : ℕ → ℕ → Telemetry → Telemetry × Option ℕ × Notice
unfolding widen summarise latch
observe queued now t =
    let (t', window) = summarise now (widen queued t) in
    let (t'', notice) = latch queued now t' in (t'', window, notice)
