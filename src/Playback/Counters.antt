-- ===== src/Playback/Counters.antt =====
-- src/playback/stream_counters.h and stream_counters.cpp. Each method runs under the mutex, so a
-- call is one step on the record. Sizes and totals are uint64_t, and the reported fields uint32_t.

pub mod Account
use squeeze2raop.Base.{ℕ, ◌+◌, ◌-◌, ◌*◌, ◌/◌, ◌^◌, ltb, ◌==◌, if◌then◌else◌, u32, u64, sub64}
use squeeze2raop.Lms.Protocol.{StreamStats, default_sample_rate, default_channels}

abbrev pub ms_per_second : ℕ
ms_per_second = 1000

abbrev pub stream_buffer_bytes : ℕ
stream_buffer_bytes = 2 ^ 20

pub record Counters : Type 0 where
  pub received_bytes : ℕ
  pub fed_bytes : ℕ
  pub fed_samples : ℕ
  pub queued_samples : ℕ
  pub output_rate : ℕ

abbrev pub initial : Counters
initial = record {
  received_bytes = 0;
  fed_bytes = 0;
  fed_samples = 0;
  queued_samples = 0;
  output_rate = default_sample_rate;
}

unfoldable pub adopt_rate : ℕ → ℕ
adopt_rate rate = if rate == 0 then default_sample_rate else rate

unfoldable pub reset : ℕ → Counters → Counters
unfolding adopt_rate
reset rate c = record initial { output_rate = adopt_rate rate }

unfoldable pub on_received : ℕ → Counters → Counters
on_received bytes c = record c { received_bytes = u64 (c.received_bytes + bytes) }

unfoldable pub on_fed : ℕ → ℕ → ℕ → Counters → Counters
on_fed samples channels pending c = record c {
  fed_samples =
      u64 (c.fed_samples + samples / (if channels == 0 then default_channels else channels));
  fed_bytes = if ltb pending c.received_bytes then c.received_bytes - pending else 0;
}

unfoldable pub set_queued : ℕ → Counters → Counters
set_queued samples c = record c { queued_samples = samples }

unfoldable pub set_output_rate : ℕ → Counters → Counters
unfolding adopt_rate
set_output_rate rate c = record c { output_rate = adopt_rate rate }

-- `max(0, int64_t(a - b))`: a difference whose sign bit is set counts as negative.
unfoldable pub clamped_difference : ℕ → ℕ → ℕ
clamped_difference a b = let d = sub64 a b in if ltb d (2 ^ 63) then d else 0

-- `a > b ? a - b : 0`.
unfoldable pub minus : ℕ → ℕ → ℕ
minus a b = if ltb b a then a - b else 0

unfoldable pub stats : Counters → StreamStats
unfolding clamped_difference minus
stats c = record {
  stream_buffer_size = stream_buffer_bytes;
  stream_buffer_fullness = u32 (clamped_difference c.received_bytes c.fed_bytes);
  bytes_received = c.received_bytes;
  output_buffer_size = 0;
  output_buffer_fullness = 0;
  elapsed_ms = u32 (
      u64 (minus c.fed_samples (c.queued_samples / default_channels) * ms_per_second)
      / c.output_rate);
}
