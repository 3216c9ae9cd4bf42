-- ===== src/Playback/Counters/Account.antt =====
-- The counters against an account of a track in unbounded numbers: how many bytes came, how many of
-- them the decoder still holds, and how many frames it gave.
use squeeze2raop.Base.{
  ℕ, ◌+◌, ◌-◌, ◌*◌, ◌/◌, ◌≤◌, ◌<◌, ◌≡◌, ◌==◌, if◌then◌else◌, min, u32, List, [], ◌∷◌,
}
use squeeze2raop.Lms.Protocol.{default_channels}
use squeeze2raop.Playback.Counters.{
  Counters, adopt_rate, on_received, on_fed, set_queued, set_output_rate, stats, ms_per_second,
}

-- The calls that the stream thread makes.
pub data Call : Type 0 where
  received : ℕ → Call
  fed : ℕ → ℕ → ℕ → Call
  queued : ℕ → Call
  rate : ℕ → Call

unfoldable pub perform : Call → Counters → Counters
perform (received n) c = on_received n c
perform (fed samples channels pending) c = on_fed samples channels pending c
perform (queued n) c = set_queued n c
perform (rate r) c = set_output_rate r c

unfoldable pub perform_all : List Call → Counters → Counters
perform_all [] c = c
perform_all (x ∷ xs) c = perform_all xs (perform x c)

pub record Account : Type 0 where
  pub bytes : ℕ
  pub backlog : ℕ
  pub frames : ℕ
  pub waiting : ℕ
  pub hertz : ℕ

unfoldable pub open_account : ℕ → Account
open_account r = record { bytes = 0; backlog = 0; frames = 0; waiting = 0; hertz = adopt_rate r }

unfoldable pub enter : Call → Account → Account
enter (received n) a = record a { bytes = a.bytes + n; backlog = a.backlog + n }
enter (fed samples channels pending) a = record a {
  frames = a.frames + samples / (if channels == 0 then default_channels else channels);
  backlog = min pending a.bytes;
}
enter (queued n) a = record a { waiting = n }
enter (rate r) a = record a { hertz = adopt_rate r }

unfoldable pub enter_all : List Call → Account → Account
enter_all [] a = a
enter_all (x ∷ xs) a = enter_all xs (enter x a)

record Agrees (c : Counters) (a : Account) : Type 0 where
  pub same_bytes : c.received_bytes ≡ a.bytes
  pub same_backlog : c.fed_bytes + a.backlog ≡ a.bytes
  pub same_frames : c.fed_samples ≡ a.frames
  pub same_waiting : c.queued_samples ≡ a.waiting
  pub same_rate : c.output_rate ≡ a.hertz
  pub ticks : 0 < a.hertz

-- What LMS is told, in terms of the account.
pub record Reports (c : Counters) (a : Account) : Type 0 where
  pub received_all : (stats c).bytes_received ≡ a.bytes
  pub buffered : (stats c).stream_buffer_fullness ≡ u32 a.backlog
  pub position :
      (stats c).elapsed_ms
      ≡ u32 ((a.frames - a.waiting / default_channels) * ms_per_second / a.hertz)
  pub not_ahead : (stats c).elapsed_ms * a.hertz ≤ a.frames * ms_per_second
