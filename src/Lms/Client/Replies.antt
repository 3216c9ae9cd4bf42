-- ===== src/Lms/Client/Replies.antt =====
-- What the server reads in the client's replies.
use squeeze2raop.Base.{
  ℕ, ◌+◌, ◌-◌, ◌/◌, ◌%◌, ◌^◌, ◌≤◌, ◌<◌, ◌≡◌, ◌≢◌, ◌↔◌, refl, ap, ◌∙◌, List, [], ◌∷◌, length, take,
  drop, ok, arith, IsU32, IsU64, u32,
}
use squeeze2raop.Common.ByteOrder.{big, write_int, read_int, wire_value}
use squeeze2raop.Common.ByteOrder.RoundTrip.{read_int_inside, wire_value-write_int}
use squeeze2raop.Lms.Protocol.{StreamStats}
use squeeze2raop.Lms.Client.{frame, stat_body, next_tick}

pub length-frame :
    (o p q r : ℕ) (payload : List ℕ)
    → length (frame (o ∷ p ∷ q ∷ r ∷ []) payload) ≡ 8 + length payload
unfolding frame write_int
length-frame o p q r payload = omega arith

-- The length field of a frame is the length of its body, for a body below 4 GiB.
pub frame-length :
    (o p q r : ℕ) (payload : List ℕ)
    → IsU32 (length payload)
    → read_int big 4 (frame (o ∷ p ∷ q ∷ r ∷ []) payload) 4 ≡ ok (length payload)
unfolding frame write_int
frame-length o p q r payload fits =
    read_int_inside big 4 (frame (o ∷ p ∷ q ∷ r ∷ []) payload) 4 (omega arith)
    ∙ ap ok (wire_value-write_int big 4 (u32 (length payload)) (omega arith) ∙ omega arith)

-- The counters fit the widths of their C++ types.
pub record IsStats (st : StreamStats) : Type 0 where
  pub size_bits : IsU32 st.stream_buffer_size
  pub fullness_bits : IsU32 st.stream_buffer_fullness
  pub received_bits : IsU64 st.bytes_received
  pub output_size_bits : IsU32 st.output_buffer_size
  pub output_fullness_bits : IsU32 st.output_buffer_fullness
  pub elapsed_bits : IsU32 st.elapsed_ms

-- The four bytes of the body of a STAT reply at `off` are `v`.
abbrev pub Shows : List ℕ → ℕ → ℕ → Type 0
Shows p off v = read_int big 4 p off ≡ ok v

module _ (o p q r ts now : ℕ) (st : StreamStats) where
  abbrev event : List ℕ
  event = o ∷ p ∷ q ∷ r ∷ []

  length-stat_body : length (stat_body event st ts now) ≡ 53
  unfolding stat_body write_int
  length-stat_body = refl

  shows :
      (off v : ℕ)
      → off + 4 ≤ 53
      → v < 256 ^ 4
      → take 4 (drop off (stat_body event st ts now)) ≡ write_int big 4 v
      → Shows (stat_body event st ts now) off v
  shows off v room fits e =
      read_int_inside big 4 _ off (omega (arith, length-stat_body))
      ∙ ap ok (ap (wire_value big) e ∙ wire_value-write_int big 4 v fits)

  -- A STAT body is 53 bytes and shows every counter of the snapshot at its offset: the buffers, the
  -- received bytes in two halves, the clock, the elapsed seconds and milliseconds, and the server's
  -- time stamp.
  pub stat_body-Shows :
      IsStats st
      → IsU32 ts
      → (length (stat_body event st ts now) ≡ 53)
        × Shows (stat_body event st ts now) 7 st.stream_buffer_size
        × Shows (stat_body event st ts now) 11 st.stream_buffer_fullness
        × Shows (stat_body event st ts now) 15 (st.bytes_received / 2 ^ 32)
        × Shows (stat_body event st ts now) 19 (st.bytes_received % 2 ^ 32)
        × Shows (stat_body event st ts now) 25 (u32 now)
        × Shows (stat_body event st ts now) 29 st.output_buffer_size
        × Shows (stat_body event st ts now) 33 st.output_buffer_fullness
        × Shows (stat_body event st ts now) 37 (st.elapsed_ms / 1000)
        × Shows (stat_body event st ts now) 43 st.elapsed_ms
        × Shows (stat_body event st ts now) 47 ts
  unfolding stat_body write_int
  stat_body-Shows v fits = (
    length-stat_body,
    shows 7 st.stream_buffer_size (omega arith) v.size_bits refl,
    shows 11 st.stream_buffer_fullness (omega arith) v.fullness_bits refl,
    shows 15 (st.bytes_received / 2 ^ 32) (omega arith) (omega arith) refl,
    shows 19 (st.bytes_received % 2 ^ 32) (omega arith) (omega arith) refl,
    shows 25 (u32 now) (omega arith) (omega arith) refl,
    shows 29 st.output_buffer_size (omega arith) v.output_size_bits refl,
    shows 33 st.output_buffer_fullness (omega arith) v.output_fullness_bits refl,
    shows 37 (st.elapsed_ms / 1000) (omega arith) (omega arith) refl,
    shows 43 st.elapsed_ms (omega arith) v.elapsed_bits refl,
    shows 47 ts (omega arith) fits refl,
  )

-- A button's time stamp is a uint32 that lies above the last one, except after the largest.
pub next_tick_increases :
    (now prev : ℕ)
    → IsU32 prev
    → IsU32 (next_tick now prev) × ((prev < next_tick now prev) ↔ (prev ≢ 2 ^ 32 - 1))
unfolding next_tick
next_tick_increases now prev fits = (ground arith, (λ h e. ground arith, λ ne. ground arith))
