-- ===== src/Lms/Process/Start.antt =====
-- The 'strm s' packet: the bytes that LMS sends for a stream and what the client makes of them.
use squeeze2raop.Base.{
  ℕ, ◌+◌, ◌-◌, ◌≤◌, ◌<◌, ◌≡◌, refl, sym, List, ◌∷◌, ◌++◌, length, ltb-false, ◌==◌, not, some, true,
  ok, arith, IsU16, IsU32, bit_and, u8,
}
use squeeze2raop.Common.ByteOrder.{write_int}
use squeeze2raop.Lms.Protocol.{StrmStart, strm_flag_ssl}
use squeeze2raop.Lms.Stat
use squeeze2raop.Lms.Packet.{◌>>=◌, put_u16, put_u32, skip}
use squeeze2raop.Lms.Packet.Cursor.{at, field_byte, field_int}
use squeeze2raop.Lms.Client.{Client, send_stat}
use squeeze2raop.Lms.Process.{
  on_start, fire, Env, read_start, start, strm_command, strm, dispatch, process,
}

-- The packet of the protocol for a stream; `spdif`, `threshold` and `slaves` are not used.
pub start_packet : StrmStart → ℕ → ℕ → ℕ → List ℕ
start_packet st spdif threshold slaves =
    b's'
    ∷ b't'
    ∷ b'r'
    ∷ b'm'
    ∷ b's'
    ∷ (st.autostart + 48)
    ∷ st.format
    ∷ st.pcm.sample_size_code
    ∷ st.pcm.sample_rate_code
    ∷ st.pcm.channels_code
    ∷ st.pcm.endian_code
    ∷ st.threshold_kb
    ∷ spdif
    ∷ st.transition_period_s
    ∷ (st.transition_type + 48)
    ∷ st.flags
    ∷ threshold
    ∷ slaves
    ∷ (put_u32 st.replay_gain ++ (put_u16 st.server_port ++ (put_u32 st.server_ip ++ st.request)))

-- The fields fit the wire: the two digits are sent as characters, and `ssl` is a bit of the flags.
pub record IsStart (st : StrmStart) : Type 0 where
  pub autostart_digit : st.autostart < 208
  pub transition_digit : st.transition_type < 208
  pub gain_bits : IsU32 st.replay_gain
  pub port_bits : IsU16 st.server_port
  pub ip_bits : IsU32 st.server_ip
  pub ssl_bit : st.ssl ≡ not (bit_and st.flags strm_flag_ssl == 0)

module _ (st : StrmStart) (spdif threshold slaves : ℕ) (v : IsStart st) where
  room : 28 ≤ length (start_packet st spdif threshold slaves)
  unfolding start_packet write_int
  room = omega arith

  skip-at :
      (off : ℕ)
      → off < 28
      → skip 1 (at (start_packet st spdif threshold slaves) off)
        ≡ ok (true, at (start_packet st spdif threshold slaves) (off + 1))
  unfolding skip
  skip-at off h =
      rw (ltb-false (length (start_packet st spdif threshold slaves) - off) 1 (omega (arith, room)))

  -- The fields as they are read, one by one.
  read_start-start_packet :
      read_start (at (start_packet st spdif threshold slaves) 5)
      ≡ ok (some st, at (start_packet st spdif threshold slaves) 28)
  unfolding read_start start_packet write_int
  read_start-start_packet =
      let p = start_packet st spdif threshold slaves in
      rw
        (
          field_byte p 5 (st.autostart + 48) refl,
          field_byte p 6 st.format refl,
          field_byte p 7 st.pcm.sample_size_code refl,
          field_byte p 8 st.pcm.sample_rate_code refl,
          field_byte p 9 st.pcm.channels_code refl,
          field_byte p 10 st.pcm.endian_code refl,
          field_byte p 11 st.threshold_kb refl,
          skip-at 12 (omega arith),
          field_byte p 13 st.transition_period_s refl,
          field_byte p 14 (st.transition_type + 48) refl,
          field_byte p 15 st.flags refl,
          skip-at 16 (omega arith),
          skip-at 17 (omega arith),
          field_int 4 p 18 st.replay_gain (omega (arith, room)) v.gain_bits refl,
          field_int 2 p 22 st.server_port (omega (arith, room)) v.port_bits refl,
          field_int 4 p 24 st.server_ip (omega (arith, room)) v.ip_bits refl,
          read_start,
          ◌>>=◌,
        )
        (λ i. ok (
          some (record st {
            autostart = digit st.autostart v.autostart_digit i;
            transition_type = digit st.transition_type v.transition_digit i;
            ssl = sym v.ssl_bit i;
          }),
          at p 28,
        ))
    where
      digit : (d : ℕ) → d < 208 → u8 (d + 48 + 208) ≡ d
      digit d h = omega arith

-- Every stream description that fits the wire, sent by the server as 'strm s' in the documented
-- layout, reaches the session's start handler unchanged, after an STMf reply with the last stats.
pub process-start_packet :
    (env : Env) (st : StrmStart) (spdif threshold slaves : ℕ) (c : Client)
    → IsStart st
    → process env (start_packet st spdif threshold slaves) c
      ≡ ok (fire env (on_start st) (send_stat Stat.flush c.stats 0 env.now c))
unfolding process dispatch strm strm_command start start_packet
process-start_packet env st spdif threshold slaves c v =
    let p = start_packet st spdif threshold slaves in
    let long = room st spdif threshold slaves v in
    rw (
      ltb-false (length p) 4 (omega (arith, long)),
      ltb-false (length p) 5 (omega (arith, long)),
      field_byte p 4 b's' refl,
      ltb-false (length p) 28 long,
      read_start-start_packet st spdif threshold slaves v,
    )
