-- ===== src/Lms/Client.antt =====
-- The sending half of SlimProtoClient, src/lms/slimproto_packets.cpp and `sendPacket` of
-- slimproto.cpp. `wire` holds the frames handed to the socket, oldest first; whether the socket
-- took them is only logged. A reading of the clock is an argument.
pub mod Replies
use squeeze2raop.Base.{
  ℕ, ◌+◌, ◌/◌, ◌%◌, ◌^◌, List, [], ◌∷◌, ◌++◌, length, ltb, leb, if◌then◌else◌, Bool, u32, bit_and,
  ◌==◌, codes,
}
use squeeze2raop.Common.ByteOrder.{write_int}
use squeeze2raop.Lms.Protocol.{StreamStats, no_stats}
use squeeze2raop.Lms.Op
use squeeze2raop.Lms.Packet.{put_u16, put_u32, put_zeros}

pub record Client : Type 0 where
  pub mac : List ℕ
  pub caps : List ℕ
  pub player_name : List ℕ
  pub stats : StreamStats
  pub last_heartbeat_ms : ℕ
  pub button_tick : ℕ
  pub wire : List (List ℕ)

-- `sendPacket`: opcode, big-endian body length, body.
unfoldable pub frame : List ℕ → List ℕ → List ℕ
frame op payload = op ++ (put_u32 (u32 (length payload)) ++ payload)

unfoldable pub send_packet : List ℕ → List ℕ → Client → Client
send_packet op payload c = record c { wire = c.wire ++ (frame op payload ∷ []) }

unfoldable pub helo_body : Client → Bool → List ℕ
helo_body c reconnect =
    12
    ∷ 1
    ∷ (c.mac
        ++ (put_zeros 16
            ++ (put_u16 (if reconnect then 0x4000 else 0x0000) ++ (put_zeros 10 ++ c.caps))))

unfoldable pub send_helo : Bool → Client → Client
send_helo reconnect c = send_packet Op.helo (helo_body c reconnect) c

-- The body of a STAT reply, for the millisecond clock `now`.
unfoldable pub stat_body : List ℕ → StreamStats → ℕ → ℕ → List ℕ
stat_body event st server_timestamp now =
    event
    ++ (put_zeros 3
        ++ (put_u32 st.stream_buffer_size
            ++ (put_u32 st.stream_buffer_fullness
                ++ (put_u32 (st.bytes_received / 2 ^ 32)
                    ++ (put_u32 (st.bytes_received % 2 ^ 32)
                        ++ (put_u16 0xffff
                            ++ (put_u32 (u32 now)
                                ++ (put_u32 st.output_buffer_size
                                    ++ (put_u32 st.output_buffer_fullness
                                        ++ (put_u32 (st.elapsed_ms / 1000)
                                            ++ (put_u16 0
                                                ++ (put_u32 st.elapsed_ms
                                                    ++ (put_u32 server_timestamp
                                                        ++ put_u16 0)))))))))))))

-- The snapshot is kept for the replies that have none of their own.
unfoldable pub send_stat : List ℕ → StreamStats → ℕ → ℕ → Client → Client
send_stat event st server_timestamp now c =
    send_packet Op.stat (stat_body event st server_timestamp now) (record c { stats = st })

unfoldable pub send_resp : List ℕ → Client → Client
send_resp header = send_packet Op.resp header

unfoldable pub send_setd_name : List ℕ → Client → Client
send_setd_name name = send_packet Op.setd (0 ∷ (name ++ (0 ∷ [])))

unfoldable pub send_disco : ℕ → Client → Client
send_disco reason = send_packet Op.dsco (reason ∷ [])

-- The time stamp of a button: the clock's low word, or one more than the last stamp on a uint32_t.
-- The source retries its compare-and-swap; the exchange that succeeds is this one step.
unfoldable pub next_tick : ℕ → ℕ → ℕ
next_tick now prev = let tick = u32 now in if ltb prev tick then tick else u32 (prev + 1)

unfoldable pub send_button : ℕ → ℕ → Client → Client
send_button code now c =
    let next = next_tick now c.button_tick in
    send_packet Op.butn (put_u32 next ++ put_u32 code) (record c { button_tick = next })

unfoldable pub send_meta : List ℕ → Client → Client
send_meta block c = if length block == 0 then c else send_packet Op.meta block c
