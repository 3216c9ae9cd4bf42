-- ===== src/Lms/Runs.antt =====
-- The slimproto client at concrete packets, and the theorems about it there.
use squeeze2raop.Base.{
  ℕ, ◌≡◌, ◌≢◌, ◌↔◌, ◌<◌, ◌-◌, ◌^◌, ◌/◌, ◌%◌, refl, List, [], ◌∷◌, ◌++◌, none, length, true, ok,
  IsDefined, arith, codes, IsU32,
}
use squeeze2raop.Common.ByteOrder.{write_int}
use squeeze2raop.Lms.Protocol.{StrmStart, StreamStats, no_stats, pcm_format}
use squeeze2raop.Lms.Stat
use squeeze2raop.Lms.Client.{Client, send_stat, stat_body, next_tick}
use squeeze2raop.Lms.Client.Replies.{Shows, stat_body-Shows, next_tick_increases}
use squeeze2raop.Lms.Process.{on_set_name, Env, on_start, fire, process, dispatch, audg}
use squeeze2raop.Lms.Process.Safety.{process-IsDefined}
use squeeze2raop.Lms.Process.Start.{start_packet, process-start_packet}
use squeeze2raop.Lms.Process.Names.{answer, setd_packet, setd_round_trip}
use squeeze2raop.Lms.Link.{Link, Event, going, fault, readable, idle, rounds, fresh}
use squeeze2raop.Lms.Link.Stream.{encodings, encode_packet}
use squeeze2raop.Lms.Link.Packets.{rounds_packets}

abbrev client : Client
client = record {
  mac = 0xaa ∷ 1 ∷ 2 ∷ 3 ∷ 4 ∷ 5 ∷ [];
  caps = codes "Model=squeezelite";
  player_name = codes "kitchen";
  stats = no_stats;
  last_heartbeat_ms = 0;
  button_tick = 0;
  wire = [];
}

-- A session that handles no callback, at one second.
abbrev silent : Env
silent = record { handle = λ cb. none; provider = none; now = 1000 }

abbrev mp3_stream : StrmStart
mp3_stream = record {
  autostart = 1;
  format = b'm';
  pcm = record {
    sample_size_code = b'?';
    sample_rate_code = b'?';
    channels_code = b'?';
    endian_code = b'?';
  };
  threshold_kb = 255;
  transition_type = 0;
  transition_period_s = 10;
  flags = 0x20;
  ssl = true;
  replay_gain = 0x1_0000;
  server_ip = 0;
  server_port = 9000;
  request = codes "GET / HTTP/1.0";
}

cd_rate :
    pcm_format
      (record {
        sample_size_code = b'1';
        sample_rate_code = b'3';
        channels_code = b'2';
        endian_code = b'0';
      })
      48000
    ≡ record { sample_rate = 44100; bits_per_sample = 16; channels = 2; big_endian = true }
unfolding pcm_format
cd_rate = refl

-- A truncated 'audg' is ignored.
audg_short : process silent (codes "audg" ++ (1 ∷ 2 ∷ 3 ∷ [])) client ≡ ok client
unfolding process dispatch audg
audg_short = refl

process-IsDefined_example : IsDefined (process silent (codes "strms1m?") client)
process-IsDefined_example = process-IsDefined silent (codes "strms1m?") client

process-start_packet_example :
    process silent (start_packet mp3_stream 0 0 0) client
    ≡ ok (fire silent (on_start mp3_stream) (send_stat Stat.flush no_stats 0 1000 client))
process-start_packet_example = process-start_packet silent mp3_stream 0 0 0 client (record {
  autostart_digit = omega arith;
  transition_digit = omega arith;
  gain_bits = omega arith;
  port_bits = omega arith;
  ip_bits = omega arith;
  ssl_bit = refl;
})

abbrev renamed : Client
renamed =
    answer (codes "den")
      (fire silent (on_set_name (codes "den")) (record client { player_name = codes "den" }))

setd_round_trip_example :
    (process silent (setd_packet (codes "den" ++ (0 ∷ 0 ∷ []))) client ≡ ok renamed)
    × (renamed.player_name ≡ codes "den")
    × (process silent (setd_packet []) renamed ≡ ok (answer (codes "den") renamed))
setd_round_trip_example =
    setd_round_trip silent (codes "de") b'n' 2 client (λ e. omega arith) (λ f d e. cc)

abbrev playing : StreamStats
playing = record {
  stream_buffer_size = 1048576;
  stream_buffer_fullness = 65536;
  bytes_received = 5_000_000_000;
  output_buffer_size = 352800;
  output_buffer_fullness = 176400;
  elapsed_ms = 61_500;
}

abbrev reply : List ℕ
reply = stat_body Stat.heartbeat playing 77 1000

stat_body-Shows_example :
    (length reply ≡ 53)
    × Shows reply 7 1048576
    × Shows reply 11 65536
    × Shows reply 15 (5_000_000_000 / 2 ^ 32)
    × Shows reply 19 (5_000_000_000 % 2 ^ 32)
    × Shows reply 25 1000
    × Shows reply 29 352800
    × Shows reply 33 176400
    × Shows reply 37 61
    × Shows reply 43 61_500
    × Shows reply 47 77
stat_body-Shows_example =
    stat_body-Shows b'S' b'T' b'M' b't' 77 1000 playing
      (record {
        size_bits = omega arith;
        fullness_bits = omega arith;
        received_bits = omega arith;
        output_size_bits = omega arith;
        output_fullness_bits = omega arith;
        elapsed_bits = omega arith;
      })
      (omega arith)

next_tick_increases_example :
    IsU32 (next_tick 1000 4000) × ((4000 < next_tick 1000 4000) ↔ (4000 ≢ 2 ^ 32 - 1))
next_tick_increases_example = next_tick_increases 1000 4000 (omega arith)

abbrev two_packets : List (List ℕ)
two_packets = codes "visu" ∷ (codes "setd" ++ (0 ∷ [])) ∷ []

-- The rounds that read both packets, one of them in two pieces.
abbrev schedule : List (Env × Event)
schedule =
    (silent, readable 9)
    ∷ (silent, readable 3)
    ∷ (silent, readable 9)
    ∷ (silent, idle)
    ∷ (silent, readable 1)
    ∷ (silent, readable 9)
    ∷ []

rounds_packets_example :
    (rounds schedule (fresh (encodings two_packets) client 1000 35000) ≢ fault)
    × ((l : Link)
        → rounds schedule (fresh (encodings two_packets) client 1000 35000) ≡ going l
        → ((more : List (List ℕ)) × (two_packets ≡ l.handled ++ more))
          × (l.incoming ≡ [] → two_packets ≡ l.handled))
unfolding encodings encode_packet write_int
rounds_packets_example =
    rounds_packets two_packets schedule client 1000 35000 (omega arith) (omega arith)
