-- ===== src/Airplay/Ptp/Runs.antt =====
-- The gPTP packets at concrete inputs, and the theorems about them there.
use squeeze2raop.Base.{
  true, ℕ, ◌+◌, ◌≡◌, refl, [], ◌∷◌, ◌++◌, none, some, length, ok, IsDefined, arith,
}
use squeeze2raop.Common.ByteOrder.{write_int}
use squeeze2raop.Airplay.Ptp.{
  Header, sync, delay_req, follow_up, announce, signaling, default_header, encode_header,
  parse_header, parse_fields, type_of_code, parse_announce, parse_body_timestamp,
}
use squeeze2raop.Airplay.Ptp.Build.{
  announce_packet, mac_signaling, stop_signaling, sync_follow_up, delay_request, signaling_with,
  org_tlv, build_sync_packet,
}
use squeeze2raop.Airplay.Ptp.Headers.{parse_header-encode_header, parse_header-IsDefined}
use squeeze2raop.Airplay.Ptp.Messages.{
  Identifies, messages-Identify, body_timestamps, parse_announce-announce_packet,
}

abbrev clock : ℕ
clock = 0x0011_22ff_fe33_4455

abbrev follow_up_header : Header
follow_up_header = record default_header {
  kind = follow_up;
  flags = 0x0408;
  source_clock_identity = clock;
  sequence_id = 0x1234;
  control_field = 2;
  log_message_interval = 253;
}

parse_unknown_type : parse_header (0x17 ∷ encode_header follow_up_header) ≡ ok none
unfolding parse_header parse_fields type_of_code encode_header write_int
parse_unknown_type = refl

announce_bytes : length (announce_packet clock 7 250 248) ≡ 64
unfolding announce_packet encode_header write_int
announce_bytes = refl

signaling_bytes : length (mac_signaling clock 7) ≡ 34 + 10 + 14 + 26 + 36
unfolding mac_signaling signaling_with org_tlv encode_header write_int
signaling_bytes = refl

first_sync_packet : length (build_sync_packet 1 2 3 4 clock true) ≡ 28
unfolding build_sync_packet write_int
first_sync_packet = refl

parse_header-encode_header_example :
    parse_header (encode_header follow_up_header ++ (1 ∷ 2 ∷ [])) ≡ ok (some follow_up_header)
parse_header-encode_header_example =
    parse_header-encode_header follow_up_header (1 ∷ 2 ∷ []) (record {
      profile = refl;
      version_bits = omega arith;
      length_bits = omega arith;
      domain_bits = omega arith;
      flags_bits = omega arith;
      correction_bits = omega arith;
      clock_bits = omega arith;
      port_bits = omega arith;
      sequence_bits = omega arith;
      control_bits = omega arith;
      interval_bits = omega arith;
    })

parse_header-IsDefined_example : IsDefined (parse_header (0x10 ∷ 0x02 ∷ []))
parse_header-IsDefined_example = parse_header-IsDefined (0x10 ∷ 0x02 ∷ [])

messages-Identify_example :
    Identifies (announce_packet clock 7 250 248) announce clock 7
    × Identifies (mac_signaling clock 7) signaling clock 7
    × Identifies (stop_signaling clock 7) signaling clock 7
    × Identifies (sync_follow_up clock 7 5_000_000_001).0 sync clock 7
    × Identifies (sync_follow_up clock 7 5_000_000_001).1 follow_up clock 7
    × Identifies (delay_request clock 2 7 5_000_000_001) delay_req clock 7
messages-Identify_example =
    messages-Identify clock 7 (omega arith) (omega arith) 250 248 2 5_000_000_001 (omega arith)

body_timestamps_example :
    (parse_body_timestamp (sync_follow_up clock 7 5_000_000_001).1 ≡ ok (some 5_000_000_001))
    × (parse_body_timestamp (delay_request clock 2 7 5_000_000_001) ≡ ok (some 5_000_000_001))
body_timestamps_example = body_timestamps clock 7 2 5_000_000_001 (omega arith)

parse_announce-announce_packet_example :
    parse_announce (announce_packet clock 7 250 248)
    ≡ ok (some (record { priority1 = 250; grandmaster_clock_id = clock }))
parse_announce-announce_packet_example =
    parse_announce-announce_packet clock 7 250 248 (omega arith)
