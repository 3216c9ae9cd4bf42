-- ===== src/Airplay/Ptp/Build.antt =====
-- src/airplay/ptp_packets.cpp: the builders of the messages that the clock sends.
use squeeze2raop.Base.{ℕ, ◌+◌, List, [], ◌∷◌, ◌++◌, Bool, length, replicate, u16, if◌then◌else◌}
use squeeze2raop.Airplay.Ptp.{
  Header, header_size, timestamp_size, sync, delay_req, follow_up, announce, signaling,
  default_header, put_u16, put_u32, put_u64, encode_header, encode_timestamp,
}

abbrev pub gptp_org : List ℕ
gptp_org = 0x00 ∷ 0x80 ∷ 0xc2 ∷ []

abbrev pub apple_org : List ℕ
apple_org = 0x00 ∷ 0x0d ∷ 0x93 ∷ []

-- `kUnicastFlag | kProfileFlag`, and those with `kTwoStepFlag`.
abbrev pub apple_flags : ℕ
apple_flags = 0x0408

abbrev pub two_step_flags : ℕ
two_step_flags = 0x0608

-- An organization extension: type, length, organization, subtype, payload.
unfoldable pub org_tlv : List ℕ → List ℕ → List ℕ → List ℕ
org_tlv org sub payload =
    put_u16 0x0003 ++ (put_u16 (u16 (6 + length payload)) ++ (org ++ (sub ++ payload)))

-- `int8_t` arguments are bit patterns: -3 is 0xfd and -2 is 0xfe.
abbrev pub interval_payload : ℕ → ℕ → ℕ → List ℕ
interval_payload time_sync announces bits = time_sync ∷ time_sync ∷ announces ∷ bits ∷ []

unfoldable pub signaling_with : List ℕ → ℕ → ℕ → List ℕ
signaling_with tlvs clock_id sequence =
    encode_header (record default_header {
      kind = signaling;
      message_length = u16 (header_size + 10 + length tlvs);
      flags = apple_flags;
      source_clock_identity = clock_id;
      source_port = 1;
      sequence_id = sequence;
      control_field = 5;
      log_message_interval = 127;
    })
    ++ (replicate 10 0xff ++ tlvs)

unfoldable pub announce_packet : ℕ → ℕ → ℕ → ℕ → List ℕ
announce_packet clock_id sequence priority1 clock_class =
    encode_header (record default_header {
      kind = announce;
      message_length = 64;
      flags = apple_flags;
      source_clock_identity = clock_id;
      source_port = 1;
      sequence_id = sequence;
      control_field = 5;
      log_message_interval = 254;
    })
    ++ (replicate 10 0
        ++ (put_u16 37
            ++ (0
                ∷ priority1
                ∷ clock_class
                ∷ 0xfe
                ∷ (put_u16 0xffff ++ (128 ∷ (put_u64 clock_id ++ (put_u16 0 ++ (0xa0 ∷ []))))))))

abbrev pub apple_sub_01 : List ℕ
apple_sub_01 = 0x00 ∷ 0x00 ∷ 0x01 ∷ []

abbrev pub apple_sub_05 : List ℕ
apple_sub_05 = 0x00 ∷ 0x00 ∷ 0x05 ∷ []

abbrev pub apple_01_mac : List ℕ
apple_01_mac =
    0x00
    ∷ 0x03
    ∷ 0x00
    ∷ 0x00
    ∷ 0x00
    ∷ 0x00
    ∷ 0x27
    ∷ 0x10
    ∷ 0x00
    ∷ 0x00
    ∷ 0x27
    ∷ 0x10
    ∷ replicate 4 0x00

abbrev pub apple_05_mac : List ℕ
apple_05_mac =
    0x00
    ∷ 0x0f
    ∷ 0x00
    ∷ 0x00
    ∷ 0x00
    ∷ 0x00
    ∷ 0x27
    ∷ 0x10
    ∷ 0x00
    ∷ 0x00
    ∷ 0x27
    ∷ 0x10
    ∷ replicate 14 0x00

abbrev pub sub_interval_request : List ℕ
sub_interval_request = 0x00 ∷ 0x00 ∷ 0x02 ∷ []

abbrev pub sub_follow_up_info : List ℕ
sub_follow_up_info = 0x00 ∷ 0x00 ∷ 0x01 ∷ []

abbrev pub mac_tlvs : List ℕ
mac_tlvs =
    org_tlv gptp_org sub_interval_request (interval_payload 0xfd 0xfe 0x02)
    ++ (org_tlv apple_org apple_sub_01 apple_01_mac ++ org_tlv apple_org apple_sub_05 apple_05_mac)

unfoldable pub mac_signaling : ℕ → ℕ → List ℕ
mac_signaling clock_id sequence = signaling_with mac_tlvs clock_id sequence

unfoldable pub stop_signaling : ℕ → ℕ → List ℕ
stop_signaling clock_id sequence =
    signaling_with (org_tlv gptp_org sub_interval_request (interval_payload 0x7e 0x7e 0x00))
      clock_id sequence

abbrev pub follow_up_tlv : List ℕ
follow_up_tlv = org_tlv gptp_org sub_follow_up_info (replicate 22 0)

-- The Sync of the event port and the Follow_Up of the general port.
unfoldable pub sync_follow_up : ℕ → ℕ → ℕ → List ℕ × List ℕ
sync_follow_up clock_id sequence send_time_ns = (
  encode_header (record default_header {
    kind = sync;
    message_length = header_size + timestamp_size;
    flags = two_step_flags;
    source_clock_identity = clock_id;
    source_port = 1;
    sequence_id = sequence;
    control_field = 0;
    log_message_interval = 253;
  })
      ++ replicate timestamp_size 0,
  encode_header (record default_header {
    kind = follow_up;
    message_length = u16 (header_size + timestamp_size + length follow_up_tlv);
    flags = apple_flags;
    source_clock_identity = clock_id;
    source_port = 1;
    sequence_id = sequence;
    control_field = 2;
    log_message_interval = 253;
  })
      ++ (encode_timestamp send_time_ns ++ follow_up_tlv),
)

abbrev pub delay_header : ℕ → ℕ → ℕ → Header
delay_header clock_id source_port sequence = record default_header {
  kind = delay_req;
  message_length = header_size + timestamp_size;
  flags = apple_flags;
  source_clock_identity = clock_id;
  source_port = source_port;
  sequence_id = sequence;
  control_field = 0;
  log_message_interval = 253;
}

unfoldable pub delay_request : ℕ → ℕ → ℕ → ℕ → List ℕ
delay_request clock_id source_port sequence send_time_ns =
    encode_header (delay_header clock_id source_port sequence) ++ encode_timestamp send_time_ns

unfoldable pub build_sync_packet : ℕ → ℕ → ℕ → ℕ → ℕ → Bool → List ℕ
build_sync_packet sequence current_rtp receiver_time_ns next_rtp master_clock_id first =
    (if first then 0x90 else 0x80)
    ∷ 0xd7
    ∷ (put_u16 sequence
        ++ (put_u32 current_rtp
            ++ (put_u64 receiver_time_ns ++ (put_u32 next_rtp ++ put_u64 master_clock_id))))
