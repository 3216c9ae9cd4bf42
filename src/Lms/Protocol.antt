-- ===== src/Lms/Protocol.antt =====
-- src/lms/slimproto_protocol.h: the payload types and the constants of the protocol, and the PCM
-- code tables of slimproto_packets.cpp. `StreamFormat` is an enumeration over uint8_t that is cast
-- from any byte, so a format is its byte.
use squeeze2raop.Base.{ℕ, List, Bool, false, ◌==◌, if◌then◌else◌, ◌*◌}

abbrev pub unknown_format : ℕ
unknown_format = b'?'

pub record PcmParams : Type 0 where
  pub sample_size_code : ℕ
  pub sample_rate_code : ℕ
  pub channels_code : ℕ
  pub endian_code : ℕ

abbrev pub default_sample_rate : ℕ
default_sample_rate = 44100

abbrev pub default_channels : ℕ
default_channels = 2

pub record PcmFormat : Type 0 where
  pub sample_rate : ℕ
  pub bits_per_sample : ℕ
  pub channels : ℕ
  pub big_endian : Bool

abbrev pub default_pcm_format : PcmFormat
default_pcm_format = record {
  sample_rate = default_sample_rate;
  bits_per_sample = 16;
  channels = default_channels;
  big_endian = false;
}

unfoldable pub sample_rate_from_code : ℕ → ℕ
sample_rate_from_code c =
    if c == b'0'
    then 11000
    else if c == b'1'
    then 22000
    else if c == b'2'
    then 32000
    else if c == b'3'
    then 44100
    else if c == b'4'
    then 48000
    else if c == b'5'
    then 8000
    else if c == b'6'
    then 12000
    else if c == b'7'
    then 16000
    else if c == b'8'
    then 24000
    else if c == b'9'
    then 96000
    else 44100

unfoldable pub bits_per_sample_from_code : ℕ → ℕ
bits_per_sample_from_code c =
    if c == b'0'
    then 8
    else if c == b'1'
    then 16
    else if c == b'2'
    then 20
    else if c == b'3'
    then 32
    else 16

unfoldable pub channels_from_code : ℕ → ℕ
channels_from_code c = if c == b'1' then 1 else 2

-- A code of '?' leaves the default, and the fallback for the rate.
unfoldable pub pcm_format : PcmParams → ℕ → PcmFormat
unfolding sample_rate_from_code bits_per_sample_from_code channels_from_code
pcm_format params fallback_rate = record {
  sample_rate =
      if params.sample_rate_code == b'?'
      then fallback_rate
      else sample_rate_from_code params.sample_rate_code;
  bits_per_sample =
      if params.sample_size_code == b'?'
      then 16
      else bits_per_sample_from_code params.sample_size_code;
  channels =
      if params.channels_code == b'?'
      then default_channels
      else channels_from_code params.channels_code;
  big_endian = if params.endian_code == b'?' then false else params.endian_code == b'0';
}

pub record StrmStart : Type 0 where
  pub autostart : ℕ
  pub format : ℕ
  pub pcm : PcmParams
  pub threshold_kb : ℕ
  pub transition_type : ℕ
  pub transition_period_s : ℕ
  pub flags : ℕ
  pub ssl : Bool
  pub replay_gain : ℕ
  pub server_ip : ℕ
  pub server_port : ℕ
  pub request : List ℕ

pub record StreamStats : Type 0 where
  pub stream_buffer_size : ℕ
  pub stream_buffer_fullness : ℕ
  pub bytes_received : ℕ
  pub output_buffer_size : ℕ
  pub output_buffer_fullness : ℕ
  pub elapsed_ms : ℕ

abbrev pub no_stats : StreamStats
no_stats = record {
  stream_buffer_size = 0;
  stream_buffer_fullness = 0;
  bytes_received = 0;
  output_buffer_size = 0;
  output_buffer_fullness = 0;
  elapsed_ms = 0;
}

-- Minimum lengths of the packets that are parsed, and other limits of the frame layout.
abbrev pub min_packet_bytes : ℕ
min_packet_bytes = 4

abbrev pub max_packet_bytes : ℕ
max_packet_bytes = 4096 * 8

abbrev pub setd_min_bytes : ℕ
setd_min_bytes = 5

abbrev pub audg_min_bytes : ℕ
audg_min_bytes = 22

abbrev pub aude_min_bytes : ℕ
aude_min_bytes = 6

abbrev pub codc_min_bytes : ℕ
codc_min_bytes = 9

abbrev pub serv_min_bytes : ℕ
serv_min_bytes = 8

abbrev pub strm_min_bytes : ℕ
strm_min_bytes = 5

abbrev pub strm_start_min_bytes : ℕ
strm_start_min_bytes = 28

abbrev pub strm_flag_ssl : ℕ
strm_flag_ssl = 0x20

abbrev pub autostart_decoder_ready : ℕ
autostart_decoder_ready = 0

abbrev pub autostart_require_cont : ℕ
autostart_require_cont = 2
