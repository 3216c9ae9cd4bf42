-- ===== src/Airplay/Ptp.antt =====
-- src/airplay/ptp_packets.h and ptp_packets.cpp: the gPTP header, timestamps and the parsers of the
-- messages that a slave consumes. A signed field is its bit pattern: int64_t and int8_t are read
-- and written by a cast that keeps the bits.
pub mod Build
pub mod Headers
pub mod Timestamps
pub mod Messages
mod Runs
use squeeze2raop.Base.{
  ℕ, ◌+◌, ◌*◌, ◌/◌, ◌%◌, ◌^◌, ◌<◌, List, [], ◌∷◌, ◌++◌, Option, none, some, length, take, drop, ltb,
  ◌==◌, if◌then◌else◌, Checked, ok, oob, ◌>>=◌, byte_at, bit_and, bit_or, u8, u64, IsByte, IsU16,
  IsU64, leb,
}
use squeeze2raop.Common.ByteOrder.{big, write_int, read_int}

abbrev pub header_size : ℕ
header_size = 34

abbrev pub timestamp_size : ℕ
timestamp_size = 10

pub data MessageType : Type 0 where
  sync delay_req follow_up delay_resp announce signaling : MessageType

abbrev pub type_code : MessageType → ℕ
type_code sync = 0x00
type_code delay_req = 0x01
type_code follow_up = 0x08
type_code delay_resp = 0x09
type_code announce = 0x0b
type_code signaling = 0x0c

-- The `switch` of `parseHeader`.
unfoldable pub type_of_code : ℕ → Option MessageType
type_of_code c =
    if c == 0x00
    then some sync
    else if c == 0x01
    then some delay_req
    else if c == 0x08
    then some follow_up
    else if c == 0x09
    then some delay_resp
    else if c == 0x0b
    then some announce
    else if c == 0x0c
    then some signaling
    else none

pub record Header : Type 0 where
  pub kind : MessageType
  pub transport_specific : ℕ
  pub version : ℕ
  pub message_length : ℕ
  pub domain_number : ℕ
  pub flags : ℕ
  pub correction_field : ℕ
  pub source_clock_identity : ℕ
  pub source_port : ℕ
  pub sequence_id : ℕ
  pub control_field : ℕ
  pub log_message_interval : ℕ

-- The member initialisers of `Header`.
abbrev pub default_header : Header
default_header = record {
  kind = sync;
  transport_specific = 1;
  version = 2;
  message_length = header_size + timestamp_size;
  domain_number = 0;
  flags = 0;
  correction_field = 0;
  source_clock_identity = 0;
  source_port = 1;
  sequence_id = 0;
  control_field = 0;
  log_message_interval = 0;
}

abbrev pub put_u16 : ℕ → List ℕ
put_u16 = write_int big 2

abbrev pub put_u32 : ℕ → List ℕ
put_u32 = write_int big 4

abbrev pub put_u64 : ℕ → List ℕ
put_u64 = write_int big 8

abbrev pub get_u16 : List ℕ → ℕ → Checked ℕ
get_u16 = read_int big 2

abbrev pub get_u32 : List ℕ → ℕ → Checked ℕ
get_u32 = read_int big 4

abbrev pub get_u64 : List ℕ → ℕ → Checked ℕ
get_u64 = read_int big 8

unfoldable pub encode_header : Header → List ℕ
unfolding write_int
encode_header h =
    bit_or (bit_and h.transport_specific 0x0f * 16) (bit_and (type_code h.kind) 0x0f)
    ∷ bit_and h.version 0x0f
    ∷ (put_u16 h.message_length
        ++ (h.domain_number
            ∷ 0
            ∷ (put_u16 h.flags
                ++ (put_u64 h.correction_field
                    ++ (put_u32 0
                        ++ (put_u64 h.source_clock_identity
                            ++ (put_u16 h.source_port
                                ++ (put_u16 h.sequence_id
                                    ++ (h.control_field ∷ h.log_message_interval ∷ [])))))))))

-- The fields after the type; `transport_specific` keeps its initial value.
unfoldable pub parse_fields : List ℕ → MessageType → Checked (Option Header)
parse_fields p t = do
  version ← byte_at p 1
  length ← get_u16 p 2
  domain ← byte_at p 4
  flags ← get_u16 p 6
  correction ← get_u64 p 8
  clock ← get_u64 p 20
  port ← get_u16 p 28
  sequence ← get_u16 p 30
  control ← byte_at p 32
  interval ← byte_at p 33
  ok (
      some (record default_header {
        kind = t;
        version = bit_and version 0x0f;
        message_length = length;
        domain_number = domain;
        flags = flags;
        correction_field = correction;
        source_clock_identity = clock;
        source_port = port;
        sequence_id = sequence;
        control_field = control;
        log_message_interval = interval;
      }))

abbrev pub parse_typed : List ℕ → Option MessageType → Checked (Option Header)
parse_typed p none = ok none
parse_typed p (some t) = parse_fields p t

unfoldable pub parse_header : List ℕ → Checked (Option Header)
parse_header p =
    if ltb (length p) header_size
    then ok none
    else byte_at p 0 >>= λ b. parse_typed p (type_of_code (bit_and b 0x0f))

-- `(seconds >> shift) & 0xFF` for shift 40, 32, .. 0, and then the nanoseconds.
unfoldable pub encode_timestamp : ℕ → List ℕ
unfolding write_int
encode_timestamp ns =
    let seconds = ns / 1000000000 in
    seconds / 2 ^ 40 % 256
    ∷ seconds / 2 ^ 32 % 256
    ∷ seconds / 2 ^ 24 % 256
    ∷ seconds / 2 ^ 16 % 256
    ∷ seconds / 2 ^ 8 % 256
    ∷ seconds % 256
    ∷ put_u32 (ns % 1000000000)

-- The loop `seconds = (seconds << 8) | data[i]` over `n` bytes from `i` on, on a uint64_t.
unfoldable pub seconds_loop : ℕ → ℕ → List ℕ → ℕ → Checked ℕ
seconds_loop ℕ.zero i p acc = ok acc
seconds_loop (ℕ.suc n) i p acc =
    byte_at p i >>= λ b. seconds_loop n (i + 1) p (bit_or (u64 (acc * 256)) b)

unfoldable pub parse_timestamp : List ℕ → Checked (Option ℕ)
parse_timestamp p =
    if ltb (length p) timestamp_size
    then ok none
    else seconds_loop 6 0 p 0 >>= λ seconds.
        get_u32 p 6 >>= λ nanos. ok (some (u64 (u64 (seconds * 1000000000) + nanos)))

pub record AnnounceInfo : Type 0 where
  pub priority1 : ℕ
  pub grandmaster_clock_id : ℕ

unfoldable pub parse_announce : List ℕ → Checked (Option AnnounceInfo)
parse_announce p =
    if ltb (length p) 61
    then ok none
    else byte_at p 47 >>= λ priority. get_u64 p 53 >>= λ grandmaster.
        ok (some (record { priority1 = priority; grandmaster_clock_id = grandmaster }))

-- `subspan(offset, count)` must lie inside the span.
abbrev pub subspan : List ℕ → ℕ → ℕ → Checked (List ℕ)
subspan p off n = if leb (off + n) (length p) then ok (take n (drop off p)) else oob

unfoldable pub parse_body_timestamp : List ℕ → Checked (Option ℕ)
parse_body_timestamp p =
    if ltb (length p) (header_size + timestamp_size)
    then ok none
    else subspan p header_size timestamp_size >>= parse_timestamp
