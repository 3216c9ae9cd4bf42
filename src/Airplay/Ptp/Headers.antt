-- ===== src/Airplay/Ptp/Headers.antt =====
-- The gPTP header: what is encoded is parsed back, and parsing is defined on every input.
use squeeze2raop.Base.{
  ℕ, ◌*◌, ◌≤◌, ◌<◌, ◌≡◌, refl, sym, ap, ◌∙◌, List, ◌++◌, Option, none, some, length, ltb, ok,
  IsDefined, bit_and, bit_or, IsByte, IsU16, IsU64, arith, bit_and_nibble, ltb-false, Bool-cases,
  inl, inr, false, byte_at-IsDefined, >>=-IsDefined,
}
use squeeze2raop.Common.ByteOrder.{big, read_int}
use squeeze2raop.Common.ByteOrder.RoundTrip.{
  wire_value-write_int, read_int-IsDefined, read_int_inside,
}
use squeeze2raop.Airplay.Ptp.{
  MessageType, Header, header_size, sync, delay_req, follow_up, delay_resp, announce, signaling,
  type_code, type_of_code, encode_header, parse_fields, parse_header, parse_typed,
}

-- The values of the fields fit their types; the version is sent in four bits, and the receiver
-- takes the profile nibble for granted.
pub record IsHeader (h : Header) : Type 0 where
  pub profile : h.transport_specific ≡ 1
  pub version_bits : h.version < 16
  pub length_bits : IsU16 h.message_length
  pub domain_bits : IsByte h.domain_number
  pub flags_bits : IsU16 h.flags
  pub correction_bits : IsU64 h.correction_field
  pub clock_bits : IsU64 h.source_clock_identity
  pub port_bits : IsU16 h.source_port
  pub sequence_bits : IsU16 h.sequence_id
  pub control_bits : IsByte h.control_field
  pub interval_bits : IsByte h.log_message_interval

pub length-encode_header : (h : Header) → length (encode_header h) ≡ 34
unfolding encode_header
length-encode_header h = refl

type_of_code-first_byte :
    (t : MessageType)
    → type_of_code (bit_and (bit_or (bit_and 1 0x0f * 16) (bit_and (type_code t) 0x0f)) 0x0f)
      ≡ some t
unfolding type_of_code
type_of_code-first_byte sync = refl
type_of_code-first_byte delay_req = refl
type_of_code-first_byte follow_up = refl
type_of_code-first_byte delay_resp = refl
type_of_code-first_byte announce = refl
type_of_code-first_byte signaling = refl

first_byte :
    (ts : ℕ) (t : MessageType)
    → ts ≡ 1
    → type_of_code (bit_and (bit_or (bit_and ts 0x0f * 16) (bit_and (type_code t) 0x0f)) 0x0f)
      ≡ some t
first_byte ts t e = rw e (type_of_code-first_byte t)

nibble_self : (v : ℕ) → v < 16 → bit_and (bit_and v 0x0f) 0x0f ≡ v
nibble_self v h = omega (arith, bit_and_nibble v, bit_and_nibble (bit_and v 0x0f))

-- Each field is read at its offset.
module _ (h : Header) (rest : List ℕ) (v : IsHeader h) where
  room : (n : ℕ) → n ≤ 34 → n ≤ length (encode_header h ++ rest)
  unfolding encode_header
  room n le = omega arith

  read_length : read_int big 2 (encode_header h ++ rest) 2 ≡ ok h.message_length
  unfolding encode_header
  read_length =
      read_int_inside big 2 _ 2 (room 4 (omega arith))
      ∙ ap ok (wire_value-write_int big 2 h.message_length v.length_bits)

  read_flags : read_int big 2 (encode_header h ++ rest) 6 ≡ ok h.flags
  unfolding encode_header
  read_flags =
      read_int_inside big 2 _ 6 (room 8 (omega arith))
      ∙ ap ok (wire_value-write_int big 2 h.flags v.flags_bits)

  read_correction : read_int big 8 (encode_header h ++ rest) 8 ≡ ok h.correction_field
  unfolding encode_header
  read_correction =
      read_int_inside big 8 _ 8 (room 16 (omega arith))
      ∙ ap ok (wire_value-write_int big 8 h.correction_field v.correction_bits)

  read_clock : read_int big 8 (encode_header h ++ rest) 20 ≡ ok h.source_clock_identity
  unfolding encode_header
  read_clock =
      read_int_inside big 8 _ 20 (room 28 (omega arith))
      ∙ ap ok (wire_value-write_int big 8 h.source_clock_identity v.clock_bits)

  read_port : read_int big 2 (encode_header h ++ rest) 28 ≡ ok h.source_port
  unfolding encode_header
  read_port =
      read_int_inside big 2 _ 28 (room 30 (omega arith))
      ∙ ap ok (wire_value-write_int big 2 h.source_port v.port_bits)

  read_sequence : read_int big 2 (encode_header h ++ rest) 30 ≡ ok h.sequence_id
  unfolding encode_header
  read_sequence =
      read_int_inside big 2 _ 30 (room 32 (omega arith))
      ∙ ap ok (wire_value-write_int big 2 h.sequence_id v.sequence_bits)

parse_fields-encode_header :
    (h : Header) (rest : List ℕ)
    → IsHeader h
    → parse_fields (encode_header h ++ rest) h.kind ≡ ok (some h)
unfolding parse_fields encode_header
parse_fields-encode_header h rest v =
    rw
      (
        read_length h rest v,
        read_flags h rest v,
        read_correction h rest v,
        read_clock h rest v,
        read_port h rest v,
        read_sequence h rest v,
        nibble_self h.version v.version_bits,
      )
      (λ i. ok (some (record h { transport_specific = sym v.profile i })))

-- A header is parsed back from its encoding, whatever follows it: every field returns as it was
-- sent, given that it fits its type, the version fits its four bits and `transportSpecific` is 1.
pub parse_header-encode_header :
    (h : Header) (rest : List ℕ) → IsHeader h → parse_header (encode_header h ++ rest) ≡ ok (some h)
unfolding parse_header encode_header
parse_header-encode_header h rest v =
    rw (long, first_byte h.transport_specific h.kind v.profile)
      (parse_fields-encode_header h rest v)
  where
    long : ltb (length (encode_header h ++ rest)) header_size ≡ false
    long = ltb-false _ _ (omega arith)

parse_fields-IsDefined :
    (p : List ℕ) (t : MessageType) → header_size ≤ length p → IsDefined (parse_fields p t)
unfolding parse_fields
parse_fields-IsDefined p t long = >>=-IsDefined _ _ (byte_at-IsDefined p 1 (omega arith)) λ _.
    >>=-IsDefined _ _ (read_int-IsDefined big 2 p 2 (omega arith)) λ _.
      >>=-IsDefined _ _ (byte_at-IsDefined p 4 (omega arith)) λ _.
        >>=-IsDefined _ _ (read_int-IsDefined big 2 p 6 (omega arith)) λ _.
          >>=-IsDefined _ _ (read_int-IsDefined big 8 p 8 (omega arith)) λ _.
            >>=-IsDefined _ _ (read_int-IsDefined big 8 p 20 (omega arith)) λ _.
              >>=-IsDefined _ _ (read_int-IsDefined big 2 p 28 (omega arith)) λ _.
                >>=-IsDefined _ _ (read_int-IsDefined big 2 p 30 (omega arith)) λ _.
                  >>=-IsDefined _ _ (byte_at-IsDefined p 32 (omega arith))
                    λ _. >>=-IsDefined _ _ (byte_at-IsDefined p 33 (omega arith)) λ _. tt

-- Parsing reads inside the packet, whatever its bytes and its length.
pub parse_header-IsDefined : (p : List ℕ) → IsDefined (parse_header p)
unfolding parse_header
parse_header-IsDefined p = elim (Bool-cases (ltb (length p) header_size)) [
  | inl short ↦ rw short tt
  | inr long ↦ rw long (
      >>=-IsDefined _ _ (byte_at-IsDefined p 0 (ground arith))
        λ b. typed (ground arith) (type_of_code (bit_and b 0x0f)))
]
  where
    typed : header_size ≤ length p → (t : Option MessageType) → IsDefined (parse_typed p t)
    typed h none = tt
    typed h (some t) = parse_fields-IsDefined p t h
