-- ===== src/Airplay/Ptp/Messages.antt =====
-- The messages that the bridge sends, as its peers and its own parsers see them.
use squeeze2raop.Base.{
  ℕ, ◌+◌, ◌≤◌, ◌≡◌, refl, ◌∙◌, List, [], ◌++◌, some, length, ltb, ok, ◌>>=◌, IsDefined, IsU16,
  IsU64, arith, ltb-false, length-append, sym, Bool-cases, inl, inr, false, byte_at,
  byte_at-IsDefined, >>=-IsDefined, le→leb, take,
}
use mathlib.Core.Path.{subst}
use mathlib.Core.List.{append-nil}
use squeeze2raop.Common.ByteOrder.{big, write_int, read_int}
use squeeze2raop.Common.ByteOrder.RoundTrip.{wire_value-write_int, read_int-IsDefined}
use squeeze2raop.Airplay.Ptp.{
  MessageType, sync, delay_req, follow_up, announce, signaling, Header, AnnounceInfo, encode_header,
  encode_timestamp, parse_header, parse_announce, parse_body_timestamp, get_u64,
}
use squeeze2raop.Airplay.Ptp.Build.{
  announce_packet, mac_signaling, stop_signaling, sync_follow_up, delay_request, signaling_with,
  delay_header, org_tlv,
}
use squeeze2raop.Airplay.Ptp.Headers.{IsHeader, parse_header-encode_header, length-encode_header}
use squeeze2raop.Airplay.Ptp.Timestamps.{parse_timestamp-encode_timestamp, length-encode_timestamp}

timestamp_first :
    (ns : ℕ) (rest : List ℕ) → take 10 (encode_timestamp ns ++ rest) ≡ encode_timestamp ns ++ []
unfolding encode_timestamp
timestamp_first ns rest = refl

-- The body timestamp of a message is the ten bytes behind its header.
parse_body_timestamp_at :
    (h : Header) (ns : ℕ) (rest : List ℕ)
    → IsU64 ns
    → parse_body_timestamp (encode_header h ++ (encode_timestamp ns ++ rest)) ≡ ok (some ns)
unfolding parse_body_timestamp encode_header
parse_body_timestamp_at h ns rest v =
    rw (long, le→leb 44 (length p) room, timestamp_first ns rest)
      (parse_timestamp-encode_timestamp ns [] v)
  where
    p : List ℕ
    p = encode_header h ++ (encode_timestamp ns ++ rest)

    room : 44 ≤ length p
    room = omega (arith, length-append (encode_timestamp ns) rest, length-encode_timestamp ns)

    long : ltb (length p) 44 ≡ false
    long = ltb-false (length p) 44 room

-- The header of the packet names its kind, the sender's clock, the sequence number and the length
-- of the whole packet.
abbrev pub Identifies : List ℕ → MessageType → ℕ → ℕ → Type 0
Identifies p kind clock_id sequence =
    (h : Header) × (parse_header p ≡ ok (some h))
    × (h.kind ≡ kind)
    × (h.source_clock_identity ≡ clock_id)
    × (h.sequence_id ≡ sequence)
    × (h.message_length ≡ length p)

identifies :
    (h : Header) (rest : List ℕ)
    → IsHeader h
    → h.message_length ≡ 34 + length rest
    → Identifies (encode_header h ++ rest) h.kind h.source_clock_identity h.sequence_id
identifies h rest v e = (h, parse_header-encode_header h rest v, refl, refl, refl, e ∙ sym whole)
  where
    whole : length (encode_header h ++ rest) ≡ 34 + length rest
    whole = omega (arith, length-append (encode_header h) rest, length-encode_header h)

module _ (clock_id sequence : ℕ) (clock : IsU64 clock_id) (seq : IsU16 sequence) where
  -- A Sync, its Follow_Up, a Delay_Req, an Announce and both Signaling messages carry a header that
  -- a peer parses to their kind, our clock, the sequence number and their exact length.
  pub messages-Identify :
      (priority1 clock_class source_port ns : ℕ)
      → IsU16 source_port
      → Identifies
          (announce_packet clock_id sequence priority1 clock_class)
          announce
          clock_id
          sequence
        × Identifies (mac_signaling clock_id sequence) signaling clock_id sequence
        × Identifies (stop_signaling clock_id sequence) signaling clock_id sequence
        × Identifies (sync_follow_up clock_id sequence ns).0 sync clock_id sequence
        × Identifies (sync_follow_up clock_id sequence ns).1 follow_up clock_id sequence
        × Identifies (delay_request clock_id source_port sequence ns) delay_req clock_id sequence
  unfolding announce_packet mac_signaling stop_signaling sync_follow_up delay_request signaling_with
      org_tlv encode_timestamp write_int
  messages-Identify priority1 clock_class source_port ns port = (
    identifies _ _ (omega arith) refl,
    identifies _ _ (omega arith) refl,
    identifies _ _ (omega arith) refl,
    identifies _ _ (omega arith) refl,
    identifies _ _ (omega arith) refl,
    identifies _ _ (omega arith) refl,
  )

-- The transmit time that a Follow_Up and a Delay_Req carry is what the peer reads from their
-- bodies, for every uint64 of nanoseconds.
pub body_timestamps :
    (clock_id sequence source_port ns : ℕ)
    → IsU64 ns
    → (parse_body_timestamp (sync_follow_up clock_id sequence ns).1 ≡ ok (some ns))
      × (parse_body_timestamp (delay_request clock_id source_port sequence ns) ≡ ok (some ns))
unfolding sync_follow_up delay_request
body_timestamps clock_id sequence source_port ns v = (
  parse_body_timestamp_at _ ns _ v,
  subst
      (λ t.
        parse_body_timestamp (encode_header (delay_header clock_id source_port sequence) ++ t)
        ≡ ok (some ns))
      (append-nil (encode_timestamp ns)) (parse_body_timestamp_at _ ns [] v),
)

-- A slave reads from our Announce the priority and the clock that it was built with.
pub parse_announce-announce_packet :
    (clock_id sequence priority1 clock_class : ℕ)
    → IsU64 clock_id
    → parse_announce (announce_packet clock_id sequence priority1 clock_class)
      ≡ ok (some (record { priority1 = priority1; grandmaster_clock_id = clock_id }))
unfolding announce_packet parse_announce read_int encode_header write_int
parse_announce-announce_packet clock_id sequence priority1 clock_class v = λ i. ok (
    some (record {
      priority1 = priority1;
      grandmaster_clock_id = wire_value-write_int big 8 clock_id v i;
    }))

-- Parsing an Announce reads inside the packet, whatever its bytes and its length.
pub parse_announce-IsDefined : (p : List ℕ) → IsDefined (parse_announce p)
unfolding parse_announce
parse_announce-IsDefined p = elim (Bool-cases (ltb (length p) 61)) [
  | inl short ↦ rw short tt
  | inr long ↦ rw long (body (ground arith))
]
  where
    body :
        61 ≤ length p
        → IsDefined (
            byte_at p 47 >>= λ priority. get_u64 p 53 >>= λ grandmaster.
            let info : AnnounceInfo = record {
              priority1 = priority;
              grandmaster_clock_id = grandmaster;
            } in
            ok (some info))
    body h =
        >>=-IsDefined _ _ (byte_at-IsDefined p 47 (omega arith))
          λ _. >>=-IsDefined _ _ (read_int-IsDefined big 8 p 53 (omega arith)) λ _. tt
