-- ===== src/Airplay/Ptp/Timestamps.antt =====
-- PTP timestamps: 48-bit seconds and 32-bit nanoseconds.
use squeeze2raop.Base.{
  ℕ, ◌+◌, ◌*◌, ◌/◌, ◌%◌, ◌^◌, ◌≤◌, ◌<◌, ◌≡◌, refl, ap, ◌∙◌, List, ◌∷◌, ◌++◌, some, length, ltb, ok,
  ◌>>=◌, IsDefined, bit_or, IsU64, u64, arith, bit_or-shift, ltb-false, Bool-cases, inl, inr, false,
  byte_at, byte_at-IsDefined, >>=-IsDefined, zero, suc, take, drop, le→leb,
}
use squeeze2raop.Common.ByteOrder.{big, read_int}
use squeeze2raop.Common.ByteOrder.RoundTrip.{
  wire_value-write_int, read_int-IsDefined, read_int_inside,
}
use squeeze2raop.Airplay.Ptp.{
  timestamp_size, encode_timestamp, seconds_loop, parse_timestamp, parse_body_timestamp, get_u32,
  put_u32,
}

pub length-encode_timestamp : (ns : ℕ) → length (encode_timestamp ns) ≡ 10
unfolding encode_timestamp
length-encode_timestamp ns = refl

-- One round of the seconds loop adds a byte below the word.
round_sum : (acc b : ℕ) → acc < 2 ^ 56 → b < 256 → bit_or (u64 (acc * 256)) b ≡ acc * 256 + b
round_sum acc b ha hb =
    let small : u64 (acc * 256) ≡ acc * 2 ^ 8 = omega arith in rw small (bit_or-shift 8 acc b hb)

seconds_step :
    (n i : ℕ) (p : List ℕ) (acc b next : ℕ)
    → acc < 2 ^ 56
    → b < 256
    → byte_at p i ≡ ok b
    → acc * 256 + b ≡ next
    → seconds_loop (suc n) i p acc ≡ seconds_loop n (i + 1) p next
unfolding seconds_loop
seconds_step n i p acc b next ha hb at e = rw (at, round_sum acc b ha hb, e)

abbrev second_bytes : ℕ → List ℕ → List ℕ
second_bytes s rest =
    s / 2 ^ 40 % 256
    ∷ s / 2 ^ 32 % 256
    ∷ s / 2 ^ 24 % 256
    ∷ s / 2 ^ 16 % 256
    ∷ s / 2 ^ 8 % 256
    ∷ s % 256
    ∷ rest

-- Six bytes are read as a 48-bit number, whatever follows them.
seconds_loop_lem :
    (s : ℕ) (rest : List ℕ) → s < 2 ^ 48 → seconds_loop 6 0 (second_bytes s rest) 0 ≡ ok s
unfolding seconds_loop
seconds_loop_lem s rest h =
    let p : List ℕ = second_bytes s rest in
    seconds_step 5 0 p 0 (s / 2 ^ 40 % 256) (s / 2 ^ 40) (omega arith) (omega arith) refl
      (omega arith)
    ∙ seconds_step 4 1 p (s / 2 ^ 40) (s / 2 ^ 32 % 256) (s / 2 ^ 32) (omega arith) (omega arith)
        refl (omega arith)
    ∙ seconds_step 3 2 p (s / 2 ^ 32) (s / 2 ^ 24 % 256) (s / 2 ^ 24) (omega arith) (omega arith)
        refl (omega arith)
    ∙ seconds_step 2 3 p (s / 2 ^ 24) (s / 2 ^ 16 % 256) (s / 2 ^ 16) (omega arith) (omega arith)
        refl (omega arith)
    ∙ seconds_step 1 4 p (s / 2 ^ 16) (s / 2 ^ 8 % 256) (s / 2 ^ 8) (omega arith) (omega arith) refl
        (omega arith)
    ∙ seconds_step 0 5 p (s / 2 ^ 8) (s % 256) s (omega arith) (omega arith) refl (omega arith)

-- Every uint64 of nanoseconds survives the wire, whatever follows the ten bytes.
pub parse_timestamp-encode_timestamp :
    (ns : ℕ) (rest : List ℕ)
    → IsU64 ns
    → parse_timestamp (encode_timestamp ns ++ rest) ≡ ok (some ns)
unfolding parse_timestamp encode_timestamp
parse_timestamp-encode_timestamp ns rest h =
    rw (long, seconds, nanos) (ap ok (ap some (omega arith)))
  where
    long : ltb (length (encode_timestamp ns ++ rest)) timestamp_size ≡ false
    long = ltb-false (length (encode_timestamp ns ++ rest)) 10 (omega arith)

    seconds : seconds_loop 6 0 (encode_timestamp ns ++ rest) 0 ≡ ok (ns / 1000000000)
    seconds = seconds_loop_lem (ns / 1000000000) (put_u32 (ns % 1000000000) ++ rest) (omega arith)

    nanos : read_int big 4 (encode_timestamp ns ++ rest) 6 ≡ ok (ns % 1000000000)
    nanos =
        read_int_inside big 4 (encode_timestamp ns ++ rest) 6 (omega arith)
        ∙ ap ok (wire_value-write_int big 4 (ns % 1000000000) (omega arith))

seconds_loop-IsDefined :
    (n i : ℕ) (p : List ℕ) (acc : ℕ) → i + n ≤ length p → IsDefined (seconds_loop n i p acc)
unfolding seconds_loop
seconds_loop-IsDefined zero i p acc h = tt
seconds_loop-IsDefined (suc n) i p acc h =
    >>=-IsDefined _ _ (byte_at-IsDefined p i (omega arith))
      λ b. seconds_loop-IsDefined n (i + 1) p (bit_or (u64 (acc * 256)) b) (omega arith)

-- The parser reads inside its span, whatever the span holds.
pub parse_timestamp-IsDefined : (p : List ℕ) → IsDefined (parse_timestamp p)
unfolding parse_timestamp
parse_timestamp-IsDefined p = elim (Bool-cases (ltb (length p) timestamp_size)) [
  | inl short ↦ rw short tt
  | inr long ↦ rw long (body (ground arith))
]
  where
    body :
        timestamp_size ≤ length p
        → IsDefined (
            seconds_loop 6 0 p 0 >>= λ seconds.
            get_u32 p 6 >>= λ nanos. ok (some (u64 (u64 (seconds * 1000000000) + nanos))))
    body h =
        >>=-IsDefined _ _ (seconds_loop-IsDefined 6 0 p 0 (omega arith))
          λ _. >>=-IsDefined _ _ (read_int-IsDefined big 4 p 6 (omega arith)) λ _. tt

pub parse_body_timestamp-IsDefined : (p : List ℕ) → IsDefined (parse_body_timestamp p)
unfolding parse_body_timestamp
parse_body_timestamp-IsDefined p = elim (Bool-cases (ltb (length p) 44)) [
  | inl short ↦ rw short tt
  | inr long ↦
      rw (long, le→leb 44 (length p) (ground arith))
        (parse_timestamp-IsDefined (take 10 (drop 34 p)))
]
