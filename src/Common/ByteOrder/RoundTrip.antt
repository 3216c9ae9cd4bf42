-- ===== src/Common/ByteOrder/RoundTrip.antt =====
-- What is written in a wire order is read back in it, at any offset of any buffer.
use squeeze2raop.Base.{
  true, ℕ, zero, suc, ◌+◌, ◌*◌, ◌/◌, ◌%◌, ◌^◌, ◌≤◌, ◌<◌, ◌≡◌, refl, ap, ◌∙◌, List, [], ◌∷◌, ◌++◌,
  length, length-append, length-reverse, take, drop, take_self, drop_self, All, IsByte, ok, leb,
  le→leb, arith, IsDefined,
}
use mathlib.Core.Path.{subst₂}
use mathlib.Core.List.{reverse-reverse}
use native.Mathlib.Nat.{pow-suc}
use squeeze2raop.Common.ByteOrder.{
  Endian, big, little, le_bytes, le_value, write_int, wire_value, read_int,
}

pub length-le_bytes : (n v : ℕ) → length (le_bytes n v) ≡ n
unfolding le_bytes
length-le_bytes zero v = refl
length-le_bytes (suc n) v = ap suc (length-le_bytes n (v / 256))

pub length-write_int : (e : Endian) (n v : ℕ) → length (write_int e n v) ≡ n
unfolding write_int
length-write_int big n v = length-reverse (le_bytes n v) ∙ length-le_bytes n v
length-write_int little n v = length-le_bytes n v

le_value-le_bytes : (n v : ℕ) → v < 256 ^ n → le_value (le_bytes n v) ≡ v
unfolding le_value le_bytes
le_value-le_bytes zero v h = omega arith
le_value-le_bytes (suc n) v h =
    omega (arith, le_value-le_bytes n (v / 256) (omega (arith, pow-suc 256 n)))

le_bytes-le_value : (bs : List ℕ) → All IsByte bs → le_bytes (length bs) (le_value bs) ≡ bs
unfolding le_value le_bytes
le_bytes-le_value [] h = refl
le_bytes-le_value (b ∷ bs) h =
    let low : (b + 256 * le_value bs) % 256 ≡ b = omega arith in
    let high : (b + 256 * le_value bs) / 256 ≡ le_value bs = omega arith in
    rw (low, high) (ap (◌∷◌ b) (le_bytes-le_value bs h.1))

-- The value written is the value of the bytes.
pub wire_value-write_int : (e : Endian) (n v : ℕ) → v < 256 ^ n → wire_value e (write_int e n v) ≡ v
unfolding wire_value write_int
wire_value-write_int big n v h = rw reverse-reverse (le_value-le_bytes n v h)
wire_value-write_int little n v h = le_value-le_bytes n v h

take-drop_at :
    (pre mid post : List ℕ) → take (length mid) (drop (length pre) (pre ++ (mid ++ post))) ≡ mid
take-drop_at pre mid post = rw (drop_self pre (mid ++ post)) (take_self mid post)

-- A field of `n` bytes that stands behind `pre` is read back, whatever follows it.
pub read_int-write_int :
    (e : Endian) (n v off : ℕ) (pre post : List ℕ)
    → v < 256 ^ n
    → length pre ≡ off
    → read_int e n (pre ++ (write_int e n v ++ post)) off ≡ ok v
unfolding read_int
read_int-write_int e n v off pre post h at =
    rw (inside, here) (ap ok (wire_value-write_int e n v h))
  where
    inside : leb (off + n) (length (pre ++ (write_int e n v ++ post))) ≡ true
    inside = le→leb _ _ (
        omega (
          arith,
          length-append pre (write_int e n v ++ post),
          length-append (write_int e n v) post,
          length-write_int e n v,
        ))

    here : take n (drop off (pre ++ (write_int e n v ++ post))) ≡ write_int e n v
    here =
        subst₂ (λ m o. take m (drop o (pre ++ (write_int e n v ++ post))) ≡ write_int e n v)
          (length-write_int e n v) at (take-drop_at pre (write_int e n v) post)

-- A read is defined exactly when the field lies inside the buffer.
pub read_int-IsDefined :
    (e : Endian) (n : ℕ) (p : List ℕ) (off : ℕ)
    → off + n ≤ length p
    → IsDefined (read_int e n p off)
unfolding read_int
read_int-IsDefined e n p off h = ground arith

-- The value of a read that lies inside the buffer.
pub read_int_inside :
    (e : Endian) (n : ℕ) (p : List ℕ) (off : ℕ)
    → off + n ≤ length p
    → read_int e n p off ≡ ok (wire_value e (take n (drop off p)))
unfolding read_int
read_int_inside e n p off h = ground arith
