-- ===== src/Common/ByteOrder.antt =====
-- src/common/byte_order.h: fixed-width integers on the wire. The source reverses the object
-- representation where the wire order is not the host's; here the little-endian digits are that
-- representation, and the other order is their reverse.
pub mod RoundTrip
use squeeze2raop.Base.{
  ℕ, zero, suc, ◌+◌, ◌*◌, ◌/◌, ◌%◌, List, [], ◌∷◌, reverse, Bool, same_bytes, length, take, drop,
  leb, ◌+◌, Checked, ok, oob, if◌then◌else◌,
}

pub data Endian : Type 0 where
  big little : Endian

-- The low `n` bytes of `v`, lowest first.
unfoldable pub le_bytes : ℕ → ℕ → List ℕ
le_bytes zero v = []
le_bytes (suc n) v = v % 256 ∷ le_bytes n (v / 256)

unfoldable pub le_value : List ℕ → ℕ
le_value [] = 0
le_value (b ∷ bs) = b + 256 * le_value bs

-- `writeInt<wire, T>` with `sizeof(T)` equal to `n`.
unfoldable pub write_int : Endian → ℕ → ℕ → List ℕ
unfolding le_bytes
write_int big n v = reverse (le_bytes n v)
write_int little n v = le_bytes n v

-- The value of exactly `sizeof(T)` bytes in wire order.
unfoldable pub wire_value : Endian → List ℕ → ℕ
unfolding le_value
wire_value big bs = le_value (reverse bs)
wire_value little bs = le_value bs

-- `readInt<wire, T>(p + off)`, where the caller guarantees the range: any other call is undefined.
unfoldable pub read_int : Endian → ℕ → List ℕ → ℕ → Checked ℕ
unfolding wire_value
read_int e n p off =
    if leb (off + n) (length p) then ok (wire_value e (take n (drop off p))) else oob

-- `fourccIs(p + off, code)` for a code of four characters.
unfoldable pub fourcc_is : List ℕ → ℕ → List ℕ → Checked Bool
fourcc_is p off code =
    if leb (off + 4) (length p) then ok (same_bytes (take 4 (drop off p)) code) else oob
