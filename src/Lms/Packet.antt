-- ===== src/Lms/Packet.antt =====
-- The PacketWriter and PacketReader of src/lms/slimproto_packets.cpp. A packet under construction
-- is the list of its bytes; a reader is a packet and a cursor.

pub mod Cursor
use squeeze2raop.Base.{
  ℕ, ◌+◌, ◌-◌, List, [], ◌∷◌, ◌++◌, length, take, drop, replicate, ltb, if◌then◌else◌, Option, none,
  some, Bool, true, false, Checked, ok, oob,
}
use squeeze2raop.Common.ByteOrder.{big, write_int, read_int}

-- `PacketWriter::put` for the widths of `u16` and `u32`, and `skip`.
abbrev pub put_u16 : ℕ → List ℕ
put_u16 = write_int big 2

abbrev pub put_u32 : ℕ → List ℕ
put_u32 = write_int big 4

abbrev pub put_zeros : ℕ → List ℕ
put_zeros n = replicate n 0

pub record Reader : Type 0 where
  pub packet : List ℕ
  pub offset : ℕ

abbrev pub remaining : Reader → ℕ
remaining r = length r.packet - r.offset

-- A read of the cursor: the value and the reader behind it, or a read outside the packet.
abbrev pub Read : Type 0 → Type 0
Read A = Reader → Checked (A × Reader)

infixl 5 ◌>>=◌
abbrev pub ◌>>=◌ : {A B : Type 0} → Read A → (A → Read B) → Read B
◌>>=◌ m f r = elim (m r) [ ok (a, r') ↦ f a r' | oob ↦ oob ]

abbrev pub pure : {A : Type 0} → A → Read A
pure a r = ok (a, r)

-- `take<T>()` for a type of `n` bytes: nullopt past the end.
unfoldable pub take_int : ℕ → Read (Option ℕ)
take_int n r =
    if ltb (remaining r) n then ok (none, r) else elim (read_int big n r.packet r.offset) [
      | ok v ↦ ok (some v, record r { offset = r.offset + n })
      | oob ↦ oob
    ]

-- `*r.u8()` and the like: the value of a field that must be there.
unfoldable pub field : ℕ → Read ℕ
field n r = elim (take_int n r) [ ok (some v, r') ↦ ok (v, r') | ok (none, r') ↦ oob | oob ↦ oob ]

unfoldable pub skip : ℕ → Read Bool
skip n r =
    ok (if ltb (remaining r) n then (false, r) else (true, record r { offset = r.offset + n }))

-- `u32At(offset)`, which leaves the cursor.
unfoldable pub u32_at : List ℕ → ℕ → Checked (Option ℕ)
u32_at p off =
    if ltb (length p) (off + 4)
    then ok none
    else elim (read_int big 4 p off) [ ok v ↦ ok (some v) | oob ↦ oob ]

abbrev pub tail : Reader → List ℕ
tail r = drop r.offset r.packet
