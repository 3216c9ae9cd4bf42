-- ===== src/Lms/Packet/Cursor.antt =====
-- What a read of the cursor gives, and the rules by which a chain of reads is defined.
use squeeze2raop.Base.{
  get_elem?, ℕ, zero, suc, ◌+◌, ◌-◌, ◌^◌, ◌≤◌, ◌<◌, ◌≡◌, ap, ◌∙◌, List, [], ◌∷◌, length, take, drop,
  ltb, ltb-false, some, Bool, true, ok, IsDefined, arith, Bool-cases, inl, inr,
}
use squeeze2raop.Common.ByteOrder.{big, write_int, wire_value}
use squeeze2raop.Common.ByteOrder.RoundTrip.{read_int_inside, wire_value-write_int}
use squeeze2raop.Lms.Packet.{Reader, Read, ◌>>=◌, pure, take_int, field, skip, u32_at}

abbrev pub at : List ℕ → ℕ → Reader
at p off = record { packet = p; offset = off }

-- A read inside the packet takes the field's value and moves the cursor behind it.
pub take_int_inside :
    (n : ℕ) (p : List ℕ) (off : ℕ)
    → off + n ≤ length p
    → take_int n (at p off) ≡ ok (some (wire_value big (take n (drop off p))), at p (off + n))
unfolding take_int
take_int_inside n p off h =
    rw (ltb-false (length p - off) n (omega arith), read_int_inside big n p off h)

pub field_inside :
    (n : ℕ) (p : List ℕ) (off : ℕ)
    → off + n ≤ length p
    → field n (at p off) ≡ ok (wire_value big (take n (drop off p)), at p (off + n))
unfolding field
field_inside n p off h = rw (take_int_inside n p off h, field)

-- The same inside a chain.
pub field_bind :
    {A : Type 0} (n : ℕ) (f : ℕ → Read A) (p : List ℕ) (off : ℕ)
    → off + n ≤ length p
    → (field n >>= f) (at p off) ≡ f (wire_value big (take n (drop off p))) (at p (off + n))
field_bind n f p off h = rw (field_inside n p off h, ◌>>=◌)

pub skip_bind :
    {A : Type 0} (n : ℕ) (f : Bool → Read A) (p : List ℕ) (off : ℕ)
    → off + n ≤ length p
    → (skip n >>= f) (at p off) ≡ f true (at p (off + n))
unfolding skip
skip_bind n f p off h = rw (ltb-false (length p - off) n (omega arith))

-- A read past the end gives nullopt and leaves the cursor; no read of the cursor is undefined.
pub take_int-IsDefined :
    (n : ℕ) (p : List ℕ) (off : ℕ) → off ≤ length p → IsDefined (take_int n (at p off))
unfolding take_int
take_int-IsDefined n p off h = elim (Bool-cases (ltb (length p - off) n)) [
  | inl short ↦ rw short tt
  | inr long ↦ rw (long, read_int_inside big n p off (ground arith)) tt
]

pub u32_at-IsDefined : (p : List ℕ) (off : ℕ) → IsDefined (u32_at p off)
unfolding u32_at
u32_at-IsDefined p off = elim (Bool-cases (ltb (length p) (off + 4))) [
  | inl short ↦ rw short tt
  | inr long ↦ rw (long, read_int_inside big 4 p off (ground arith)) tt
]

-- With `k` bytes left the read is defined.
abbrev pub Safe : {A : Type 0} → ℕ → Read A → Type 0
Safe k m = (p : List ℕ) (off : ℕ) → off + k ≤ length p → IsDefined (m (at p off))

pub pure-Safe : {A : Type 0} (k : ℕ) (a : A) → Safe k (pure a)
pure-Safe k a p off h = tt

-- A field of `n` bytes leaves `k` of `n + k`.
pub field-Safe :
    {A : Type 0} (n k : ℕ) (f : ℕ → Read A)
    → ((v : ℕ) → Safe k (f v))
    → Safe (n + k) (field n >>= f)
field-Safe n k f rest p off h =
    rw (field_bind n f p off (omega arith)) (rest _ p (off + n) (omega arith))

pub skip-Safe :
    {A : Type 0} (n k : ℕ) (f : Bool → Read A)
    → ((b : Bool) → Safe k (f b))
    → Safe (n + k) (skip n >>= f)
skip-Safe n k f rest p off h =
    rw (skip_bind n f p off (omega arith)) (rest true p (off + n) (omega arith))

one_byte :
    (p : List ℕ) (off b : ℕ) → get_elem? p off ≡ some b → wire_value big (take 1 (drop off p)) ≡ b
unfolding wire_value
one_byte [] off b e = cc
one_byte (x ∷ p) zero b e = ground arith
one_byte (x ∷ p) (suc off) b e = one_byte p off b e

get_elem?-lt : (p : List ℕ) (off b : ℕ) → get_elem? p off ≡ some b → off < length p
get_elem?-lt [] off b e = cc
get_elem?-lt (x ∷ p) zero b e = omega arith
get_elem?-lt (x ∷ p) (suc off) b e = omega (arith, get_elem?-lt p off b e)

-- The byte at the cursor.
pub field_byte :
    (p : List ℕ) (off b : ℕ)
    → get_elem? p off ≡ some b
    → field 1 (at p off) ≡ ok (b, at p (off + 1))
field_byte p off b e =
    field_inside 1 p off (omega (arith, get_elem?-lt p off b e))
    ∙ ap (λ v. ok (v, at p (off + 1))) (one_byte p off b e)

-- The integer that was written at the cursor.
pub field_int :
    (n : ℕ) (p : List ℕ) (off v : ℕ)
    → off + n ≤ length p
    → v < 256 ^ n
    → take n (drop off p) ≡ write_int big n v
    → field n (at p off) ≡ ok (v, at p (off + n))
field_int n p off v h fits e =
    field_inside n p off h
    ∙ ap (λ w. ok (w, at p (off + n))) (ap (wire_value big) e ∙ wire_value-write_int big n v fits)
