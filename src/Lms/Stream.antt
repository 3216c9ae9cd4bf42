-- ===== src/Lms/Stream.antt =====
-- `HttpStreamReader::read` and `pullRaw` of src/lms/lms_stream.cpp: the audio of a station with the
-- metadata blocks taken out of it. The bytes that the transport will deliver are a list; each pull has
-- the answer of the transport.
pub mod Chunks
pub mod Blocks
mod Runs
use squeeze2raop.Base.{
  ℕ, ◌+◌, ◌-◌, ◌*◌, min, ◌==◌, ltb, if◌then◌else◌, not, ◌&&◌, Bool, List, [], ◌∷◌, ◌++◌, length,
  take, drop,
}

abbrev pub meta_chunk_bytes : ℕ
meta_chunk_bytes = 4096

-- The answer of `transport->read`.
pub data Answer : Type 0 where
  delivers : ℕ → Answer
  timed_out : Answer
  ended : Answer
  failed : Answer

pub data ReadResult : Type 0 where
  data_read timeout closed at_eof : ReadResult

-- The state of the in-band metadata, the blocks handed to `metaCb_` and the audio given out so far.
pub record Icy : Type 0 where
  pub meta_interval : ℕ
  pub meta_countdown : ℕ
  pub meta_bytes_left : ℕ
  pub meta_buf : List ℕ
  pub blocks : List (List ℕ)
  pub audio : List ℕ

pub record StreamReader : Type 0 where
  pub leftover : List ℕ
  pub incoming : List ℕ
  pub icy : Icy

-- What `pullRaw` returns: bytes, or 0, -1 and -2.
pub data Pulled : Type 0 where
  bytes : List ℕ → Pulled
  nothing : Pulled
  broken : Pulled
  orderly : Pulled

-- `pullRaw`: what was read behind the headers comes first.
unfoldable pub pull_from : List ℕ → Answer → ℕ → StreamReader → Pulled × StreamReader
pull_from (b ∷ bs) a want r =
    (bytes (take want (b ∷ bs)), record r { leftover = drop want (b ∷ bs) })
pull_from [] (delivers n) want r =
    (bytes (take (min want n) r.incoming), record r { incoming = drop (min want n) r.incoming })
pull_from [] timed_out want r = (nothing, r)
pull_from [] ended want r = (orderly, r)
pull_from [] failed want r = (broken, r)

abbrev pub pull_raw : Answer → ℕ → StreamReader → Pulled × StreamReader
pull_raw a want r = pull_from r.leftover a want r

-- The bytes of a metadata block.
unfoldable pub meta_bytes : List ℕ → Icy → Icy
meta_bytes c s =
    let left = s.meta_bytes_left - length c in
    if left == 0
    then record s {
      meta_bytes_left = left;
      meta_buf = [];
      blocks = s.blocks ++ ((s.meta_buf ++ c) ∷ []);
      meta_countdown = s.meta_interval;
    }
    else record s { meta_bytes_left = left; meta_buf = s.meta_buf ++ c }

-- The length of a block, in units of 16 bytes.
unfoldable pub length_byte : ℕ → Icy → Icy
length_byte b s = record s {
  meta_bytes_left = b * 16;
  meta_buf = [];
  meta_countdown = if b * 16 == 0 then s.meta_interval else s.meta_countdown;
}

unfoldable pub audio_bytes : List ℕ → Icy → Icy
audio_bytes c s = record s {
  audio = s.audio ++ c;
  meta_countdown = if s.meta_countdown == 0 then 0 else s.meta_countdown - length c;
}

unfoldable pub is_at_length : Icy → Bool
is_at_length s = not (s.meta_interval == 0) && (s.meta_countdown == 0)

-- How much one pull asks for, with `room` left in the caller's buffer.
unfoldable pub wanted : ℕ → Icy → ℕ
wanted room s =
    if not (s.meta_bytes_left == 0)
    then min s.meta_bytes_left meta_chunk_bytes
    else if is_at_length s
    then 1
    else if s.meta_countdown == 0
    then room
    else min room s.meta_countdown

unfoldable pub first_byte : List ℕ → ℕ
first_byte [] = 0
first_byte (b ∷ bs) = b

-- What the bytes of one pull do.
unfoldable pub consume : List ℕ → Icy → Icy
consume c s =
    if not (s.meta_bytes_left == 0)
    then meta_bytes c s
    else if is_at_length s
    then length_byte (first_byte c) s
    else audio_bytes c s

pub data Reading : Type 0 where
  reading : StreamReader → Reading
  broke : ReadResult → StreamReader → Reading

-- What follows a pull in the loop of `read`.
unfoldable pub settle : Pulled → StreamReader → Reading
settle (bytes c) r =
    if length c == 0 then broke timeout r else reading (record r { icy = consume c r.icy })
settle nothing r = broke timeout r
settle orderly r = broke at_eof r
settle broken r = broke closed r

-- One pass of the loop.
unfoldable pub pull_once : Answer → ℕ → StreamReader → Reading
pull_once a room r = let (p, r') = pull_raw a (wanted room r.icy) r in settle p r'

-- The bytes that this call has put in the buffer, when it began with `before` bytes given out.
abbrev pub produced : ℕ → StreamReader → ℕ
produced before r = length r.icy.audio - before

unfoldable pub read_result : ℕ → ReadResult → StreamReader → ReadResult
read_result before outcome r = if produced before r == 0 then outcome else data_read

-- `read` into a buffer of `size` bytes. Out of answers, it is still in its loop.
unfoldable pub read_loop : List Answer → ℕ → ℕ → StreamReader → Reading
read_loop [] size before r = reading r
read_loop (a ∷ answers) size before r =
    if ltb (produced before r) size
    then elim (pull_once a (size - produced before r) r) [
      | reading r' ↦ read_loop answers size before r'
      | broke outcome r' ↦ broke (read_result before outcome r') r'
    ]
    else broke (read_result before timeout r) r

-- A call of `read`.
abbrev pub read : List Answer → ℕ → StreamReader → Reading
read answers size r = read_loop answers size (length r.icy.audio) r
