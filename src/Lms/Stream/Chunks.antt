-- ===== src/Lms/Stream/Chunks.antt =====
-- The de-interleaver does not depend on how the stream is cut: what it gives out is what a machine
-- gives out that takes one byte at a time.
use squeeze2raop.Base.{
  ℕ, zero, suc, ◌-◌, ◌≤◌, ◌≡◌, ◌≢◌, refl, sym, ap, ◌∙◌, min, ◌==◌, ltb, if◌then◌else◌, not, Bool,
  true, false, List, [], ◌∷◌, ◌++◌, length, take, drop, arith, Bool-cases, ◌⊎◌, inl, inr,
  take-append-drop, length-take,
}
use mathlib.Core.List.{append_assoc, append-nil}
use mathlib.Core.Path.{subst}
use squeeze2raop.Lms.Stream.{
  Icy, StreamReader, Answer, delivers, timed_out, ended, failed, Pulled, bytes, nothing, broken,
  orderly, Reading, reading, broke, meta_bytes, length_byte, audio_bytes, is_at_length, wanted,
  consume, first_byte, settle, pull_from, pull_once, read_loop, read_result, read, produced,
  timeout,
}

-- One byte: of a metadata block, the length of a block, or audio.
unfoldable pub feed : ℕ → Icy → Icy
feed b s =
    if not (s.meta_bytes_left == 0)
    then if s.meta_bytes_left == 1
      then record s {
        meta_bytes_left = 0;
        meta_buf = [];
        blocks = s.blocks ++ ((s.meta_buf ++ (b ∷ [])) ∷ []);
        meta_countdown = s.meta_interval;
      }
      else record s { meta_bytes_left = s.meta_bytes_left - 1; meta_buf = s.meta_buf ++ (b ∷ []) }
    else if is_at_length s
    then length_byte b s
    else record s { audio = s.audio ++ (b ∷ []); meta_countdown = s.meta_countdown - 1 }

unfoldable pub feed_all : List ℕ → Icy → Icy
feed_all [] s = s
feed_all (b ∷ bs) s = feed_all bs (feed b s)

pub feed_all-append :
    (bs cs : List ℕ) (s : Icy) → feed_all (bs ++ cs) s ≡ feed_all cs (feed_all bs s)
unfolding feed_all
feed_all-append [] cs s = refl
feed_all-append (b ∷ bs) cs s = feed_all-append bs cs (feed b s)

-- Inside a block.
pub meta_bytes-feed_all :
    (b : ℕ) (bs : List ℕ) (s : Icy)
    → s.meta_bytes_left ≢ 0
    → suc (length bs) ≤ s.meta_bytes_left
    → meta_bytes (b ∷ bs) s ≡ feed_all (b ∷ bs) s
unfolding meta_bytes feed_all feed
meta_bytes-feed_all b [] s nz le = ground arith
meta_bytes-feed_all b (c ∷ cs) s nz le =
    let t = record s {
      meta_bytes_left = s.meta_bytes_left - 1;
      meta_buf = s.meta_buf ++ (b ∷ []);
    } in
    let first : feed b s ≡ t = ground arith in
    let split : meta_bytes (b ∷ c ∷ cs) s ≡ meta_bytes (c ∷ cs) t =
      ground (arith, append_assoc s.meta_buf (b ∷ []) (c ∷ cs)) in
    split
    ∙ meta_bytes-feed_all c cs t (omega (arith, le)) (omega (arith, le))
    ∙ ap (feed_all (c ∷ cs)) (sym first)

-- Audio up to the next block, and audio without blocks.
pub audio_bytes-feed_all :
    (bs : List ℕ) (s : Icy)
    → s.meta_bytes_left ≡ 0
    → length bs ≤ s.meta_countdown
    → audio_bytes bs s ≡ feed_all bs s
unfolding audio_bytes feed_all feed is_at_length
audio_bytes-feed_all [] s z le = ground (arith, append-nil s.audio)
audio_bytes-feed_all (b ∷ bs) s z le =
    let t = record s { audio = s.audio ++ (b ∷ []); meta_countdown = s.meta_countdown - 1 } in
    let first : feed b s ≡ t = ground (arith, z, le) in
    let split : audio_bytes (b ∷ bs) s ≡ audio_bytes bs t =
      ground (arith, append_assoc s.audio (b ∷ []) bs, le) in
    split ∙ audio_bytes-feed_all bs t z (omega (arith, le)) ∙ ap (feed_all bs) (sym first)

audio_bytes-plain :
    (bs : List ℕ) (s : Icy)
    → s.meta_bytes_left ≡ 0
    → s.meta_countdown ≡ 0
    → s.meta_interval ≡ 0
    → audio_bytes bs s ≡ feed_all bs s
unfolding audio_bytes feed_all feed is_at_length
audio_bytes-plain [] s z c i = ground (arith, append-nil s.audio, c)
audio_bytes-plain (b ∷ bs) s z c i =
    let t = record s { audio = s.audio ++ (b ∷ []); meta_countdown = s.meta_countdown - 1 } in
    let first : feed b s ≡ t = ground (arith, z, c, i) in
    let split : audio_bytes (b ∷ bs) s ≡ audio_bytes bs t =
      ground (arith, append_assoc s.audio (b ∷ []) bs, c) in
    split ∙ audio_bytes-plain bs t z (omega (arith, c)) i ∙ ap (feed_all bs) (sym first)

length_byte-feed :
    (b : ℕ) (s : Icy) → s.meta_bytes_left ≡ 0 → is_at_length s ≡ true → length_byte b s ≡ feed b s
unfolding feed
length_byte-feed b s z h = ground (arith, z, h)

dec_eq_zero : (n : ℕ) → (n ≡ 0) ⊎ (n ≢ 0)
dec_eq_zero zero = inl refl
dec_eq_zero (suc n) = inr (omega arith)

inside :
    (b : ℕ) (bs : List ℕ) (room : ℕ) (s : Icy)
    → s.meta_bytes_left ≢ 0
    → length (b ∷ bs) ≤ wanted room s
    → consume (b ∷ bs) s ≡ feed_all (b ∷ bs) s
unfolding consume wanted
inside b bs room s h le =
    let w : suc (length bs) ≤ s.meta_bytes_left = ground (arith, h, le) in
    let c : consume (b ∷ bs) s ≡ meta_bytes (b ∷ bs) s = ground (arith, h) in
    c ∙ meta_bytes-feed_all b bs s h w

at_length :
    (b : ℕ) (bs : List ℕ) (room : ℕ) (s : Icy)
    → s.meta_bytes_left ≡ 0
    → is_at_length s ≡ true
    → length (b ∷ bs) ≤ wanted room s
    → consume (b ∷ bs) s ≡ feed_all (b ∷ bs) s
unfolding consume wanted feed_all first_byte
at_length b [] room s z h le =
    let c : consume (b ∷ []) s ≡ length_byte b s = ground (arith, z, h) in
    c ∙ length_byte-feed b s z h
at_length b (c ∷ cs) room s z h le =
    let w : suc (suc (length cs)) ≤ 1 = ground (arith, z, h, le) in
    let no : ⊥ = omega (arith, w) in elim no [ ]

outside :
    (b : ℕ) (bs : List ℕ) (room : ℕ) (s : Icy)
    → s.meta_bytes_left ≡ 0
    → is_at_length s ≡ false
    → length (b ∷ bs) ≤ wanted room s
    → consume (b ∷ bs) s ≡ feed_all (b ∷ bs) s
unfolding consume wanted is_at_length
outside b bs room s z h le =
    let c : consume (b ∷ bs) s ≡ audio_bytes (b ∷ bs) s = ground (arith, z, h) in
    elim (dec_eq_zero s.meta_countdown) [
      | inl e ↦ c ∙ audio_bytes-plain (b ∷ bs) s z e (ground (arith, h, e))
      | inr e ↦ c ∙ audio_bytes-feed_all (b ∷ bs) s z (ground (arith, z, h, e, le))
    ]

-- One pull gives the same as its bytes one by one.
consume-feed_all :
    (c : List ℕ) (room : ℕ) (s : Icy)
    → length c ≢ 0
    → length c ≤ wanted room s
    → consume c s ≡ feed_all c s
consume-feed_all [] room s nz le = elim (nz refl) [ ]
consume-feed_all (b ∷ bs) room s nz le = elim (dec_eq_zero s.meta_bytes_left) [
  | inr h ↦ inside b bs room s h le
  | inl z ↦ elim (Bool-cases (is_at_length s)) [
    | inl h ↦ at_length b bs room s z h le
    | inr h ↦ outside b bs room s z h le
  ]
]

abbrev rest : StreamReader → List ℕ
rest r = r.leftover ++ r.incoming

-- The stream as the reader accounts for it: the bytes taken so far, one by one, and those to come.
pub record Follows (stream : List ℕ) (start : Icy) (r : StreamReader) : Type 0 where
  pub taken : List ℕ
  pub cut : taken ++ (r.leftover ++ r.incoming) ≡ stream
  pub fed : r.icy ≡ feed_all taken start

abbrev pulled_bytes : Pulled → List ℕ
pulled_bytes (bytes c) = c
pulled_bytes nothing = []
pulled_bytes orderly = []
pulled_bytes broken = []

pull_from-rest :
    (l : List ℕ) (a : Answer) (want : ℕ) (r : StreamReader)
    → r.leftover ≡ l
    → let (p, r') = pull_from l a want r in
      (pulled_bytes p ++ rest r' ≡ rest r) × (length (pulled_bytes p) ≤ want) × (r'.icy ≡ r.icy)
unfolding pull_from
pull_from-rest (b ∷ bs) a want r e = (
  sym (append_assoc (take want (b ∷ bs)) (drop want (b ∷ bs)) r.incoming)
      ∙ ap (λ l. l ++ r.incoming) (take-append-drop want (b ∷ bs) ∙ sym e),
  omega (arith, length-take want (b ∷ bs)),
  refl,
)
pull_from-rest [] (delivers n) want r e = (
  ap (λ l. take (min want n) r.incoming ++ (l ++ drop (min want n) r.incoming)) e
      ∙ take-append-drop (min want n) r.incoming
      ∙ ap (λ l. l ++ r.incoming) (sym e),
  omega (arith, length-take (min want n) r.incoming),
  refl,
)
pull_from-rest [] timed_out want r e = (refl, omega arith, refl)
pull_from-rest [] ended want r e = (refl, omega arith, refl)
pull_from-rest [] failed want r e = (refl, omega arith, refl)

-- The reader after a pass or a call, whichever way it ended.
abbrev pub reader_of : Reading → StreamReader
reader_of (reading r) = r
reader_of (broke outcome r) = r

if-reader_of :
    (stream : List ℕ) (start : Icy) (b : Bool) (x y : Reading)
    → (b ≡ true → Follows stream start (reader_of x))
    → (b ≡ false → Follows stream start (reader_of y))
    → Follows stream start (reader_of (if b then x else y))
if-reader_of stream start true x y h k = h refl
if-reader_of stream start false x y h k = k refl

-- Nothing was taken.
same-Follows :
    (stream : List ℕ) (start : Icy) (r r' : StreamReader)
    → rest r' ≡ rest r
    → r'.icy ≡ r.icy
    → Follows stream start r
    → Follows stream start r'
same-Follows stream start r r' h same f = record {
  taken = f.taken;
  cut = ap (λ l. f.taken ++ l) h ∙ f.cut;
  fed = same ∙ f.fed;
}

empty : (c : List ℕ) → length c == 0 ≡ true → c ≡ []
empty [] h = refl
empty (b ∷ bs) h = ground arith

settle-Follows :
    (stream : List ℕ) (start : Icy) (p : Pulled) (room : ℕ) (r r' : StreamReader)
    → pulled_bytes p ++ rest r' ≡ rest r
    → length (pulled_bytes p) ≤ wanted room r'.icy
    → r'.icy ≡ r.icy
    → Follows stream start r
    → Follows stream start (reader_of (settle p r'))
unfolding settle
settle-Follows stream start (bytes c) room r r' h le same f =
    if-reader_of stream start (length c == 0) (broke timeout r')
      (reading (record r' { icy = consume c r'.icy }))
      (λ z. same-Follows stream start r r' (ap (λ l. l ++ rest r') (sym (empty c z)) ∙ h) same f)
      (λ nz. record {
        taken = f.taken ++ c;
        cut = append_assoc f.taken c (rest r') ∙ ap (λ l. f.taken ++ l) h ∙ f.cut;
        fed =
            consume-feed_all c room r'.icy (ground (arith, nz)) le
            ∙ ap (feed_all c) (same ∙ f.fed)
            ∙ sym (feed_all-append f.taken c start);
      })
settle-Follows stream start nothing room r r' h le same f = same-Follows stream start r r' h same f
settle-Follows stream start orderly room r r' h le same f = same-Follows stream start r r' h same f
settle-Follows stream start broken room r r' h le same f = same-Follows stream start r r' h same f

pull_once-Follows :
    (stream : List ℕ) (start : Icy) (a : Answer) (room : ℕ) (r : StreamReader)
    → Follows stream start r
    → Follows stream start (reader_of (pull_once a room r))
unfolding pull_once
pull_once-Follows stream start a room r f =
    let q = pull_from-rest r.leftover a (wanted room r.icy) r refl in
    let (p, r') = pull_from r.leftover a (wanted room r.icy) r in
    settle-Follows stream start p room r r' q.0
      (subst (λ s. length (pulled_bytes p) ≤ wanted room s) (sym q.2) q.1) q.2 f

-- A call of `read`, from any point of its loop.
read_loop-Follows :
    (stream : List ℕ) (start : Icy) (answers : List Answer) (size before : ℕ) (r : StreamReader)
    → Follows stream start r
    → Follows stream start (reader_of (read_loop answers size before r))
unfolding read_loop
read_loop-Follows stream start [] size before r f = f
read_loop-Follows stream start (a ∷ answers) size before r f =
    let g = pull_once-Follows stream start a (size - produced before r) r f in
    if-reader_of stream start (ltb (produced before r) size) _
      (broke (read_result before timeout r) r)
      (λ _.
        elim (pull_once a (size - produced before r) r)
            as (λ q.
              Follows stream start (reader_of q)
              → Follows stream start (
                  reader_of (elim q [
                    | reading r' ↦ read_loop answers size before r'
                    | broke outcome r' ↦ broke (read_result before outcome r') r'
                  ]))) [
                    | reading r' ↦ λ k. read_loop-Follows stream start answers size before r' k
                    | broke outcome r' ↦ λ k. k
                  ]
          g)
      (λ _. f)

-- The calls of `read` on one stream, each with its answers and its buffer.
unfoldable pub read_calls : List (List Answer × ℕ) → StreamReader → StreamReader
read_calls [] r = r
read_calls ((answers, size) ∷ calls) r = read_calls calls (reader_of (read answers size r))

read_calls-Follows :
    (stream : List ℕ) (start : Icy) (calls : List (List Answer × ℕ)) (r : StreamReader)
    → Follows stream start r
    → Follows stream start (read_calls calls r)
unfolding read_calls
read_calls-Follows stream start [] r f = f
read_calls-Follows stream start ((answers, size) ∷ calls) r f =
    read_calls-Follows stream start calls _
      (read_loop-Follows stream start answers size (length r.icy.audio) r f)

-- Whatever the buffers of the calls, the answers of the transport and the bytes left over behind the
-- headers: no byte of the stream is lost, repeated or reordered, and the audio and the metadata blocks
-- given out are those of a machine that takes the same bytes one at a time.
pub read_calls-bytewise :
    (calls : List (List Answer × ℕ)) (r : StreamReader)
    → Follows (r.leftover ++ r.incoming) r.icy (read_calls calls r)
unfolding feed_all
read_calls-bytewise calls r =
    read_calls-Follows (r.leftover ++ r.incoming) r.icy calls r
      (record { taken = []; cut = refl; fed = refl })
