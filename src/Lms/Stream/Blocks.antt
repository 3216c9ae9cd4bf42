-- ===== src/Lms/Stream/Blocks.antt =====
-- A station's stream, as the ICY protocol lays it out: audio of the interval's length, a length byte,
-- and the block that it announces, again and again.
use squeeze2raop.Base.{
  ℕ, zero, suc, ◌*◌, ◌≡◌, ◌≢◌, refl, sym, ap, ap₂, ◌∙◌, ◌==◌, if◌then◌else◌, true, false, List, [],
  ◌∷◌, ◌++◌, length, All, arith,
}
use mathlib.Core.List.{append_assoc, append-nil}
use squeeze2raop.Lms.Stream.{
  Icy, StreamReader, Answer, meta_bytes, length_byte, audio_bytes, is_at_length,
}
use squeeze2raop.Lms.Stream.Chunks.{
  feed, feed_all, feed_all-append, audio_bytes-feed_all, meta_bytes-feed_all, read_calls,
  read_calls-bytewise,
}

pub record Frame : Type 0 where
  pub sound : List ℕ
  pub units : ℕ
  pub block : List ℕ

unfoldable pub encode : List Frame → List ℕ
encode [] = []
encode (f ∷ fs) = f.sound ++ (f.units ∷ f.block) ++ encode fs

unfoldable pub sounds : List Frame → List ℕ
sounds [] = []
sounds (f ∷ fs) = f.sound ++ sounds fs

-- The blocks that are not empty.
unfoldable pub metadata : List Frame → List (List ℕ)
metadata [] = []
metadata (f ∷ fs) = if f.units == 0 then metadata fs else f.block ∷ metadata fs

abbrev pub IsFrame : ℕ → Frame → Type 0
IsFrame interval f = (length f.sound ≡ interval) × (length f.block ≡ f.units * 16)

-- Between two frames.
abbrev pub between : ℕ → List ℕ → List (List ℕ) → Icy
between interval audio blocks = record {
  meta_interval = interval;
  meta_countdown = interval;
  meta_bytes_left = 0;
  meta_buf = [];
  blocks = blocks;
  audio = audio;
}

meta_bytes-whole :
    (b : List ℕ) (s : Icy)
    → length b ≡ s.meta_bytes_left
    → s.meta_buf ≡ []
    → meta_bytes b s ≡ between s.meta_interval s.audio (s.blocks ++ (b ∷ []))
unfolding meta_bytes
meta_bytes-whole b s e h = ground (arith, h, e)

feed_all-block :
    (b : List ℕ) (s : Icy)
    → s.meta_bytes_left ≢ 0
    → length b ≡ s.meta_bytes_left
    → s.meta_buf ≡ []
    → feed_all b s ≡ between s.meta_interval s.audio (s.blocks ++ (b ∷ []))
feed_all-block [] s nz e h = elim (nz (sym e)) [ ]
feed_all-block (b ∷ bs) s nz e h =
    sym (meta_bytes-feed_all b bs s nz (omega (arith, e))) ∙ meta_bytes-whole (b ∷ bs) s e h

audio_bytes-between :
    (c : List ℕ) (i : ℕ) (audio : List ℕ) (blocks : List (List ℕ))
    → length c ≡ i
    → audio_bytes c (between i audio blocks)
      ≡ record (between i (audio ++ c) blocks) { meta_countdown = 0 }
unfolding audio_bytes
audio_bytes-between c i audio blocks e = ground (arith, e)

feed-length :
    (n i : ℕ) (audio : List ℕ) (blocks : List (List ℕ))
    → i ≢ 0
    → feed n (record (between i audio blocks) { meta_countdown = 0 })
      ≡ record (between i audio blocks) {
        meta_bytes_left = n * 16;
        meta_countdown = if n * 16 == 0 then i else 0;
      }
unfolding feed is_at_length length_byte
feed-length n i audio blocks nz = ground (arith, nz)

-- What a frame adds to the blocks.
abbrev told : ℕ → List ℕ → List (List ℕ) → List (List ℕ)
told n b blocks = if n == 0 then blocks else blocks ++ (b ∷ [])

feed_all-tail :
    (n i : ℕ) (b audio : List ℕ) (blocks : List (List ℕ))
    → i ≢ 0
    → length b ≡ n * 16
    → feed_all (n ∷ b) (record (between i audio blocks) { meta_countdown = 0 })
      ≡ between i audio (told n b blocks)
unfolding feed_all
feed_all-tail zero i [] audio blocks nz e = feed-length 0 i audio blocks nz
feed_all-tail zero i (x ∷ xs) audio blocks nz e = elim (no e) [ ]
  where
    no : suc (length xs) ≢ 0
    no = omega arith
feed_all-tail (suc n) i b audio blocks nz e =
    let t = record (between i audio blocks) {
      meta_bytes_left = suc n * 16;
      meta_countdown = if suc n * 16 == 0 then i else 0;
    } in
    let some_block : told (suc n) b blocks ≡ blocks ++ (b ∷ []) = ground arith in
    ap (feed_all b) (feed-length (suc n) i audio blocks nz)
    ∙ feed_all-block b t (omega arith) e refl
    ∙ ap (between i audio) (sym some_block)

feed_all-frame :
    (f : Frame) (i : ℕ) (audio : List ℕ) (blocks : List (List ℕ))
    → i ≢ 0
    → IsFrame i f
    → feed_all (f.sound ++ (f.units ∷ f.block)) (between i audio blocks)
      ≡ between i (audio ++ f.sound) (told f.units f.block blocks)
feed_all-frame f i audio blocks nz h =
    feed_all-append f.sound (f.units ∷ f.block) (between i audio blocks)
    ∙ ap (feed_all (f.units ∷ f.block)) (
        sym (audio_bytes-feed_all f.sound (between i audio blocks) refl (omega (arith, h.0)))
        ∙ audio_bytes-between f.sound i audio blocks h.0)
    ∙ feed_all-tail f.units i f.block (audio ++ f.sound) blocks nz h.1

told-metadata :
    (f : Frame) (fs : List Frame) (blocks : List (List ℕ))
    → told f.units f.block blocks ++ metadata fs ≡ blocks ++ metadata (f ∷ fs)
unfolding metadata
told-metadata f fs blocks =
    elim (f.units == 0)
      as (λ z.
        (if z then blocks else blocks ++ (f.block ∷ [])) ++ metadata fs
        ≡ blocks ++ (if z then metadata fs else f.block ∷ metadata fs)) [
          | true ↦ refl
          | false ↦ append_assoc blocks (f.block ∷ []) (metadata fs)
        ]

feed_all-encode :
    (fs : List Frame) (i : ℕ) (audio : List ℕ) (blocks : List (List ℕ))
    → i ≢ 0
    → All (IsFrame i) fs
    → feed_all (encode fs) (between i audio blocks)
      ≡ between i (audio ++ sounds fs) (blocks ++ metadata fs)
unfolding encode sounds metadata feed_all
feed_all-encode [] i audio blocks nz h =
    ap₂ (between i) (sym (append-nil audio)) (sym (append-nil blocks))
feed_all-encode (f ∷ fs) i audio blocks nz h =
    let s = between i audio blocks in
    let bytes = f.sound ++ (f.units ∷ f.block) in
    feed_all-append bytes (encode fs) s
    ∙ ap (feed_all (encode fs)) (feed_all-frame f i audio blocks nz h.0)
    ∙ feed_all-encode fs i (audio ++ f.sound) (told f.units f.block blocks) nz h.1
    ∙ ap₂ (between i) (append_assoc audio f.sound (sounds fs)) (told-metadata f fs blocks)

-- A stream that a station has interleaved with an interval that is not 0, into frames of the interval's
-- audio, a length byte and the block that it announces, is taken apart again: whatever the calls of
-- `read` and the answers of the transport, once no byte is left to come, the audio given out is the
-- audio of the frames, and the callback has had their blocks, the empty ones apart, each whole and in
-- order.
pub read_calls-frames :
    (fs : List Frame) (i : ℕ) (calls : List (List Answer × ℕ)) (r : StreamReader)
    → i ≢ 0
    → All (IsFrame i) fs
    → r.icy ≡ between i [] []
    → r.leftover ++ r.incoming ≡ encode fs
    → (read_calls calls r).leftover ++ (read_calls calls r).incoming ≡ []
    → ((read_calls calls r).icy.audio ≡ sounds fs) × ((read_calls calls r).icy.blocks ≡ metadata fs)
read_calls-frames fs i calls r nz h start stream over =
    let f = read_calls-bytewise calls r in
    let all : f.taken ≡ encode fs =
      sym (append-nil f.taken) ∙ ap (λ l. f.taken ++ l) (sym over) ∙ f.cut ∙ stream in
    let done : (read_calls calls r).icy ≡ between i (sounds fs) (metadata fs) =
      f.fed ∙ ap₂ feed_all all start ∙ feed_all-encode fs i [] [] nz h in
    (ap (λ s. s.audio) done, ap (λ s. s.blocks) done)
