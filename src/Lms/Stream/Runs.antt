-- ===== src/Lms/Stream/Runs.antt =====
-- The stream reader on a concrete station, and the theorems about it there.
use squeeze2raop.Base.{ℕ, ◌≡◌, refl, arith, List, [], ◌∷◌, ◌++◌, replicate}
use squeeze2raop.Lms.Stream.{
  StreamReader, Answer, delivers, timed_out, ended, read_loop, read_result, pull_once, pull_from,
  settle, consume, wanted, is_at_length, meta_bytes, length_byte, audio_bytes, first_byte,
}
use squeeze2raop.Lms.Stream.Chunks.{Follows, read_calls, read_calls-bytewise}
use squeeze2raop.Lms.Stream.Blocks.{Frame, between, sounds, metadata, encode, read_calls-frames}

-- Two frames of three bytes of audio: one with a block of 16 bytes, one with an empty block.
abbrev frames : List Frame
frames =
    record { sound = 1 ∷ 2 ∷ 3 ∷ []; units = 1; block = replicate 16 7 }
    ∷ record { sound = 4 ∷ 5 ∷ 6 ∷ []; units = 0; block = [] }
    ∷ []

-- Two bytes came with the headers.
abbrev station : StreamReader
station = record {
  leftover = 1 ∷ 2 ∷ [];
  incoming = 3 ∷ 1 ∷ (replicate 16 7 ++ (4 ∷ 5 ∷ 6 ∷ 0 ∷ []));
  icy = between 3 [] [];
}

abbrev calls : List (List Answer × ℕ)
calls =
    (delivers 5 ∷ delivers 5 ∷ delivers 9 ∷ delivers 10 ∷ timed_out ∷ [], 100)
    ∷ (delivers 20 ∷ delivers 2 ∷ [], 2)
    ∷ (delivers 9 ∷ delivers 9 ∷ ended ∷ [], 8)
    ∷ []

read_calls-bytewise_example :
    Follows (station.leftover ++ station.incoming) station.icy (read_calls calls station)
read_calls-bytewise_example = read_calls-bytewise calls station

read_calls-frames_example :
    ((read_calls calls station).icy.audio ≡ 1 ∷ 2 ∷ 3 ∷ 4 ∷ 5 ∷ 6 ∷ [])
    × ((read_calls calls station).icy.blocks ≡ replicate 16 7 ∷ [])
unfolding sounds metadata encode read_calls read_loop read_result pull_once pull_from settle consume
    wanted is_at_length meta_bytes length_byte audio_bytes first_byte
read_calls-frames_example =
    read_calls-frames frames 3 calls station (omega arith) ((refl, refl), ((refl, refl), record {}))
      refl refl refl
