-- ===== src/Playback/Runs.antt =====
-- The playback core at concrete inputs, and the theorems about it there.
use squeeze2raop.Base.{◌≡◌, ◌<◌, ◌↔◌, refl, List, [], ◌∷◌, true, false, arith}
use squeeze2raop.Playback.Fade.{fade_gain_16}
use squeeze2raop.Playback.Fade.Envelope.{IsEnvelope, fade_iff}
use squeeze2raop.Playback.Counters.{initial}
use squeeze2raop.Playback.Counters.Account.{Call, received, fed, queued, rate}
use squeeze2raop.Playback.Telemetry
use squeeze2raop.Playback.Telemetry.{warned, recovered, quiet, starved}
use squeeze2raop.Playback.Telemetry.Episodes.{Sample, notices, edges, edge, notices-edges}

half_way : fade_gain_16 2 4 true ≡ 0x8000
unfolding fade_gain_16
half_way = refl

-- A fade of no frames does not end in silence.
no_frames : fade_gain_16 0 0 false ≡ 0x10000
unfolding fade_gain_16
no_frames = refl

fade_iff_example : IsEnvelope 4 ↔ (0 < 4)
fade_iff_example = fade_iff 4

-- Two chunks arrive, one is decoded with 100 bytes left, and a part of it waits in the ring.
abbrev track_calls : List Call
track_calls = received 4000 ∷ rate 48000 ∷ fed 1920 2 100 ∷ queued 960 ∷ received 50 ∷ []

abbrev dropout : List Sample
dropout =
    record { level = 8; at_ms = 5 }
    ∷ record { level = 0; at_ms = 6 }
    ∷ record { level = 0; at_ms = 7 }
    ∷ record { level = 3; at_ms = 10_008 }
    ∷ []

dropout-edges : edges false dropout ≡ quiet ∷ warned ∷ quiet ∷ recovered ∷ []
unfolding edges edge
dropout-edges = refl

notices-edges_example : notices dropout Telemetry.initial ≡ edges false dropout
unfolding starved
notices-edges_example =
    notices-edges dropout Telemetry.initial
      (omega arith, (omega arith, (omega arith, (omega arith, record {}))))
