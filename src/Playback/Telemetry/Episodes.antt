-- ===== src/Playback/Telemetry/Episodes.antt =====
-- What the health sampler of the ring says over a run of samples.
use squeeze2raop.Base.{
  ℕ, ◌<◌, ◌≡◌, refl, ap, ap₂, ◌∙◌, ◌==◌, true, false, Bool, List, [], ◌∷◌, All, arith,
}
use squeeze2raop.Playback.Telemetry.{
  Telemetry, Notice, quiet, warned, recovered, starved, widen, summarise, latch, observe,
}

-- The samples of a run: how much is queued, and when.
pub record Sample : Type 0 where
  pub level : ℕ
  pub at_ms : ℕ

unfoldable pub notices : List Sample → Telemetry → List Notice
notices [] t = []
notices (s ∷ ss) t = let (t', _, n) = observe s.level s.at_ms t in n ∷ notices ss t'

-- The edges of emptiness, which know neither a clock nor a window.
unfoldable pub edge : Bool → Bool → Notice
edge false true = warned
edge true false = recovered
edge true true = quiet
edge false false = quiet

unfoldable pub edges : Bool → List Sample → List Notice
edges was [] = []
edges was (s ∷ ss) = edge was (s.level == 0) ∷ edges (s.level == 0) ss

latch-edge :
    (q n : ℕ) (t : Telemetry)
    → 0 < n
    → (starved (latch q n t).0 ≡ (q == 0)) × ((latch q n t).1 ≡ edge (starved t) (q == 0))
unfolding latch starved edge
latch-edge q n t pos = (ground arith, ground arith)

summarise-starved : (n : ℕ) (t : Telemetry) → starved (summarise n t).0 ≡ starved t
unfolding summarise starved
summarise-starved n t = ground arith

widen-starved : (q : ℕ) (t : Telemetry) → starved (widen q t) ≡ starved t
unfolding widen starved
widen-starved q t = refl

observe-edge :
    (q n : ℕ) (t : Telemetry)
    → 0 < n
    → (starved (observe q n t).0 ≡ (q == 0)) × ((observe q n t).2 ≡ edge (starved t) (q == 0))
unfolding observe
observe-edge q n t pos =
    let e = latch-edge q n (summarise n (widen q t)).0 pos in
    (e.0, e.1 ∙ ap (λ b. edge b (q == 0)) (summarise-starved n (widen q t) ∙ widen-starved q t))

-- Over any run of samples that carry a time, the log is told of each starvation once when the ring
-- runs empty and once when it fills again, and of nothing else, whatever the clock and the windows.
pub notices-edges :
    (ss : List Sample) (t : Telemetry)
    → All (λ s. 0 < s.at_ms) ss
    → notices ss t ≡ edges (starved t) ss
unfolding notices edges
notices-edges [] t h = refl
notices-edges (s ∷ ss) t h =
    let e = observe-edge s.level s.at_ms t h.0 in
    ap₂ (◌∷◌) e.1 (notices-edges ss (observe s.level s.at_ms t).0 h.1 ∙ ap (λ b. edges b ss) e.0)
