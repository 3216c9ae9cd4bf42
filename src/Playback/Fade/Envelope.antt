-- ===== src/Playback/Fade/Envelope.antt =====
-- The shape of a fade: what the pump multiplies the frames with from its first to its last frame.
use squeeze2raop.Base.{ℕ, ◌+◌, ◌*◌, ◌≤◌, ◌<◌, ◌≡◌, true, false, arith, div_mono, mul-div_le, ◌↔◌}
use native.Mathlib.Nat.{zero-div}
use squeeze2raop.Playback.Fade.{fixed_one, fade_gain_16}

-- What a fade has to satisfy, for its whole duration.
pub record IsEnvelope (dur : ℕ) : Type 0 where
  pub starts : (fade_gain_16 0 dur true ≡ 0) × (fade_gain_16 0 dur false ≡ fixed_one)
  pub ends :
      (p : ℕ) → dur ≤ p → (fade_gain_16 p dur true ≡ fixed_one) × (fade_gain_16 p dur false ≡ 0)
  pub rises : (p q : ℕ) → p ≤ q → fade_gain_16 p dur true ≤ fade_gain_16 q dur true
  pub falls : (p q : ℕ) → p ≤ q → fade_gain_16 q dur false ≤ fade_gain_16 p dur false
  pub mirrors : (p : ℕ) → fade_gain_16 p dur true + fade_gain_16 p dur false ≡ fixed_one

-- A fade of `dur` frames goes from silence to full and back: it starts and ends at its end values,
-- never turns back on the way, and the two directions add up to one. This holds of every duration
-- but 0.
pub fade_iff : (dur : ℕ) → IsEnvelope dur ↔ (0 < dur)
unfolding fade_gain_16
fade_iff dur = (
  λ e. ground (arith, e.ends 0, e.starts),
  λ h. record {
    starts = ground (arith, zero-div dur);
    ends = λ p le. ground arith;
    rises = λ p q le. ground (
      arith,
      div_mono (p * fixed_one) (q * fixed_one) dur h (omega arith),
      mul-div_le p dur fixed_one,
    );
    falls = λ p q le. ground (
      arith,
      div_mono (p * fixed_one) (q * fixed_one) dur h (omega arith),
      mul-div_le p dur fixed_one,
    );
    mirrors = λ p. ground (arith, mul-div_le p dur fixed_one);
  },
)
