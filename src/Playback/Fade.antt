-- ===== src/Playback/Fade.antt =====
-- `fadeGain16` of src/playback/volume_map.h: a linear ramp in 16.16 fixed point.
pub mod Envelope
use squeeze2raop.Base.{ℕ, ◌-◌, ◌*◌, ◌/◌, leb, ◌==◌, if◌then◌else◌, Bool}

abbrev pub fixed_one : ℕ
fixed_one = 0x10000

unfoldable pub fade_gain_16 : ℕ → ℕ → Bool → ℕ
fade_gain_16 pos dur up =
    if dur == 0
    then fixed_one
    else if leb dur pos
    then (if up then fixed_one else 0)
    else let g = pos * fixed_one / dur in if up then g else fixed_one - g
