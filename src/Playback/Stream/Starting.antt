-- ===== src/Playback/Stream/Starting.antt =====
-- The scheduled start: `strm u` with a time of the player's clock, and the gate at any later time.
use squeeze2raop.Base.{
  ℕ, ◌+◌, ◌-◌, ◌^◌, ◌≤◌, ◌<◌, ◌≡◌, refl, arith, true, leb, ◌==◌, ◌||◌, if◌then◌else◌, u32,
}
use squeeze2raop.Playback.Stream.{
  PlaybackStream, gate_deadline_from_jiffies, unpause, gate_open, is_gate_open, forever,
}

-- The deadlines of a time ahead, of one behind, and of 0.
gate_deadline_zero :
    (now : ℕ)
    → now + 2 ^ 32 < forever
    → gate_deadline_from_jiffies 0 now
      ≡ (if leb (u32 now) (2 ^ 31) then 0 else now + (2 ^ 32 - u32 now))
unfolding gate_deadline_from_jiffies
gate_deadline_zero now fits = ground arith

gate_deadline_behind :
    (now d : ℕ) → d ≤ 2 ^ 31 → gate_deadline_from_jiffies (u32 (now + (2 ^ 32 - d))) now ≡ 0
unfolding gate_deadline_from_jiffies
gate_deadline_behind now d near = ground arith

gate_deadline_near :
    (now d : ℕ)
    → d ≤ 2 ^ 31
    → now + 2 ^ 32 < forever
    → gate_deadline_from_jiffies (u32 (now + d)) now
      ≡ (if d == 0 || leb (2 ^ 31) d then 0 else now + d)
unfolding gate_deadline_from_jiffies
gate_deadline_near now d near fits = ground arith

-- A `strm u` whose payload is the player's 32-bit clock `d` milliseconds ahead, for any `d` from 1 up to
-- below 2 ^ 31 and also where that clock wraps on the way, ends a pause and opens the gate at that time
-- and not before. With a payload up to 2 ^ 31 milliseconds in the past, also across the wrap, and with
-- one of just now or 2 ^ 31 ahead, the gate is open at once. A payload of 0, a plain resume, is a time of
-- the clock too: it opens the gate at once while the clock's low 32 bits are at most 2 ^ 31, and else only
-- when they wrap.
pub unpause-gate_open :
    (s : PlaybackStream) (now d t : ℕ)
    → d ≤ 2 ^ 31
    → now + 2 ^ 32 < forever
    → ((unpause (u32 (now + d)) now s).pause_until_ms ≡ 0)
      × ((gate_open t (unpause (u32 (now + d)) now s)).1
          ≡ (if d == 0 || leb (2 ^ 31) d then true else leb (now + d) t))
      × ((gate_open t (unpause (u32 (now + (2 ^ 32 - d))) now s)).1 ≡ true)
      × ((gate_open t (unpause 0 now s)).1
          ≡ (if leb (u32 now) (2 ^ 31) then true else leb (now + (2 ^ 32 - u32 now)) t))
unfolding unpause gate_open is_gate_open
unpause-gate_open s now d t near fits = (
  refl,
  ground (arith, gate_deadline_near now d near fits),
  ground (arith, gate_deadline_behind now d near),
  ground (arith, gate_deadline_zero now fits),
)
