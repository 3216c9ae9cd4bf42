-- ===== src/Playback/Volume/Controller.antt =====
-- src/playback/volume_controller.cpp: the volume handlers and the paced stepper. The budget is an int
-- that the code never takes below 0. The presses of a volume button and the levels set on the output
-- are kept, newest first.
use squeeze2raop.Base.{
  ℕ, ◌+◌, ◌-◌, ◌==◌, ltb, leb, sub64, if◌then◌else◌, Bool, true, false, not, ◌&&◌, ◌||◌, List, [],
  ◌∷◌,
}
use squeeze2raop.App.Config.{VolumeMode, fixed, lms}
use squeeze2raop.Playback.Volume.Map.{
  Double, Direction, downwards, upwards, unset, VolumeNudge, up, down, reached, overshoot,
  exhausted, Anchor, nought, hundred, clamp, airplay_pct_from_lms, lms_pct_from_db,
  db_from_airplay_pct, decide_volume_nudge,
}

abbrev pub max_steps : ℕ
max_steps = 60

abbrev pub step_ms : ℕ
step_ms = 250

abbrev pub max_stall : ℕ
max_stall = 6

pub record Press : Type 0 where
  pub is_up : Bool
  pub at_ms : ℕ

-- What the constructor is given.
pub record Policy (C : Type 0) : Type 0 where
  pub anchors : List (Anchor C)
  pub mode : VolumeMode
  pub fixed_volume_pct : C
  pub feedback : Bool

pub record VolumeController (C : Type 0) : Type 0 where
  pub last_lms_pct : C
  pub lms_slider_pct : C
  pub pending : Bool
  pub target : C
  pub dir : Direction
  pub budget : ℕ
  pub last_step_ms : ℕ
  pub last_lms : C
  pub stall : ℕ
  pub presses : List Press
  pub volumes : List C

unfoldable pub is_lms : VolumeMode → Bool
is_lms lms = true
is_lms fixed = false

module _ (D : Double) where
  unfoldable pub initial : VolumeController D.Carrier
  initial = record {
    last_lms_pct = nought D;
    lms_slider_pct = nought D;
    pending = false;
    target = nought D;
    dir = unset;
    budget = 0;
    last_step_ms = 0;
    last_lms = nought D;
    stall = 0;
    presses = [];
    volumes = [];
  }

  unfoldable pub on_lms_volume :
      Policy D.Carrier
      → D.Carrier
      → D.Carrier
      → VolumeController D.Carrier
      → VolumeController D.Carrier
  on_lms_volume p l r s =
      let slider = if D.same l r then r else D.divide (D.plus l r) (D.decimal false 200) in
      let s1 = record s { lms_slider_pct = slider } in
      if not (is_lms p.mode)
      then s1
      else let pct = airplay_pct_from_lms D p.anchors slider in
        record s1 {
          last_lms_pct = if D.lt (nought D) pct then pct else s1.last_lms_pct;
          volumes = pct ∷ s1.volumes;
        }

  -- The setting of a new target.
  unfoldable pub chase : D.Carrier → VolumeController D.Carrier → VolumeController D.Carrier
  chase target s =
      if D.lt (D.abs (D.subtract target s.lms_slider_pct)) (D.decimal false 100)
      then record s { pending = false }
      else record s {
        target = target;
        dir = unset;
        budget = max_steps;
        stall = 0;
        last_step_ms = 0;
        pending = true;
      }

  -- Our own volume, sent back by the receiver.
  unfoldable pub is_echo : D.Carrier → D.Carrier → Bool
  is_echo pct echo =
      D.lt (nought D) echo && D.le (D.abs (D.subtract pct echo)) (D.decimal false 200)

  unfoldable pub on_receiver_volume :
      Policy D.Carrier → D.Carrier → VolumeController D.Carrier → VolumeController D.Carrier
  on_receiver_volume p unit s =
      if not p.feedback || not (is_lms p.mode)
      then s
      else let pct = D.times (clamp D unit (nought D) (D.decimal false 100)) (hundred D) in
        if is_echo pct s.last_lms_pct
        then s
        else chase
            (if D.le pct (nought D)
              then nought D
              else lms_pct_from_db D p.anchors (db_from_airplay_pct D pct))
            s

  unfoldable pub launch : Policy D.Carrier → VolumeController D.Carrier → VolumeController D.Carrier
  launch p s =
      let pct =
        if is_lms p.mode && D.lt (nought D) s.last_lms_pct
        then s.last_lms_pct
        else p.fixed_volume_pct in
      record s { volumes = pct ∷ s.volumes }

  unfoldable pub too_soon : ℕ → VolumeController D.Carrier → Bool
  too_soon now s = not (s.last_step_ms == 0) && ltb (sub64 now s.last_step_ms) step_ms

  -- One press of a volume button.
  unfoldable pub press : Bool → ℕ → VolumeController D.Carrier → VolumeController D.Carrier
  press is_up now s = record s {
    budget = s.budget - 1;
    dir = if is_up then upwards else downwards;
    last_step_ms = now;
    last_lms = s.lms_slider_pct;
    presses = record { is_up = is_up; at_ms = now } ∷ s.presses;
  }

  unfoldable pub is_stalling : VolumeController D.Carrier → Bool
  is_stalling s =
      not (s.last_step_ms == 0)
      && D.lt (D.abs (D.subtract s.lms_slider_pct s.last_lms)) (D.decimal false 50)

  unfoldable pub press_unless_stalled :
      Bool → ℕ → VolumeController D.Carrier → VolumeController D.Carrier
  press_unless_stalled is_up now s =
      if is_stalling s
      then if leb max_stall (s.stall + 1)
        then record s { stall = s.stall + 1; pending = false }
        else press is_up now (record s { stall = s.stall + 1 })
      else press is_up now (record s { stall = 0 })

  unfoldable pub apply_nudge :
      VolumeNudge → ℕ → VolumeController D.Carrier → VolumeController D.Carrier
  apply_nudge reached now s = record s { pending = false }
  apply_nudge overshoot now s = record s { pending = false }
  apply_nudge exhausted now s = record s { pending = false }
  apply_nudge up now s = press_unless_stalled true now s
  apply_nudge down now s = press_unless_stalled false now s

  -- `pumpLocked`, with the answer of `linkAlive_`.
  unfoldable pub pump_locked : Bool → ℕ → VolumeController D.Carrier → VolumeController D.Carrier
  pump_locked alive now s =
      if not s.pending
      then s
      else if not alive
      then record s { pending = false }
      else if too_soon now s
      then s
      else apply_nudge
          (decide_volume_nudge D s.target s.lms_slider_pct s.dir s.budget (D.decimal false 100)) now
          s

  -- The stepper thread, woken at `now`: it waits on while nothing is pending or the pace is not due.
  unfoldable pub stepper : Bool → ℕ → VolumeController D.Carrier → VolumeController D.Carrier
  stepper alive now s = if not s.pending || too_soon now s then s else pump_locked alive now s

  unfoldable pub stop : VolumeController D.Carrier → VolumeController D.Carrier
  stop s = record s { pending = false }
