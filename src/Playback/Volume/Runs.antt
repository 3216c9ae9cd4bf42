-- ===== src/Playback/Volume/Runs.antt =====
-- The volume policy on a fixed-point arithmetic, and the theorems about it there.
use squeeze2raop.Base.{
  ℕ, ◌+◌, ◌-◌, ◌*◌, ◌/◌, ◌≡◌, refl, arith, List, [], ◌∷◌, Bool, true, ltb, leb, ◌==◌, if◌then◌else◌,
  length,
}
use squeeze2raop.App.Config.{lms, fixed}
use squeeze2raop.Playback.Volume.Map.{Double, Anchor, decide_volume_nudge, opposes}
use squeeze2raop.Playback.Volume.Controller.{
  Policy, is_lms, initial, chase, stepper, on_lms_volume, too_soon, pump_locked, apply_nudge,
  press_unless_stalled, is_stalling, press,
}
use squeeze2raop.Playback.Volume.Chase.{
  ChaseEvent, level, tick, perform, perform_all, Presses, chase-Presses,
}
use squeeze2raop.Playback.Volume.FixedMode.{remote, other, handle_all, ignores, handle_all-silent}

-- Hundredths, as a difference of two numbers.
record Hundredths : Type 0 where
  plus : ℕ
  minus : ℕ

abbrev below : Hundredths → Hundredths → Bool
below a b = ltb (a.plus + b.minus) (b.plus + a.minus)

abbrev hundredths : Double
hundredths = record {
  Carrier = Hundredths;
  decimal = λ negative n.
      if negative then record { plus = 0; minus = n } else record { plus = n; minus = 0 };
  plus = λ a b. record { plus = a.plus + b.plus; minus = a.minus + b.minus };
  subtract = λ a b. record { plus = a.plus + b.minus; minus = a.minus + b.plus };
  times = λ a b. record {
    plus = (a.plus * b.plus + a.minus * b.minus) / 100;
    minus = (a.plus * b.minus + a.minus * b.plus) / 100;
  };
  divide = λ a b. record {
    plus = (a.plus - a.minus) * 100 / (b.plus - b.minus);
    minus = (a.minus - a.plus) * 100 / (b.plus - b.minus);
  };
  abs = λ a. if ltb a.plus a.minus then record { plus = a.minus; minus = a.plus } else a;
  lt = below;
  le = λ a b. leb (a.plus + b.minus) (b.plus + a.minus);
  same = λ a b. (a.plus + b.minus) == (b.plus + a.minus);
}

abbrev whole : ℕ → Hundredths
whole n = record { plus = n * 100; minus = 0 }

-- The default map: -30:1, -23:16, -15:50, 0:100.
abbrev anchors : List (Anchor Hundredths)
anchors =
    record { pct = whole 1; db = record { plus = 0; minus = 3000 } }
    ∷ record { pct = whole 16; db = record { plus = 0; minus = 2300 } }
    ∷ record { pct = whole 50; db = record { plus = 0; minus = 1500 } }
    ∷ record { pct = whole 100; db = record { plus = 0; minus = 0 } }
    ∷ []

abbrev policy : Policy Hundredths
policy = record { anchors = anchors; mode = lms; fixed_volume_pct = whole 50; feedback = true }

abbrev wander : List (ChaseEvent Hundredths)
wander =
    tick true 1000
    ∷ tick true 1100
    ∷ level (whole 3) (whole 3)
    ∷ tick true 1260
    ∷ level (whole 5) (whole 5)
    ∷ tick true 1600
    ∷ []

-- Towards 6, with the slider at 0: no press while it is too soon, and none once the slider is at 5.
wander_presses :
    length
      (perform_all hundredths policy wander
        (chase hundredths (whole 6) (initial hundredths))).presses
    ≡ 2
unfolding perform_all perform chase initial stepper on_lms_volume is_lms too_soon pump_locked
    apply_nudge decide_volume_nudge opposes press_unless_stalled is_stalling press
wander_presses = refl

chase-Presses_example :
    Presses hundredths []
      (perform_all hundredths policy wander
        (chase hundredths (whole 6) (initial hundredths))).presses
unfolding initial
chase-Presses_example = chase-Presses hundredths policy wander 1 (whole 6) (initial hundredths) (
  omega arith,
  omega arith,
  omega arith,
  (
    omega arith,
    omega arith,
    omega arith,
    (omega arith, omega arith, omega arith, (omega arith, omega arith, omega arith, record {})),
  ),
)

handle_all-silent_example :
    (handle_all hundredths
      (record policy { mode = fixed })
      (remote (whole 1) ∷ other (tick true 5) ∷ [])
      (initial hundredths)).presses
    ≡ []
unfolding ignores is_lms
handle_all-silent_example =
    handle_all-silent hundredths (record policy { mode = fixed })
      (remote (whole 1) ∷ other (tick true 5) ∷ []) refl
