-- ===== src/Playback/Volume/Chase.antt =====
-- The chase of a receiver's volume: it is bounded, it is paced, and it never turns back.
mod Steps
use squeeze2raop.Base.{
  ℕ, ◌+◌, ◌≤◌, ◌≡◌, refl, sym, arith, List, [], ◌∷◌, ◌++◌, length, true, false, not, ◌||◌,
  if◌then◌else◌,
}
use mathlib.Core.Path.{subst}
use squeeze2raop.Playback.Volume.Map.{Double, Direction, unset, up, down}
use squeeze2raop.Playback.Volume.Controller.{
  Policy, VolumeController, Press, on_lms_volume, chase, launch, too_soon, pump_locked, stepper,
  stop,
}
unfoldable pub use squeeze2raop.Playback.Volume.Chase.Steps.{perform, perform_all, Apart}
pub use squeeze2raop.Playback.Volume.Chase.Steps.{
  ChaseEvent, level, tick, launching, stopping, Ticks,
}
use squeeze2raop.Playback.Volume.Chase.Steps.{Paced, IsChase, perform_all-IsChase}

module _ (D : Double) where
  -- What a chase may have pressed.
  pub record Presses (old all : List Press) : Type 0 where
    pub chased : List Press
    pub these : all ≡ chased ++ old
    pub bounded : length chased ≤ 60
    pub apart : Apart chased

  Paced-Apart : (made : List Press) (last : ℕ) (dir : Direction) → Paced made last dir → Apart made
  unfolding Paced Apart
  Paced-Apart [] last dir h = record {}
  Paced-Apart (p ∷ ps) last dir h = h.3

  -- Without a target nothing is pressed.
  abbrev pub Idle : List Press → VolumeController D.Carrier → Type 0
  Idle old s = (s.pending ≡ false) × (s.presses ≡ old)

  pub perform-Idle :
      (old : List Press) (p : Policy D.Carrier) (e : ChaseEvent D.Carrier)
      (s : VolumeController D.Carrier)
      → Idle old s
      → Idle old (perform D p e s)
  unfolding perform on_lms_volume stepper launch stop
  perform-Idle old p (level l r) s h = (ground (arith, h.0), ground (arith, h.1))
  perform-Idle old p (tick alive now) s h =
      subst (λ b. Idle old (if not b || too_soon D now s then s else pump_locked D alive now s))
        (sym h.0) h
  perform-Idle old p launching s h = h
  perform-Idle old p stopping s h = (refl, h.1)

  perform_all-Idle :
      (old : List Press) (p : Policy D.Carrier) (es : List (ChaseEvent D.Carrier))
      (s : VolumeController D.Carrier)
      → Idle old s
      → Idle old (perform_all D p es s)
  unfolding perform_all
  perform_all-Idle old p [] s h = h
  perform_all-Idle old p (e ∷ es) s h =
      perform_all-Idle old p es (perform D p e s) (perform-Idle old p e s h)

  IsChase-Presses :
      (old : List Press) (s : VolumeController D.Carrier) (n : ℕ)
      → IsChase D old s n
      → Presses old s.presses
  IsChase-Presses old s n c = record {
    chased = c.made;
    these = c.split;
    bounded = omega (arith, c.spent);
    apart = Paced-Apart c.made s.last_step_ms s.dir c.paced;
  }

  Idle-Presses :
      (old : List Press) (s : VolumeController D.Carrier) → Idle old s → Presses old s.presses
  unfolding Apart
  Idle-Presses old s h = record {
    chased = [];
    these = h.1;
    bounded = omega arith;
    apart = record {};
  }

  -- When the receiver's volume has been taken up, over any events up to its next change, whatever the
  -- volumes of LMS and the link do and however long it takes: at most 60 buttons are pressed, at least
  -- 250 ms apart, all of them up or all of them down. The clock does not run back, and is not 0.
  pub chase-Presses :
      (p : Policy D.Carrier) (es : List (ChaseEvent D.Carrier)) (n : ℕ) (target : D.Carrier)
      (s : VolumeController D.Carrier)
      → Ticks n es
      → Presses s.presses (perform_all D p es (chase D target s)).presses
  unfolding chase Paced
  chase-Presses p es n target s t =
      elim (D.lt (D.abs (D.subtract target s.lms_slider_pct)) (D.decimal false 100))
        as (λ b. Presses s.presses (perform_all D p es (if b then idle else begun)).presses) [
          | true ↦
              Idle-Presses s.presses (perform_all D p es idle)
                (perform_all-Idle s.presses p es idle (refl, refl))
          | false ↦
              let c = perform_all-IsChase D s.presses p es n begun t first in
              IsChase-Presses s.presses (perform_all D p es begun) c.0 c.1
        ]
    where
      idle : VolumeController D.Carrier
      idle = record s { pending = false }

      begun : VolumeController D.Carrier
      begun = record s {
        target = target;
        dir = unset;
        budget = 60;
        stall = 0;
        last_step_ms = 0;
        pending = true;
      }

      first : IsChase D s.presses begun n
      first = record {
        made = [];
        split = refl;
        spent = refl;
        paced = (refl, refl);
        clock = omega arith;
      }
