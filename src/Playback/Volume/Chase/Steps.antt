-- ===== src/Playback/Volume/Chase/Steps.antt =====
-- The pace, the direction and the budget of a chase, kept by each of its steps.
use squeeze2raop.Base.{
  ℕ, ◌+◌, ◌≤◌, ◌<◌, ◌^◌, ◌≡◌, ◌≢◌, refl, sym, ◌∙◌, ap, arith, List, [], ◌∷◌, ◌++◌, length, Bool,
  true, false, not, if◌then◌else◌, Bool-cases, inl, inr, leb,
}
use mathlib.Core.Path.{subst}
use squeeze2raop.Playback.Volume.Map.{
  Double, Direction, downwards, upwards, unset, VolumeNudge, up, down, reached, overshoot,
  exhausted, opposes, decide_volume_nudge,
}
use squeeze2raop.Playback.Volume.Controller.{
  Policy, VolumeController, Press, on_lms_volume, launch, too_soon, press, press_unless_stalled,
  is_stalling, apply_nudge, pump_locked, stepper, stop,
}

-- What may happen while a target is chased: everything but the receiver's next change.

pub data ChaseEvent (C : Type 0) : Type 0 where
  level : C → C → ChaseEvent C
  tick : Bool → ℕ → ChaseEvent C
  launching : ChaseEvent C
  stopping : ChaseEvent C

-- The times of the ticks: a clock that does not run back from `n`.
abbrev pub Ticks : {C : Type 0} → ℕ → List (ChaseEvent C) → Type 0
Ticks n [] = Unit
Ticks n (tick alive now ∷ es) = (n ≤ now) × (0 < now) × (now < 2 ^ 64) × Ticks now es
Ticks n (_ ∷ es) = Ticks n es

abbrev pub toward : Bool → Direction
toward is_up = if is_up then upwards else downwards

-- Newest first: a step apart at least, and all in one direction.
unfoldable pub Apart : List Press → Type 0
Apart [] = Unit
Apart (p ∷ []) = Unit
Apart (p ∷ q ∷ ps) = (q.at_ms + 250 ≤ p.at_ms) × (p.is_up ≡ q.is_up) × Apart (q ∷ ps)

unfoldable pub Paced : List Press → ℕ → Direction → Type 0
Paced [] last dir = (last ≡ 0) × (dir ≡ unset)
Paced (p ∷ ps) last dir = (p.at_ms ≡ last) × (0 < last) × (dir ≡ toward p.is_up) × Apart (p ∷ ps)

-- The next step goes the way of the last.
opposes-toward : (a b : Bool) → opposes a (toward b) ≡ false → a ≡ b
unfolding opposes
opposes-toward true true h = refl
opposes-toward false false h = refl
opposes-toward true false h = h
opposes-toward false true h = sym h

Paced-press :
    (made : List Press) (last now : ℕ) (dir : Direction) (is_up : Bool)
    → Paced made last dir
    → opposes is_up dir ≡ false
    → (last ≢ 0 → last + 250 ≤ now)
    → 0 < now
    → Paced (record { is_up = is_up; at_ms = now } ∷ made) now (toward is_up)
unfolding Paced Apart
Paced-press [] last now dir is_up h o gap pos = (refl, pos, refl, record {})
Paced-press (p ∷ ps) last now dir is_up (hl, hp, hd, ha) o gap pos =
    let nz : last ≢ 0 = omega (arith, hp) in
    (
      refl,
      pos,
      refl,
      (
        omega (arith, hl, gap nz),
        opposes-toward is_up p.is_up (ap (opposes is_up) (sym hd) ∙ o),
        ha,
      ),
    )

module _ (D : Double) where
  unfoldable pub perform :
      Policy D.Carrier
      → ChaseEvent D.Carrier
      → VolumeController D.Carrier
      → VolumeController D.Carrier
  perform p (level l r) s = on_lms_volume D p l r s
  perform p (tick alive now) s = stepper D alive now s
  perform p launching s = launch D p s
  perform p stopping s = stop D s

  unfoldable pub perform_all :
      Policy D.Carrier
      → List (ChaseEvent D.Carrier)
      → VolumeController D.Carrier
      → VolumeController D.Carrier
  perform_all p [] s = s
  perform_all p (e ∷ es) s = perform_all p es (perform p e s)

  -- A chase that began over the presses `old`, at the time `n`.
  pub record IsChase (old : List Press) (s : VolumeController D.Carrier) (n : ℕ) : Type 0 where
    pub made : List Press
    pub split : s.presses ≡ made ++ old
    pub spent : length made + s.budget ≡ 60
    pub paced : Paced made s.last_step_ms s.dir
    pub clock : s.last_step_ms ≤ n

  -- Two states that agree on what the chase reads.
  same-IsChase :
      (old : List Press) (s t : VolumeController D.Carrier) (n : ℕ)
      → t.presses ≡ s.presses
      → t.budget ≡ s.budget
      → t.last_step_ms ≡ s.last_step_ms
      → t.dir ≡ s.dir
      → IsChase old s n
      → IsChase old t n
  same-IsChase old s t n hp hb hl hd c = record {
    made = c.made;
    split = hp ∙ c.split;
    spent = rw hb c.spent;
    paced = rw (hl, hd) c.paced;
    clock = rw hl c.clock;
  }

  later-IsChase :
      (old : List Press) (s : VolumeController D.Carrier) (n now : ℕ)
      → n ≤ now
      → IsChase old s n
      → IsChase old s now
  later-IsChase old s n now h c = record {
    made = c.made;
    split = c.split;
    spent = c.spent;
    paced = c.paced;
    clock = omega (arith, h, c.clock);
  }

  if-IsChase :
      (old : List Press) (n : ℕ) (b : Bool) (s t : VolumeController D.Carrier)
      → IsChase old s n
      → IsChase old t n
      → IsChase old (if b then s else t) n
  if-IsChase old n true s t h k = h
  if-IsChase old n false s t h k = k

  press-IsChase :
      (old : List Press) (is_up : Bool) (now : ℕ) (s : VolumeController D.Carrier)
      → opposes is_up s.dir ≡ false
      → s.budget ≢ 0
      → (s.last_step_ms ≢ 0 → s.last_step_ms + 250 ≤ now)
      → 0 < now
      → IsChase old s now
      → IsChase old (press D is_up now s) now
  unfolding press
  press-IsChase old is_up now s o b gap pos c = record {
    made = record { is_up = is_up; at_ms = now } ∷ c.made;
    split = ap (◌∷◌ (record { is_up = is_up; at_ms = now })) c.split;
    spent = omega (arith, c.spent, b);
    paced = Paced-press c.made s.last_step_ms now s.dir is_up c.paced o gap pos;
    clock = omega arith;
  }

  due :
      (now : ℕ) (s : VolumeController D.Carrier)
      → s.last_step_ms ≤ now
      → now < 2 ^ 64
      → too_soon D now s ≡ false
      → s.last_step_ms ≢ 0
      → s.last_step_ms + 250 ≤ now
  unfolding too_soon
  due now s h w e nz = ground arith

  nudge-Allowed :
      (target lms tol : D.Carrier) (d : Direction) (b : ℕ)
      → let n = decide_volume_nudge D target lms d b tol in
        (n ≡ up → (opposes true d ≡ false) × (b ≢ 0))
        × (n ≡ down → (opposes false d ≡ false) × (b ≢ 0))
  unfolding decide_volume_nudge
  nudge-Allowed target lms tol d b =
      (λ h. (ground arith, ground arith), λ h. (ground arith, ground arith))

  press_unless_stalled-IsChase :
      (old : List Press) (is_up : Bool) (now : ℕ) (s : VolumeController D.Carrier)
      → opposes is_up s.dir ≡ false
      → s.budget ≢ 0
      → (s.last_step_ms ≢ 0 → s.last_step_ms + 250 ≤ now)
      → 0 < now
      → IsChase old s now
      → IsChase old (press_unless_stalled D is_up now s) now
  unfolding press_unless_stalled
  press_unless_stalled-IsChase old is_up now s o b gap pos c =
      if-IsChase old now (is_stalling D s) _ _
        (if-IsChase old now (leb 6 (s.stall + 1)) _ _
          (same-IsChase old s _ now refl refl refl refl c)
          (press-IsChase old is_up now _ o b gap pos
            (same-IsChase old s _ now refl refl refl refl c)))
        (press-IsChase old is_up now _ o b gap pos (same-IsChase old s _ now refl refl refl refl c))

  apply_nudge-IsChase :
      (old : List Press) (v : VolumeNudge) (now : ℕ) (s : VolumeController D.Carrier)
      → (v ≡ up → (opposes true s.dir ≡ false) × (s.budget ≢ 0))
        × (v ≡ down → (opposes false s.dir ≡ false) × (s.budget ≢ 0))
      → (s.last_step_ms ≢ 0 → s.last_step_ms + 250 ≤ now)
      → 0 < now
      → IsChase old s now
      → IsChase old (apply_nudge D v now s) now
  unfolding apply_nudge
  apply_nudge-IsChase old reached now s a gap pos c = same-IsChase old s _ now refl refl refl refl c
  apply_nudge-IsChase old overshoot now s a gap pos c =
      same-IsChase old s _ now refl refl refl refl c
  apply_nudge-IsChase old exhausted now s a gap pos c =
      same-IsChase old s _ now refl refl refl refl c
  apply_nudge-IsChase old up now s a gap pos c =
      press_unless_stalled-IsChase old true now s (a.0 refl).0 (a.0 refl).1 gap pos c
  apply_nudge-IsChase old down now s a gap pos c =
      press_unless_stalled-IsChase old false now s (a.1 refl).0 (a.1 refl).1 gap pos c

  pump_locked-IsChase :
      (old : List Press) (alive : Bool) (now : ℕ) (s : VolumeController D.Carrier)
      → 0 < now
      → now < 2 ^ 64
      → IsChase old s now
      → IsChase old (pump_locked D alive now s) now
  unfolding pump_locked
  pump_locked-IsChase old alive now s pos w c = if-IsChase old now (not s.pending) s _ c (
      if-IsChase old now (not alive) _ _ (same-IsChase old s _ now refl refl refl refl c)
        (elim (Bool-cases (too_soon D now s)) [
          | inl e ↦ subst (λ b. IsChase old (if b then s else nudged) now) (sym e) c
          | inr e ↦
              subst (λ b. IsChase old (if b then s else nudged) now) (sym e)
                (apply_nudge-IsChase old v now s
                  (nudge-Allowed s.target s.lms_slider_pct _ s.dir s.budget) (due now s c.clock w e)
                  pos c)
        ]))
    where
      v : VolumeNudge
      v = decide_volume_nudge D s.target s.lms_slider_pct s.dir s.budget (D.decimal false 100)

      nudged : VolumeController D.Carrier
      nudged = apply_nudge D v now s

  stepper-IsChase :
      (old : List Press) (alive : Bool) (now : ℕ) (s : VolumeController D.Carrier)
      → 0 < now
      → now < 2 ^ 64
      → IsChase old s now
      → IsChase old (stepper D alive now s) now
  unfolding stepper
  stepper-IsChase old alive now s pos w c =
      if-IsChase old now _ s _ c (pump_locked-IsChase old alive now s pos w c)

  on_lms_volume-IsChase :
      (old : List Press) (p : Policy D.Carrier) (l r : D.Carrier) (n : ℕ)
      (s : VolumeController D.Carrier)
      → IsChase old s n
      → IsChase old (on_lms_volume D p l r s) n
  unfolding on_lms_volume
  on_lms_volume-IsChase old p l r n s c =
      same-IsChase old s (on_lms_volume D p l r s) n (ground arith) (ground arith) (ground arith)
        (ground arith) c

  pub perform_all-IsChase :
      (old : List Press) (p : Policy D.Carrier) (es : List (ChaseEvent D.Carrier)) (n : ℕ)
      (s : VolumeController D.Carrier)
      → Ticks n es
      → IsChase old s n
      → (m : ℕ) × IsChase old (perform_all p es s) m
  unfolding perform_all perform launch stop
  perform_all-IsChase old p [] n s h c = (n, c)
  perform_all-IsChase old p (level l r ∷ es) n s h c =
      perform_all-IsChase old p es n _ h (on_lms_volume-IsChase old p l r n s c)
  perform_all-IsChase old p (tick alive now ∷ es) n s (le, pos, w, h) c =
      perform_all-IsChase old p es now _ h
        (stepper-IsChase old alive now s pos w (later-IsChase old s n now le c))
  perform_all-IsChase old p (launching ∷ es) n s h c =
      perform_all-IsChase old p es n _ h (same-IsChase old s _ n refl refl refl refl c)
  perform_all-IsChase old p (stopping ∷ es) n s h c =
      perform_all-IsChase old p es n _ h (same-IsChase old s _ n refl refl refl refl c)
