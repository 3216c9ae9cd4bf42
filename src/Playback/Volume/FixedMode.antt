-- ===== src/Playback/Volume/FixedMode.antt =====
-- The mode in which LMS does not set the volume, and the option that leaves the receiver's buttons alone.
use squeeze2raop.Base.{◌≡◌, refl, arith, List, [], ◌∷◌, Bool, true, not, ◌||◌}
use squeeze2raop.Playback.Volume.Map.{Double}
use squeeze2raop.Playback.Volume.Controller.{
  Policy, VolumeController, is_lms, initial, on_receiver_volume,
}
use squeeze2raop.Playback.Volume.Chase.{ChaseEvent, perform, perform-Idle, Idle}

-- Everything that may happen to the controller.
pub data Event (C : Type 0) : Type 0 where
  remote : C → Event C
  other : ChaseEvent C → Event C

module _ (D : Double) where
  unfoldable pub handle :
      Policy D.Carrier → Event D.Carrier → VolumeController D.Carrier → VolumeController D.Carrier
  handle p (remote unit) s = on_receiver_volume D p unit s
  handle p (other e) s = perform D p e s

  unfoldable pub handle_all :
      Policy D.Carrier
      → List (Event D.Carrier)
      → VolumeController D.Carrier
      → VolumeController D.Carrier
  handle_all p [] s = s
  handle_all p (e ∷ es) s = handle_all p es (handle p e s)

  -- The receiver's volume is not followed.
  unfoldable pub ignores : Policy D.Carrier → Bool
  ignores p = not p.feedback || not (is_lms p.mode)

  handle-Idle :
      (p : Policy D.Carrier) (e : Event D.Carrier) (s : VolumeController D.Carrier)
      → ignores p ≡ true
      → Idle D [] s
      → Idle D [] (handle p e s)
  unfolding handle on_receiver_volume ignores
  handle-Idle p (remote unit) s i h = (ground (arith, i, h.0), ground (arith, i, h.1))
  handle-Idle p (other e) s i h = perform-Idle D [] p e s h

  handle_all-Idle :
      (p : Policy D.Carrier) (es : List (Event D.Carrier)) (s : VolumeController D.Carrier)
      → ignores p ≡ true
      → Idle D [] s
      → Idle D [] (handle_all p es s)
  unfolding handle_all
  handle_all-Idle p [] s i h = h
  handle_all-Idle p (e ∷ es) s i h = handle_all-Idle p es (handle p e s) i (handle-Idle p e s i h)

  -- Where the receiver's volume is not followed, because the option is off or because LMS does not set
  -- the volume, no event ever presses a volume button in LMS.
  pub handle_all-silent :
      (p : Policy D.Carrier) (es : List (Event D.Carrier))
      → ignores p ≡ true
      → (handle_all p es (initial D)).presses ≡ []
  unfolding initial
  handle_all-silent p es i = (handle_all-Idle p es (initial D) i (refl, refl)).1
