-- ===== src/Playback/Volume/Map.antt =====
-- The anchors between the slider of LMS and the decibels of AirPlay, and the rule for one step of the
-- chase of a receiver's volume.
use squeeze2raop.Base.{ℕ, ◌==◌, if◌then◌else◌, Bool, true, false, not, List, [], ◌∷◌}

-- The arithmetic of double that the code uses. `decimal negative n` is a literal, in hundredths.
pub record Double : Type 1 where
  pub Carrier : Type 0
  pub decimal : Bool → ℕ → Carrier
  pub plus : Carrier → Carrier → Carrier
  pub subtract : Carrier → Carrier → Carrier
  pub times : Carrier → Carrier → Carrier
  pub divide : Carrier → Carrier → Carrier
  pub abs : Carrier → Carrier
  pub lt : Carrier → Carrier → Bool
  pub le : Carrier → Carrier → Bool
  pub same : Carrier → Carrier → Bool

-- `lastDir`: -1, +1 and 0.
pub data Direction : Type 0 where
  downwards upwards unset : Direction

pub data VolumeNudge : Type 0 where
  up down reached overshoot exhausted : VolumeNudge

-- A point of the table: slider percent, decibels.
pub record Anchor (C : Type 0) : Type 0 where
  pub pct : C
  pub db : C

-- `lastDir != 0 && need != lastDir`.
unfoldable pub opposes : Bool → Direction → Bool
opposes needs_up unset = false
opposes needs_up upwards = not needs_up
opposes needs_up downwards = needs_up

module _ (D : Double) where
  abbrev pub nought : D.Carrier
  nought = D.decimal false 0

  abbrev pub hundred : D.Carrier
  hundred = D.decimal false 10000

  abbrev pub floor_db : D.Carrier
  floor_db = D.decimal true 3000

  abbrev pub db_per_pct : D.Carrier
  db_per_pct = D.decimal false 30

  abbrev pub min_audible_pct : D.Carrier
  min_audible_pct = D.decimal false 5

  -- `std::clamp` and `std::max`.
  unfoldable pub clamp : D.Carrier → D.Carrier → D.Carrier → D.Carrier
  clamp v lo hi = if D.lt v lo then lo else if D.lt hi v then hi else v

  unfoldable pub larger : D.Carrier → D.Carrier → D.Carrier
  larger a b = if D.lt a b then b else a

  unfoldable pub clamp_air_volume_pct : D.Carrier → D.Carrier
  clamp_air_volume_pct pct = if D.le pct nought then nought else clamp pct min_audible_pct hundred

  unfoldable pub db_from_airplay_pct : D.Carrier → D.Carrier
  db_from_airplay_pct pct = D.plus floor_db (D.times db_per_pct pct)

  -- The loop over the points behind the first: `p` is the point before.
  unfoldable pub db_between : D.Carrier → Anchor D.Carrier → List (Anchor D.Carrier) → D.Carrier
  db_between pct p [] = p.db
  db_between pct p (q ∷ qs) =
      if D.le pct q.pct
      then D.plus p.db (
          D.divide (D.times (D.subtract pct p.pct) (D.subtract q.db p.db)) (D.subtract q.pct p.pct))
      else db_between pct q qs

  unfoldable pub last_anchor : Anchor D.Carrier → List (Anchor D.Carrier) → Anchor D.Carrier
  last_anchor p [] = p
  last_anchor p (q ∷ qs) = last_anchor q qs

  unfoldable pub db_at : List (Anchor D.Carrier) → D.Carrier → D.Carrier
  db_at [] pct = nought
  db_at (p ∷ ps) pct =
      if D.le pct p.pct
      then p.db
      else if D.le (last_anchor p ps).pct pct
      then (last_anchor p ps).db
      else db_between pct p ps

  unfoldable pub airplay_pct_from_lms : List (Anchor D.Carrier) → D.Carrier → D.Carrier
  airplay_pct_from_lms anchors lms =
      if D.le lms nought
      then nought
      else let db = db_at anchors (clamp lms nought hundred) in
        clamp_air_volume_pct (larger (D.divide (D.subtract db floor_db) db_per_pct) min_audible_pct)

  unfoldable pub pct_between : D.Carrier → Anchor D.Carrier → List (Anchor D.Carrier) → D.Carrier
  pct_between db p [] = hundred
  pct_between db p (q ∷ qs) =
      if D.le db q.db
      then if D.same q.db p.db
        then q.pct
        else D.plus p.pct (
            D.divide (D.times (D.subtract db p.db) (D.subtract q.pct p.pct)) (D.subtract q.db p.db))
      else pct_between db q qs

  unfoldable pub lms_pct_from_db : List (Anchor D.Carrier) → D.Carrier → D.Carrier
  lms_pct_from_db [] db = nought
  lms_pct_from_db (p ∷ ps) db =
      if D.le db p.db
      then D.decimal false 100
      else if D.le (last_anchor p ps).db db
      then hundred
      else pct_between db p ps

  unfoldable pub decide_volume_nudge :
      D.Carrier → D.Carrier → Direction → ℕ → D.Carrier → VolumeNudge
  decide_volume_nudge target lms last_dir budget tolerance =
      if D.le (D.abs (D.subtract target lms)) tolerance
      then reached
      else let needs_up = D.lt nought (D.subtract target lms) in
        if opposes needs_up last_dir
        then overshoot
        else if budget == 0
        then exhausted
        else if needs_up
        then up
        else down
