-- ===== src/Discovery/Registry/Mirror.antt =====
-- Whoever follows the notices has the registry's devices.
use squeeze2raop.Base.{
  ℕ, ◌≡◌, refl, ◌∙◌, inl, inr, arith, List, [], ◌∷◌, ◌++◌, Bool, true, false, Option, none, some,
  Bool-cases, find_key, put_key, erase_key, find_key-put_key, find_key-erase_key, Dict, and_then,
}
use squeeze2raop.Discovery.Registry.Device.{AirplayDevice, State, key_for}
use squeeze2raop.Discovery.Registry.Records.{raop_record, airplay_record}
use squeeze2raop.Discovery.Registry.Invariant.{IsRegistry, handle-IsRegistry}
use squeeze2raop.Discovery.Registry.{
  Registry, Notified, Event, added, updated, removed, Report, raop_added, airplay_added, raop_gone,
  airplay_gone, entry, upsert_event, with_id, upsert_and_notify_key, without, other_remains,
  mark_found, mark_gone, on_raop_added, on_airplay_added, on_raop_gone, on_airplay_gone,
  airplay_key, handle, report_all, noticed, maybe_noticed,
}

-- The devices by the notices. An addition is of an unknown device, an update and a removal of a
-- known one; any other notice has no sense, and gives none.
abbrev pub View : Type 0
View = Dict AirplayDevice

pub follow : Notified → View → Option View
follow (added, d) v = elim (find_key d.id v) [ none ↦ some (put_key d.id d v) | some _ ↦ none ]
follow (updated, d) v = elim (find_key d.id v) [ none ↦ none | some _ ↦ some (put_key d.id d v) ]
follow (removed, d) v = elim (find_key d.id v) [ none ↦ none | some _ ↦ some (erase_key d.id v) ]

pub follow_all : List Notified → View → Option View
unfolding follow find_key put_key erase_key
follow_all [] v = some v
follow_all (n ∷ ns) v = and_then (follow n v) (follow_all ns)

abbrev device_of : Option State → Option AirplayDevice
device_of none = none
device_of (some st) = some st.device

-- The view holds the registry's devices, under the same keys.
abbrev pub Agrees : View → Registry → Type 0
Agrees v r = (k : List ℕ) → find_key k v ≡ device_of (find_key k r)

put_key-Agrees :
    (key : List ℕ) (st : State) (v : View) (r : Registry)
    → Agrees v r
    → Agrees (put_key key st.device v) (put_key key st r)
put_key-Agrees key st v r h k =
    ground (arith, h k, find_key-put_key key k st.device v, find_key-put_key key k st r)

erase_key-Agrees :
    (key : List ℕ) (v : View) (r : Registry)
    → Agrees v r
    → Agrees (erase_key key v) (erase_key key r)
erase_key-Agrees key v r h k =
    ground (arith, h k, find_key-erase_key key k v, find_key-erase_key key k r)

-- The notices can be followed, and what comes of it agrees with the registry.
abbrev Mirrors : View → Registry × List Notified → Type 0
Mirrors v out = (w : View) × (follow_all out.1 v ≡ some w) × Agrees w out.0

-- One notice about `key`.
follow_one :
    (ev : Event) (d : AirplayDevice) (v : View) {w : View}
    → follow (ev, d) v ≡ some w
    → follow_all ((ev, d) ∷ []) v ≡ some w
unfolding follow_all
follow_one ev d v h = ground (arith, h)

follow-upsert_event :
    (key : List ℕ) (d : AirplayDevice) (o : Option State) (v : View)
    → d.id ≡ key
    → find_key key v ≡ device_of o
    → follow (upsert_event o, d) v ≡ some (put_key key d v)
unfolding follow upsert_event
follow-upsert_event key d none v e f = ground (arith, e, f)
follow-upsert_event key d (some st) v e f = ground (arith, e, f)

named : (key : List ℕ) (st : State) → (with_id key st).device.id ≡ key
unfolding with_id
named key st = refl

upsert-Mirrors :
    (key : List ℕ) (mutate : State → State) (v : View) (r : Registry)
    → Agrees v r
    → Mirrors v (noticed (upsert_and_notify_key key mutate r))
unfolding noticed upsert_and_notify_key
upsert-Mirrors key mutate v r h =
    let st = with_id key (mutate (entry (find_key key r))) in
    (
      put_key key st.device v,
      follow_one (upsert_event (find_key key r)) st.device v (
          follow-upsert_event key st.device (find_key key r) v
            (named key (mutate (entry (find_key key r)))) (h key)),
      put_key-Agrees key st v r h,
    )

id-without : (raop : Bool) (st : State) → (without raop st).device.id ≡ st.device.id
unfolding without
id-without true st = refl
id-without false st = refl

follow-updated :
    (key : List ℕ) (d old : AirplayDevice) (v : View)
    → d.id ≡ key
    → find_key key v ≡ some old
    → follow (updated, d) v ≡ some (put_key key d v)
unfolding follow
follow-updated key d old v e f = ground (arith, e, f)

follow-removed :
    (key : List ℕ) (d old : AirplayDevice) (v : View)
    → d.id ≡ key
    → find_key key v ≡ some old
    → follow (removed, d) v ≡ some (erase_key key v)
unfolding follow
follow-removed key d old v e f = ground (arith, e, f)

mark_found-Mirrors :
    (key : List ℕ) (raop : Bool) (v : View) (r : Registry) (o : Option State)
    → find_key key r ≡ o
    → IsRegistry r
    → Agrees v r
    → Mirrors v (maybe_noticed (mark_found key raop r o))
unfolding maybe_noticed mark_found follow_all
mark_found-Mirrors key raop v r none e h g = (v, refl, g)
mark_found-Mirrors key raop v r (some st) e h g =
    let known : find_key key v ≡ some st.device = ground (arith, g key, e) in
    let id : (without raop st).device.id ≡ key = id-without raop st ∙ (h key st e).named in
    elim (Bool-cases (other_remains raop st)) [
      | inl o ↦ rw o (
        put_key key (without raop st).device v,
        ground (arith, follow-updated key (without raop st).device st.device v id known),
        put_key-Agrees key (without raop st) v r g,
      )
      | inr o ↦ rw o (
        erase_key key v,
        ground (arith, follow-removed key (without raop st).device st.device v id known),
        erase_key-Agrees key v r g,
      )
    ]

handle-Mirrors :
    (rep : Report) (v : View) (r : Registry) → IsRegistry r → Agrees v r → Mirrors v (handle rep r)
unfolding handle on_raop_added on_airplay_added on_raop_gone on_airplay_gone mark_gone
handle-Mirrors (raop_added inst host port txt) v r h g =
    upsert-Mirrors (key_for inst) (raop_record inst host port txt) v r g
handle-Mirrors (airplay_added inst host port txt) v r h g =
    upsert-Mirrors (airplay_key inst txt) (airplay_record inst host port txt) v r g
handle-Mirrors (raop_gone inst) v r h g =
    mark_found-Mirrors (key_for inst) true v r (find_key (key_for inst) r) refl h g
handle-Mirrors (airplay_gone inst) v r h g =
    mark_found-Mirrors (key_for inst) false v r (find_key (key_for inst) r) refl h g

follow_all-append :
    (ns ms : List Notified) (v w : View)
    → follow_all ns v ≡ some w
    → follow_all (ns ++ ms) v ≡ follow_all ms w
unfolding follow_all
follow_all-append [] ms v w h = ground (arith, h)
follow_all-append (n ∷ ns) ms v w h = append_one (λ u. follow_all-append ns ms u w) (follow n v) h
  where
    append_one :
        ((u : View) → follow_all ns u ≡ some w → follow_all (ns ++ ms) u ≡ follow_all ms w)
        → (o : Option View) → and_then o (follow_all ns) ≡ some w
        → and_then o (follow_all (ns ++ ms)) ≡ follow_all ms w
    append_one ih none e = cc
    append_one ih (some u) e = ih u e

report_all-Mirrors :
    (reps : List Report) (v : View) (r : Registry)
    → IsRegistry r
    → Agrees v r
    → Mirrors v (report_all reps r)
unfolding report_all follow_all
report_all-Mirrors [] v r h g = (v, refl, g)
report_all-Mirrors (rep ∷ reps) v r h g =
    let (w, f, g') = handle-Mirrors rep v r h g in
    let (u, f', g'') = report_all-Mirrors reps w (handle rep r).0 (handle-IsRegistry rep r h) g' in
    (u, follow_all-append (handle rep r).1 (report_all reps (handle rep r).0).1 v w f ∙ f', g'')

report_all-IsRegistry :
    (reps : List Report) (r : Registry) → IsRegistry r → IsRegistry (report_all reps r).0
unfolding report_all
report_all-IsRegistry [] r h = h
report_all-IsRegistry (rep ∷ reps) r h =
    report_all-IsRegistry reps (handle rep r).0 (handle-IsRegistry rep r h)

-- From the empty registry, whatever mDNS reports in whatever order: each addition is notified for a
-- device that is not there, each update and removal for one that is, and a client that follows the
-- notices has at the end the registry's devices, each as it stands, under the same keys. Each such
-- device carries its key as its id, has one of its records at least, and no port without its record.
pub report_all-follow_all :
    (reps : List Report)
    → (w : View) × (follow_all (report_all reps []).1 [] ≡ some w)
      × Agrees w (report_all reps []).0
      × IsRegistry (report_all reps []).0
unfolding find_key
report_all-follow_all reps =
    let empty : IsRegistry [] = λ key st e. absurd (ground arith) in
    let (w, f, g) = report_all-Mirrors reps [] [] empty (λ k. refl) in
    (w, f, g, report_all-IsRegistry reps [] empty)
