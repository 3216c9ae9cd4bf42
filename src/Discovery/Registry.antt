-- ===== src/Discovery/Registry.antt =====
-- src/discovery/device_registry: a device for each receiver, fed by the RAOP and AirPlay records.
-- A call's notification is part of its result; logging is left out.
pub mod Device
pub mod Records
pub mod Invariant
pub mod Mirror
pub mod Merge
mod Runs
use squeeze2raop.Base.{
  ℕ, List, [], ◌∷◌, ◌++◌, Bool, true, false, not, Option, none, some, if◌then◌else◌, codes, Dict,
  find_key, put_key, erase_key,
}
use squeeze2raop.Discovery.Registry.Device.{
  AirplayDevice, Txt, State, no_state, normalize_hex_key, key_for,
}
use squeeze2raop.Discovery.Registry.Records.{raop_record, airplay_record}

pub data Event : Type 0 where
  added updated removed : Event

abbrev pub Registry : Type 0
Registry = Dict State

abbrev pub Notified : Type 0
Notified = Event × AirplayDevice

-- `devices_[key]`, and whether `count(key)` was 0.
entry : Option State → State
entry none = no_state
entry (some st) = st

upsert_event : Option State → Event
upsert_event none = added
upsert_event (some st) = updated

-- The mutated state, with the key as its device's id.
with_id : List ℕ → State → State
with_id key st = record st { device = record st.device { id = key } }

pub upsert_and_notify_key : List ℕ → (State → State) → Registry → Registry × Notified
unfolding entry upsert_event with_id find_key put_key
upsert_and_notify_key key mutate r =
    let st = with_id key (mutate (entry (find_key key r))) in
    (put_key key st r, (upsert_event (find_key key r), st.device))

-- The state without one of its records.
without : Bool → State → State
without true st = record st { device = record st.device { raop_port = 0 }; last_seen_raop = false }
without false st = record st {
  device = record st.device { airplay_port = 0 };
  last_seen_airplay = false;
}

-- `otherRemains`.
other_remains : Bool → State → Bool
other_remains true st = st.last_seen_airplay
other_remains false st = st.last_seen_raop

mark_found : List ℕ → Bool → Registry → Option State → Registry × Option Notified
unfolding put_key erase_key
mark_found key raop r none = (r, none)
mark_found key raop r (some st) =
    if other_remains raop st
    then (put_key key (without raop st) r, some (updated, (without raop st).device))
    else (erase_key key r, some (removed, (without raop st).device))

pub mark_gone : List ℕ → Bool → Registry → Registry × Option Notified
unfolding mark_found without other_remains find_key
mark_gone key raop r = mark_found key raop r (find_key key r)

pub on_raop_added : List ℕ → List ℕ → ℕ → Txt → Registry → Registry × Notified
unfolding upsert_and_notify_key raop_record key_for
on_raop_added inst host port txt r =
    upsert_and_notify_key (key_for inst) (raop_record inst host port txt) r

-- The key of an AirPlay record: its device id, or else that of its instance.
id_or_instance : List ℕ → List ℕ → List ℕ
id_or_instance [] inst = key_for inst
id_or_instance (c ∷ s) inst = c ∷ s

pub airplay_key : List ℕ → Txt → List ℕ
airplay_key inst txt =
    id_or_instance
      (elim (find_key (codes "deviceid") txt) [ none ↦ [] | some v ↦ normalize_hex_key v ]) inst

pub on_airplay_added : List ℕ → List ℕ → ℕ → Txt → Registry → Registry × Notified
unfolding upsert_and_notify_key airplay_record airplay_key
on_airplay_added inst host port txt r =
    upsert_and_notify_key (airplay_key inst txt) (airplay_record inst host port txt) r

pub on_raop_gone : List ℕ → Registry → Registry × Option Notified
unfolding mark_gone key_for
on_raop_gone inst r = mark_gone (key_for inst) true r

pub on_airplay_gone : List ℕ → Registry → Registry × Option Notified
unfolding mark_gone key_for
on_airplay_gone inst r = mark_gone (key_for inst) false r

-- What mDNS reports, and the notices of a sequence of reports, in order.
pub data Report : Type 0 where
  raop_added : List ℕ → List ℕ → ℕ → Txt → Report
  airplay_added : List ℕ → List ℕ → ℕ → Txt → Report
  raop_gone : List ℕ → Report
  airplay_gone : List ℕ → Report

noticed : Registry × Notified → Registry × List Notified
noticed (r, n) = (r, n ∷ [])

maybe_noticed : Registry × Option Notified → Registry × List Notified
maybe_noticed (r, none) = (r, [])
maybe_noticed (r, some n) = (r, n ∷ [])

pub handle : Report → Registry → Registry × List Notified
unfolding noticed maybe_noticed on_raop_added on_airplay_added on_raop_gone on_airplay_gone
handle (raop_added inst host port txt) r = noticed (on_raop_added inst host port txt r)
handle (airplay_added inst host port txt) r = noticed (on_airplay_added inst host port txt r)
handle (raop_gone inst) r = maybe_noticed (on_raop_gone inst r)
handle (airplay_gone inst) r = maybe_noticed (on_airplay_gone inst r)

-- The registry after a sequence of reports, and all its notices.
pub report_all : List Report → Registry → Registry × List Notified
unfolding handle
report_all [] r = (r, [])
report_all (rep ∷ reps) r =
    let step = handle rep r in let rest = report_all reps step.0 in (rest.0, step.1 ++ rest.1)
