-- ===== src/Discovery/Registry/Invariant.antt =====
-- What holds of the registry's map between the calls.
use squeeze2raop.Base.{
  ℕ, ◌≡◌, refl, ◌∙◌, ◌⊎◌, inl, inr, arith, List, Bool, true, false, Option, none, some, Bool-cases,
  Option-cases, same_bytes, same_bytes-eq, find_key, put_key, erase_key, find_key-put_key,
  find_key-erase_key,
}
use squeeze2raop.Discovery.Registry.Device.{State, key_for}
use squeeze2raop.Discovery.Registry.Records.{raop_record, airplay_record}
use squeeze2raop.Discovery.Registry.Records.Ports.{
  HasPorts, raop_record-HasPorts, airplay_record-HasPorts, raop_record-seen, airplay_record-seen,
}
use squeeze2raop.Discovery.Registry.{
  Registry, Report, raop_added, airplay_added, raop_gone, airplay_gone, entry, with_id,
  upsert_and_notify_key, without, other_remains, mark_gone, mark_found, Notified, on_raop_added,
  on_airplay_added, on_raop_gone, on_airplay_gone, airplay_key, handle, noticed, maybe_noticed,
}

-- One of the two records is there.
abbrev pub IsSeen : State → Type 0
IsSeen st = (st.last_seen_raop ≡ true) ⊎ (st.last_seen_airplay ≡ true)

pub record IsEntry (key : List ℕ) (st : State) : Type 0 where
  pub named : st.device.id ≡ key
  pub seen : IsSeen st
  pub ports : HasPorts st

-- Every device carries its key as its id, has a record, and no port without its record.
abbrev pub IsRegistry : Registry → Type 0
IsRegistry r = (key : List ℕ) (st : State) → find_key key r ≡ some st → IsEntry key st

entry-HasPorts : (key : List ℕ) (r : Registry) → IsRegistry r → HasPorts (entry (find_key key r))
unfolding entry
entry-HasPorts key r h = elim (Option-cases (find_key key r)) [
  | inl e ↦ rw (e, entry) (record { raop = λ _. refl; airplay = λ _. refl })
  | inr (st, e) ↦ rw (e, entry) (h key st e).ports
]

IsEntry-same : (k j : List ℕ) (st : State) → same_bytes k j ≡ true → IsEntry k st → IsEntry j st
IsEntry-same k j st e h = record {
  named = h.named ∙ same_bytes-eq k j e;
  seen = h.seen;
  ports = h.ports;
}

put_key-IsRegistry :
    (key : List ℕ) (st : State) (r : Registry)
    → IsRegistry r
    → IsEntry key st
    → IsRegistry (put_key key st r)
put_key-IsRegistry key st r h good j st' found = elim (Bool-cases (same_bytes key j)) [
  | inl e ↦
      let same : st ≡ st' = ground (arith, found, e, find_key-put_key key j st r) in
      IsEntry-same key j st' e (rw (← same) good)
  | inr e ↦ h j st' (ground (arith, found, e, find_key-put_key key j st r))
]

erase_key-IsRegistry : (key : List ℕ) (r : Registry) → IsRegistry r → IsRegistry (erase_key key r)
erase_key-IsRegistry key r h j st found = elim (Bool-cases (same_bytes key j)) [
  | inl e ↦ absurd (ground (arith, found, e, find_key-erase_key key j r))
  | inr e ↦ h j st (ground (arith, found, e, find_key-erase_key key j r))
]

upsert-IsRegistry :
    (key : List ℕ) (mutate : State → State) (r : Registry)
    → IsRegistry r
    → ((st : State) → HasPorts st → HasPorts (mutate st))
    → ((st : State) → IsSeen (mutate st))
    → IsRegistry (upsert_and_notify_key key mutate r).0
unfolding upsert_and_notify_key with_id
upsert-IsRegistry key mutate r h ports seen =
    put_key-IsRegistry key (with_id key (mutate (entry (find_key key r)))) r h (record {
      named = refl;
      seen = seen (entry (find_key key r));
      ports =
          let p = ports (entry (find_key key r)) (entry-HasPorts key r h) in
          record { raop = p.raop; airplay = p.airplay };
    })

-- What is left of a state that another record keeps.
without-IsEntry :
    (key : List ℕ) (raop : Bool) (st : State)
    → IsEntry key st
    → other_remains raop st ≡ true
    → IsEntry key (without raop st)
unfolding without other_remains
without-IsEntry key true st h other = record {
  named = h.named;
  seen = inr other;
  ports = record { raop = λ _. refl; airplay = h.ports.airplay };
}
without-IsEntry key false st h other = record {
  named = h.named;
  seen = inl other;
  ports = record { raop = h.ports.raop; airplay = λ _. refl };
}

mark_found-IsRegistry :
    (key : List ℕ) (raop : Bool) (r : Registry) (o : Option State)
    → find_key key r ≡ o
    → IsRegistry r
    → IsRegistry (mark_found key raop r o).0
unfolding mark_found
mark_found-IsRegistry key raop r none e h = h
mark_found-IsRegistry key raop r (some st) e h = elim (Bool-cases (other_remains raop st)) [
  | inl o ↦
      rw o
        (put_key-IsRegistry key (without raop st) r h (without-IsEntry key raop st (h key st e) o))
  | inr o ↦ rw o (erase_key-IsRegistry key r h)
]

mark_gone-IsRegistry :
    (key : List ℕ) (raop : Bool) (r : Registry) → IsRegistry r → IsRegistry (mark_gone key raop r).0
mark_gone-IsRegistry key raop r h =
    unfold mark_gone in mark_found-IsRegistry key raop r (find_key key r) refl h

maybe_noticed_registry :
    (x : Registry × Option Notified) → IsRegistry x.0 → IsRegistry (maybe_noticed x).0
unfolding maybe_noticed
maybe_noticed_registry (r, none) h = h
maybe_noticed_registry (r, some n) h = h

-- Every report keeps the invariant: each device carries its key as its id, at least one of its two
-- records is there, and the port of a record that is not there is 0.
pub handle-IsRegistry : (rep : Report) (r : Registry) → IsRegistry r → IsRegistry (handle rep r).0
unfolding handle noticed on_raop_added on_airplay_added on_raop_gone on_airplay_gone
handle-IsRegistry (raop_added inst host port txt) r h =
    upsert-IsRegistry (key_for inst) (raop_record inst host port txt) r h
      (raop_record-HasPorts inst host port txt)
      (λ st. inl (raop_record-seen inst host port txt st).0)
handle-IsRegistry (airplay_added inst host port txt) r h =
    upsert-IsRegistry (airplay_key inst txt) (airplay_record inst host port txt) r h
      (airplay_record-HasPorts inst host port txt)
      (λ st. inr (airplay_record-seen inst host port txt st).0)
handle-IsRegistry (raop_gone inst) r h =
    maybe_noticed_registry (mark_gone (key_for inst) true r)
      (mark_gone-IsRegistry (key_for inst) true r h)
handle-IsRegistry (airplay_gone inst) r h =
    maybe_noticed_registry (mark_gone (key_for inst) false r)
      (mark_gone-IsRegistry (key_for inst) false r h)
