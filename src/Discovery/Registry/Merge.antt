-- ===== src/Discovery/Registry/Merge.antt =====
-- The two records of a receiver meet in one device, and what the end of one of them does.
use mathlib.Core.Path.{subst}
use squeeze2raop.Base.{
  ℕ, ◌≡◌, refl, sym, ◌∙◌, ap, arith, List, [], ◌∷◌, ◌++◌, Bool, true, false, none, some,
  if◌then◌else◌, length, All, codes, same_bytes, same_bytes_refl, find_key, find_key-put_key,
}
use squeeze2raop.Common.Util.{to_lower}
use squeeze2raop.Discovery.Registry.Device.{State, Txt, key_for}
use squeeze2raop.Discovery.Registry.Device.Keys.{
  IsHexByte, colons, normalize_hex_key-colons, key_for-raop, length-to_lower,
}
use squeeze2raop.Discovery.Registry.Records.{raop_record, airplay_record}
use squeeze2raop.Discovery.Registry.Records.Ports.{
  raop_record-seen, airplay_record-seen, raop_record-port, airplay_record-port,
}
use squeeze2raop.Discovery.Registry.{
  Registry, Notified, Report, raop_added, airplay_added, airplay_gone, entry, with_id,
  id_or_instance, upsert_and_notify_key, mark_found, mark_gone, on_raop_added, on_airplay_added,
  on_airplay_gone, airplay_key, handle, report_all, noticed, maybe_noticed,
}

-- A device id of twelve digits in pairs.
pub record IsDeviceId (s : List ℕ) : Type 0 where
  pub twelve : length s ≡ 12
  pub hex : All IsHexByte s

id_or_instance-cons : (k inst : List ℕ) → length k ≡ 12 → id_or_instance k inst ≡ k
unfolding id_or_instance
id_or_instance-cons [] inst h = absurd (ground (arith, h))
id_or_instance-cons (c ∷ k) inst h = refl

airplay_key-colons :
    (s inst : List ℕ) (txt : Txt)
    → IsDeviceId s
    → find_key (codes "deviceid") txt ≡ some (colons s)
    → airplay_key inst txt ≡ to_lower s
unfolding airplay_key
airplay_key-colons s inst txt d h = ground (
  arith,
  h,
  normalize_hex_key-colons s d.twelve d.hex,
  id_or_instance-cons (to_lower s) inst (length-to_lower s ∙ d.twelve),
)

-- What the map holds after a report.
find_key-upsert :
    (key k : List ℕ) (mutate : State → State) (r : Registry)
    → find_key k (noticed (upsert_and_notify_key key mutate r)).0 ≡ (
        if same_bytes key k
        then some (with_id key (mutate (entry (find_key key r))))
        else find_key k r)
unfolding noticed upsert_and_notify_key
find_key-upsert key k mutate r =
    find_key-put_key key k (with_id key (mutate (entry (find_key key r)))) r

-- A device with both records and these ports stands under the key, and nothing else changed.
pub record IsMerged (key : List ℕ) (port port' : ℕ) (r out : Registry) : Type 0 where
  pub state : State
  pub found : find_key key out ≡ some state
  pub raop : (state.last_seen_raop ≡ true) × (state.device.raop_port ≡ port)
  pub airplay : (state.last_seen_airplay ≡ true) × (state.device.airplay_port ≡ port')
  pub others : (k : List ℕ) → same_bytes key k ≡ false → find_key k out ≡ find_key k r

-- Two reports about one key.
find_key-upsert-upsert :
    (key k : List ℕ) (f g : State → State) (r : Registry)
    → find_key k
        (noticed (upsert_and_notify_key key g (noticed (upsert_and_notify_key key f r)).0)).0
      ≡ (if same_bytes key k
          then some (with_id key (g (with_id key (f (entry (find_key key r))))))
          else find_key k r)
unfolding entry
find_key-upsert-upsert key k f g r = ground (
  arith,
  find_key-upsert key k g (noticed (upsert_and_notify_key key f r)).0,
  find_key-upsert key key f r,
  find_key-upsert key k f r,
  same_bytes_refl key,
)

handle-raop_added :
    (s name host : List ℕ) (port : ℕ) (txt : Txt) (r : Registry)
    → IsDeviceId s
    → handle (raop_added (s ++ (b'@' ∷ name)) host port txt) r
      ≡ noticed
          (upsert_and_notify_key (to_lower s) (raop_record (s ++ (b'@' ∷ name)) host port txt) r)
unfolding handle on_raop_added
handle-raop_added s name host port txt r d =
    ap (λ k. noticed (upsert_and_notify_key k (raop_record (s ++ (b'@' ∷ name)) host port txt) r))
      (key_for-raop s name d.twelve d.hex)

handle-airplay_added :
    (t inst host : List ℕ) (port : ℕ) (txt : Txt) (r : Registry)
    → IsDeviceId t
    → find_key (codes "deviceid") txt ≡ some (colons t)
    → handle (airplay_added inst host port txt) r
      ≡ noticed (upsert_and_notify_key (to_lower t) (airplay_record inst host port txt) r)
unfolding handle on_airplay_added
handle-airplay_added t inst host port txt r d h =
    ap (λ k. noticed (upsert_and_notify_key k (airplay_record inst host port txt) r))
      (airplay_key-colons t inst txt d h)

two_reports :
    (a b : Report) (r : Registry) {q q' : Registry × List Notified}
    → handle a r ≡ q
    → handle b q.0 ≡ q'
    → (report_all (a ∷ b ∷ []) r).0 ≡ q'.0
unfolding report_all
two_reports a b r e f = ap (λ x. (handle b x.0).0) e ∙ ap (λ x. x.0) f

raop_then_airplay :
    (key i j host host' : List ℕ) (port port' : ℕ) (txt txt' : Txt) (r : Registry)
    → IsMerged key port port' r
        (noticed (
          upsert_and_notify_key key
            (airplay_record j host' port' txt')
            (noticed (upsert_and_notify_key key (raop_record i host port txt) r)).0)).0
unfolding with_id
raop_then_airplay key i j host host' port port' txt txt' r =
    let f = raop_record i host port txt in
    let g = airplay_record j host' port' txt' in
    let old = entry (find_key key r) in
    let mid = with_id key (f old) in
    record {
      state = with_id key (g mid);
      found = ground (arith, same_bytes_refl key, find_key-upsert-upsert key key f g r);
      raop = (
        (airplay_record-seen j host' port' txt' mid).1 ∙ (raop_record-seen i host port txt old).0,
        ground (
          arith,
          airplay_record-port j host' port' txt' mid,
          raop_record-port i host port txt old,
        ),
      );
      airplay = (
        (airplay_record-seen j host' port' txt' mid).0,
        ground (arith, airplay_record-port j host' port' txt' mid),
      );
      others = λ k e. ground (arith, e, find_key-upsert-upsert key k f g r);
    }

airplay_then_raop :
    (key i j host host' : List ℕ) (port port' : ℕ) (txt txt' : Txt) (r : Registry)
    → IsMerged key port port' r
        (noticed (
          upsert_and_notify_key key
            (raop_record i host port txt)
            (noticed (upsert_and_notify_key key (airplay_record j host' port' txt') r)).0)).0
unfolding with_id
airplay_then_raop key i j host host' port port' txt txt' r =
    let f = airplay_record j host' port' txt' in
    let g = raop_record i host port txt in
    let old = entry (find_key key r) in
    let mid = with_id key (f old) in
    record {
      state = with_id key (g mid);
      found = ground (arith, same_bytes_refl key, find_key-upsert-upsert key key f g r);
      raop = (
        (raop_record-seen i host port txt mid).0,
        ground (arith, raop_record-port i host port txt mid),
      );
      airplay = (
        (raop_record-seen i host port txt mid).1 ∙ (airplay_record-seen j host' port' txt' old).0,
        ground (
          arith,
          raop_record-port i host port txt mid,
          airplay_record-port j host' port' txt' old,
        ),
      );
      others = λ k e. ground (arith, e, find_key-upsert-upsert key k f g r);
    }

-- The RAOP record of a receiver and its AirPlay record, whose device id has the same digits, make one
-- device under these digits in lower case, in whatever order they come and whatever is registered
-- before: both records count as seen and each gives its port. Every other device stays as it was.
pub report_all-merge :
    (s t name inst host host' : List ℕ) (port port' : ℕ) (txt txt' : Txt) (r : Registry)
    → IsDeviceId s
    → IsDeviceId t
    → to_lower s ≡ to_lower t
    → find_key (codes "deviceid") txt' ≡ some (colons t)
    → let raop = raop_added (s ++ (b'@' ∷ name)) host port txt in
      let airplay = airplay_added inst host' port' txt' in
      IsMerged (to_lower s) port port' r (report_all (raop ∷ airplay ∷ []) r).0
      × IsMerged (to_lower s) port port' r (report_all (airplay ∷ raop ∷ []) r).0
report_all-merge s t name inst host host' port port' txt txt' r d e same h =
    let raop = raop_record (s ++ (b'@' ∷ name)) host port txt in
    let airplay = airplay_record inst host' port' txt' in
    let first = λ (q : Registry). handle-raop_added s name host port txt q d in
    let second = λ (q : Registry).
      handle-airplay_added t inst host' port' txt' q e h
      ∙ ap (λ k. noticed (upsert_and_notify_key k airplay q)) (sym same) in
    (
      subst (IsMerged (to_lower s) port port' r)
          (sym (
            two_reports (raop_added (s ++ (b'@' ∷ name)) host port txt)
              (airplay_added inst host' port' txt') r (first r) (second _)))
          (raop_then_airplay (to_lower s) (s ++ (b'@' ∷ name)) inst host host' port port' txt txt'
            r),
      subst (IsMerged (to_lower s) port port' r)
          (sym (
            two_reports (airplay_added inst host' port' txt')
              (raop_added (s ++ (b'@' ∷ name)) host port txt) r (second r) (first _)))
          (airplay_then_raop (to_lower s) (s ++ (b'@' ∷ name)) inst host host' port port' txt txt'
            r),
    )

-- A goodbye for a key that is not there.
mark_gone-none :
    (key : List ℕ) (raop : Bool) (r : Registry)
    → find_key key r ≡ none
    → mark_gone key raop r ≡ (r, none)
unfolding mark_gone mark_found
mark_gone-none key raop r h = ground (arith, h)

handle-airplay_gone :
    (inst : List ℕ) (r : Registry)
    → find_key (key_for inst) r ≡ none
    → handle (airplay_gone inst) r ≡ (r, [])
unfolding handle on_airplay_gone maybe_noticed
handle-airplay_gone inst r h = ground (arith, mark_gone-none (key_for inst) false r h)

seen_with_id :
    (key : List ℕ) (st : State)
    → st.last_seen_airplay ≡ true
    → (with_id key st).last_seen_airplay ≡ true
unfolding with_id
seen_with_id key st h = h

port_with_id :
    (key : List ℕ) (st : State) → (with_id key st).device.airplay_port ≡ st.device.airplay_port
unfolding with_id
port_with_id key st = refl

-- A receiver announced by its AirPlay record under a device id stays when the goodbye of that record
-- comes with an instance name that is the key of no device: the goodbye leaves the whole registry as it
-- was and notifies nothing, so the device keeps its AirPlay record and its port.
pub airplay_gone_ignored :
    (t inst host : List ℕ) (port : ℕ) (txt : Txt) (r : Registry)
    → IsDeviceId t
    → find_key (codes "deviceid") txt ≡ some (colons t)
    → find_key (key_for inst) r ≡ none
    → same_bytes (to_lower t) (key_for inst) ≡ false
    → let added = (handle (airplay_added inst host port txt) r).0 in
      let out = (report_all (airplay_added inst host port txt ∷ airplay_gone inst ∷ []) r).0 in
      (handle (airplay_gone inst) added ≡ (added, []))
      × (st : State) × (find_key (to_lower t) out ≡ some st)
      × (st.last_seen_airplay ≡ true)
      × (st.device.airplay_port ≡ port)
airplay_gone_ignored t inst host port txt r d h absent other =
    let f = airplay_record inst host port txt in
    let old = entry (find_key (to_lower t) r) in
    let q = noticed (upsert_and_notify_key (to_lower t) f r) in
    let gone : handle (airplay_gone inst) q.0 ≡ (q.0, []) =
      handle-airplay_gone inst q.0
        (find_key-upsert (to_lower t) (key_for inst) f r ∙ ground (arith, other, absent)) in
    let out =
      two_reports (airplay_added inst host port txt) (airplay_gone inst) r
        (handle-airplay_added t inst host port txt r d h) gone in
    (
      rw (handle-airplay_added t inst host port txt r d h) gone,
      with_id (to_lower t) (f old),
      rw out (
          find_key-upsert (to_lower t) (to_lower t) f r
          ∙ ground (arith, same_bytes_refl (to_lower t))),
      seen_with_id (to_lower t) (f old) (airplay_record-seen inst host port txt old).0,
      port_with_id (to_lower t) (f old)
          ∙ ground (arith, airplay_record-port inst host port txt old),
    )
