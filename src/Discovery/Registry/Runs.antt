-- ===== src/Discovery/Registry/Runs.antt =====
-- The registry on concrete records, and the theorems about it there.
use squeeze2raop.Base.{
  ℕ, ◌+◌, ◌*◌, ◌^◌, ◌≡◌, refl, arith, List, [], ◌∷◌, ◌++◌, true, some, codes, find_key, digit_value,
  scan_digits, from_chars,
}
use squeeze2raop.Common.Util.{to_lower}
use squeeze2raop.Discovery.Registry.Device.{
  State, Txt, no_device, parse_airplay_features, parsed_or_zero, key_for, preferred_port,
  is_sonos_device,
}
use squeeze2raop.Discovery.Registry.Device.Features.{
  prefixed, word_value, parse_airplay_features_words,
}
use squeeze2raop.Discovery.Registry.Device.Keys.{colons}
use squeeze2raop.Discovery.Registry.Invariant.{IsRegistry}
use squeeze2raop.Discovery.Registry.Mirror.{View, Agrees, follow_all, report_all-follow_all}
use squeeze2raop.Discovery.Registry.Merge.{
  IsDeviceId, IsMerged, report_all-merge, airplay_gone_ignored,
}
use squeeze2raop.Discovery.Registry.{
  Report, raop_added, airplay_added, raop_gone, airplay_gone, handle, report_all,
}

abbrev upper_id : List ℕ
upper_id = codes "AABBCC001122"

abbrev lower_id : List ℕ
lower_id = codes "aabbcc001122"

abbrev kitchen : List ℕ
kitchen = codes "Kitchen"

abbrev den : List ℕ
den = codes "Den"

abbrev raop_txt : Txt
raop_txt = (codes "am", codes "One") ∷ (codes "sf", codes "2") ∷ []

abbrev airplay_txt : Txt
airplay_txt = (codes "deviceid", colons lower_id) ∷ (codes "features", codes "0x0,0x40") ∷ []

colons_of_id : colons lower_id ≡ codes "aa:bb:cc:00:11:22"
unfolding colons
colons_of_id = refl

abbrev reports : List Report
reports =
    raop_added (upper_id ++ (b'@' ∷ kitchen)) den 5000 raop_txt
    ∷ airplay_added kitchen den 7000 airplay_txt
    ∷ raop_gone (upper_id ++ (b'@' ∷ kitchen))
    ∷ []

upper_id-IsDeviceId : IsDeviceId upper_id
upper_id-IsDeviceId = record {
  twelve = omega arith;
  hex = (
    refl,
    (refl, (refl, (refl, (refl, (refl, (refl, (refl, (refl, (refl, (refl, (refl, tt))))))))))),
  );
}

lower_id-IsDeviceId : IsDeviceId lower_id
lower_id-IsDeviceId = record {
  twelve = omega arith;
  hex = (
    refl,
    (refl, (refl, (refl, (refl, (refl, (refl, (refl, (refl, (refl, (refl, (refl, tt))))))))))),
  );
}

sonos_model : is_sonos_device (record no_device { model = codes "SONOS One" }) ≡ true
unfolding is_sonos_device
sonos_model = refl

airplay2_port :
    preferred_port (record no_device { raop_port = 5000; airplay_port = 7000; features = 2 ^ 38 })
    ≡ 7000
unfolding preferred_port
airplay2_port = refl

raop_only_port : preferred_port (record no_device { raop_port = 5000 }) ≡ 5000
unfolding preferred_port
raop_only_port = refl

-- A prefix that `from_chars` does not read: the flag is lost.
prefixed_flags : parsed_or_zero 16 (codes "0x2") ≡ 0
unfolding parsed_or_zero from_chars digit_value scan_digits
prefixed_flags = refl

parse_airplay_features_words_example :
    parse_airplay_features (prefixed (codes "4A") ++ (b',' ∷ prefixed (codes "1")))
    ≡ word_value (codes "4A") + word_value (codes "1") * 2 ^ 32
unfolding digit_value
parse_airplay_features_words_example =
    parse_airplay_features_words b'4' b'1' (codes "A") [] ((4, refl), ((10, refl), tt))
      ((1, refl), tt)

report_all-follow_all_example :
    (w : View) × (follow_all (report_all reports []).1 [] ≡ some w)
    × Agrees w (report_all reports []).0
    × IsRegistry (report_all reports []).0
report_all-follow_all_example = report_all-follow_all reports

report_all-merge_example :
    let raop = raop_added (upper_id ++ (b'@' ∷ kitchen)) den 5000 raop_txt in
    let airplay = airplay_added kitchen den 7000 airplay_txt in
    IsMerged (to_lower upper_id) 5000 7000 [] (report_all (raop ∷ airplay ∷ []) []).0
    × IsMerged (to_lower upper_id) 5000 7000 [] (report_all (airplay ∷ raop ∷ []) []).0
unfolding to_lower find_key
report_all-merge_example =
    report_all-merge upper_id lower_id kitchen kitchen den den 5000 7000 raop_txt airplay_txt []
      upper_id-IsDeviceId lower_id-IsDeviceId refl refl

airplay_gone_ignored_example :
    let added = (handle (airplay_added kitchen den 7000 airplay_txt) []).0 in
    let out =
      (report_all (airplay_added kitchen den 7000 airplay_txt ∷ airplay_gone kitchen ∷ []) []).0 in
    (handle (airplay_gone kitchen) added ≡ (added, []))
    × (st : State) × (find_key (to_lower lower_id) out ≡ some st)
    × (st.last_seen_airplay ≡ true)
    × (st.device.airplay_port ≡ 7000)
unfolding to_lower find_key key_for
airplay_gone_ignored_example =
    airplay_gone_ignored lower_id kitchen den 7000 airplay_txt [] lower_id-IsDeviceId refl refl refl
