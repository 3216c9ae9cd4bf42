-- ===== src/Discovery/Registry/Records.antt =====
-- What a record says of a device: the lambdas of `onRaopAdded` and `onAirplayAdded`, field by field.
pub mod Ports
use squeeze2raop.Base.{
  ℕ, ◌+◌, ◌/◌, ◌%◌, ◌^◌, List, [], ◌∷◌, Bool, true, false, ◌||◌, Option, none, some, ltb, ◌==◌,
  if◌then◌else◌, length, drop, codes, find_byte, from_chars, same_bytes, find_key,
}
use squeeze2raop.Discovery.Registry.Device.{
  AirplayDevice, Txt, State, parsed_or_zero, parse_airplay_features,
}

-- `it->second == "true" || it->second == "1"`.
is_true_text : List ℕ → Bool
is_true_text v = same_bytes v (codes "true") || same_bytes v (codes "1")

-- The name behind the first '@' of the instance, where there is one.
name_behind : Option ℕ → List ℕ → AirplayDevice → AirplayDevice
name_behind none inst d = d
name_behind (some at) inst d =
    if ltb (at + 1) (length inst) then record d { name = drop (at + 1) inst } else d

raop_model : Option (List ℕ) → AirplayDevice → AirplayDevice
raop_model none d = d
raop_model (some []) d = d
raop_model (some (c ∷ v)) d = record d { model = c ∷ v }

raop_password : Option (List ℕ) → AirplayDevice → AirplayDevice
unfolding is_true_text
raop_password none d = d
raop_password (some v) d = record d { pw = is_true_text v }

-- Bit 1 of the status flags.
status_flags : Option (List ℕ) → AirplayDevice → AirplayDevice
unfolding parsed_or_zero
status_flags none d = d
status_flags (some v) d = record d { encrypted = parsed_or_zero 16 v / 2 % 2 == 1 }

encryption_type : Option (List ℕ) → AirplayDevice → AirplayDevice
encryption_type none d = d
encryption_type (some v) d = record d {
  encrypted = d.encrypted || elim (find_byte b'1' v) [ none ↦ false | some i ↦ true ];
}

raop_texts : List ℕ → Txt → AirplayDevice → AirplayDevice
unfolding name_behind raop_model raop_password status_flags encryption_type
raop_texts inst txt d = encryption_type (find_key (codes "et") txt) (
    status_flags (find_key (codes "sf") txt) (
      raop_password (find_key (codes "pw") txt)
        (raop_model (find_key (codes "am") txt) (name_behind (find_byte b'@' inst) inst d))))

unfoldable pub raop_record : List ℕ → List ℕ → ℕ → Txt → State → State
unfolding raop_texts
raop_record inst host port txt st = record st {
  device =
      raop_texts inst txt
        (record st.device { raop_instance = inst; host = host; raop_port = port });
  last_seen_raop = true;
}

-- `if (d.name.empty()) d.name = instance`.
name_if_none : List ℕ → List ℕ → AirplayDevice → AirplayDevice
name_if_none [] inst d = record d { name = inst }
name_if_none (c ∷ s) inst d = d

airplay_features : Option (List ℕ) → AirplayDevice → AirplayDevice
unfolding parse_airplay_features
airplay_features none d = d
airplay_features (some []) d = d
airplay_features (some (c ∷ v)) d = record d { features = parse_airplay_features (c ∷ v) }

public_key : Option (List ℕ) → AirplayDevice → AirplayDevice
public_key none d = d
public_key (some v) d = record d { pk = v }

-- The model of this record counts when the other record gave none.
model_if_none : Option (List ℕ) → List ℕ → AirplayDevice → AirplayDevice
model_if_none none old d = d
model_if_none (some v) [] d = record d { model = v }
model_if_none (some v) (c ∷ old) d = d

airplay_manufacturer : Option (List ℕ) → AirplayDevice → AirplayDevice
airplay_manufacturer none d = d
airplay_manufacturer (some []) d = d
airplay_manufacturer (some (c ∷ v)) d = record d { manufacturer = c ∷ v }

airplay_password : Option (List ℕ) → AirplayDevice → AirplayDevice
unfolding is_true_text
airplay_password none d = d
airplay_password (some v) d = if d.pw then d else record d { pw = is_true_text v }

airplay_texts : List ℕ → Txt → AirplayDevice → AirplayDevice
unfolding name_if_none airplay_features public_key model_if_none airplay_manufacturer
    airplay_password
airplay_texts inst txt d =
    let named = name_if_none d.name inst d in
    let keyed =
      public_key (find_key (codes "pk") txt)
        (airplay_features (find_key (codes "features") txt) named) in
    airplay_password (find_key (codes "pw") txt) (
      airplay_manufacturer (find_key (codes "manufacturer") txt)
        (model_if_none (find_key (codes "model") txt) keyed.model keyed))

unfoldable pub airplay_record : List ℕ → List ℕ → ℕ → Txt → State → State
unfolding airplay_texts
airplay_record inst host port txt st = record st {
  device =
      airplay_texts inst txt
        (record st.device { ap_instance = inst; host = host; airplay_port = port });
  last_seen_airplay = true;
}
