-- ===== src/Discovery/Registry/Records/Ports.antt =====
-- The texts of a record leave both ports of the device alone.
use squeeze2raop.Base.{
  ℕ, ◌≡◌, refl, ◌∙◌, arith, List, [], ◌∷◌, true, false, Option, none, some, codes, find_byte,
  find_key,
}
use squeeze2raop.Discovery.Registry.Device.{AirplayDevice, Txt, State}
use squeeze2raop.Discovery.Registry.Records.{
  name_behind, raop_model, raop_password, status_flags, encryption_type, raop_texts, raop_record,
  name_if_none, airplay_features, public_key, model_if_none, airplay_manufacturer, airplay_password,
  airplay_texts, airplay_record,
}

abbrev pub ports : AirplayDevice → ℕ × ℕ
ports d = (d.raop_port, d.airplay_port)

ports-name_behind :
    (o : Option ℕ) (i : List ℕ) (d : AirplayDevice) → ports (name_behind o i d) ≡ ports d
unfolding name_behind
ports-name_behind none i d = refl
ports-name_behind (some at) i d = ground arith

ports-raop_model : (o : Option (List ℕ)) (d : AirplayDevice) → ports (raop_model o d) ≡ ports d
unfolding raop_model
ports-raop_model none d = refl
ports-raop_model (some []) d = refl
ports-raop_model (some (c ∷ v)) d = refl

ports-raop_password :
    (o : Option (List ℕ)) (d : AirplayDevice) → ports (raop_password o d) ≡ ports d
unfolding raop_password
ports-raop_password none d = refl
ports-raop_password (some v) d = refl

ports-status_flags : (o : Option (List ℕ)) (d : AirplayDevice) → ports (status_flags o d) ≡ ports d
unfolding status_flags
ports-status_flags none d = refl
ports-status_flags (some v) d = refl

ports-encryption_type :
    (o : Option (List ℕ)) (d : AirplayDevice) → ports (encryption_type o d) ≡ ports d
unfolding encryption_type
ports-encryption_type none d = refl
ports-encryption_type (some v) d = refl

ports-raop_texts :
    (inst : List ℕ) (txt : Txt) (d : AirplayDevice) → ports (raop_texts inst txt d) ≡ ports d
unfolding raop_texts
ports-raop_texts inst txt d =
    let named = name_behind (find_byte b'@' inst) inst d in
    let modelled = raop_model (find_key (codes "am") txt) named in
    let open_or_not = raop_password (find_key (codes "pw") txt) modelled in
    let flagged = status_flags (find_key (codes "sf") txt) open_or_not in
    ports-encryption_type (find_key (codes "et") txt) flagged
    ∙ ports-status_flags (find_key (codes "sf") txt) open_or_not
    ∙ ports-raop_password (find_key (codes "pw") txt) modelled
    ∙ ports-raop_model (find_key (codes "am") txt) named
    ∙ ports-name_behind (find_byte b'@' inst) inst d

ports-name_if_none : (n i : List ℕ) (d : AirplayDevice) → ports (name_if_none n i d) ≡ ports d
unfolding name_if_none
ports-name_if_none [] i d = refl
ports-name_if_none (c ∷ n) i d = refl

ports-airplay_features :
    (o : Option (List ℕ)) (d : AirplayDevice) → ports (airplay_features o d) ≡ ports d
unfolding airplay_features
ports-airplay_features none d = refl
ports-airplay_features (some []) d = refl
ports-airplay_features (some (c ∷ v)) d = refl

ports-public_key : (o : Option (List ℕ)) (d : AirplayDevice) → ports (public_key o d) ≡ ports d
unfolding public_key
ports-public_key none d = refl
ports-public_key (some v) d = refl

ports-model_if_none :
    (o : Option (List ℕ)) (m : List ℕ) (d : AirplayDevice) → ports (model_if_none o m d) ≡ ports d
unfolding model_if_none
ports-model_if_none none m d = refl
ports-model_if_none (some v) [] d = refl
ports-model_if_none (some v) (c ∷ m) d = refl

ports-airplay_manufacturer :
    (o : Option (List ℕ)) (d : AirplayDevice) → ports (airplay_manufacturer o d) ≡ ports d
unfolding airplay_manufacturer
ports-airplay_manufacturer none d = refl
ports-airplay_manufacturer (some []) d = refl
ports-airplay_manufacturer (some (c ∷ v)) d = refl

ports-airplay_password :
    (o : Option (List ℕ)) (d : AirplayDevice) → ports (airplay_password o d) ≡ ports d
unfolding airplay_password
ports-airplay_password none d = refl
ports-airplay_password (some v) d = ground arith

ports-airplay_texts :
    (inst : List ℕ) (txt : Txt) (d : AirplayDevice) → ports (airplay_texts inst txt d) ≡ ports d
unfolding airplay_texts
ports-airplay_texts inst txt d =
    let named = name_if_none d.name inst d in
    let featured = airplay_features (find_key (codes "features") txt) named in
    let keyed = public_key (find_key (codes "pk") txt) featured in
    let modelled = model_if_none (find_key (codes "model") txt) keyed.model keyed in
    let made = airplay_manufacturer (find_key (codes "manufacturer") txt) modelled in
    ports-airplay_password (find_key (codes "pw") txt) made
    ∙ ports-airplay_manufacturer (find_key (codes "manufacturer") txt) modelled
    ∙ ports-model_if_none (find_key (codes "model") txt) keyed.model keyed
    ∙ ports-public_key (find_key (codes "pk") txt) featured
    ∙ ports-airplay_features (find_key (codes "features") txt) named
    ∙ ports-name_if_none d.name inst d

-- A port without its record is 0.
pub record HasPorts (st : State) : Type 0 where
  pub raop : st.last_seen_raop ≡ false → st.device.raop_port ≡ 0
  pub airplay : st.last_seen_airplay ≡ false → st.device.airplay_port ≡ 0

pub raop_record-HasPorts :
    (inst host : List ℕ) (port : ℕ) (txt : Txt) (st : State)
    → HasPorts st
    → HasPorts (raop_record inst host port txt st)
unfolding raop_record
raop_record-HasPorts inst host port txt st h = record {
  raop = λ e. ground (arith, e);
  airplay = λ e. ground (
    arith,
    h.airplay e,
    ports-raop_texts inst txt
        (record st.device { raop_instance = inst; host = host; raop_port = port }),
  );
}

pub airplay_record-HasPorts :
    (inst host : List ℕ) (port : ℕ) (txt : Txt) (st : State)
    → HasPorts st
    → HasPorts (airplay_record inst host port txt st)
unfolding airplay_record
airplay_record-HasPorts inst host port txt st h = record {
  raop = λ e. ground (
    arith,
    h.raop e,
    ports-airplay_texts inst txt
        (record st.device { ap_instance = inst; host = host; airplay_port = port }),
  );
  airplay = λ e. ground (arith, e);
}

-- The record that a report brings counts as seen, and the other stays as it was.
pub raop_record-seen :
    (inst host : List ℕ) (port : ℕ) (txt : Txt) (st : State)
    → ((raop_record inst host port txt st).last_seen_raop ≡ true)
      × ((raop_record inst host port txt st).last_seen_airplay ≡ st.last_seen_airplay)
unfolding raop_record
raop_record-seen inst host port txt st = (refl, refl)

pub airplay_record-seen :
    (inst host : List ℕ) (port : ℕ) (txt : Txt) (st : State)
    → ((airplay_record inst host port txt st).last_seen_airplay ≡ true)
      × ((airplay_record inst host port txt st).last_seen_raop ≡ st.last_seen_raop)
unfolding airplay_record
airplay_record-seen inst host port txt st = (refl, refl)

pub raop_record-port :
    (inst host : List ℕ) (port : ℕ) (txt : Txt) (st : State)
    → ports (raop_record inst host port txt st).device ≡ (port, st.device.airplay_port)
unfolding raop_record
raop_record-port inst host port txt st =
    ports-raop_texts inst txt
      (record st.device { raop_instance = inst; host = host; raop_port = port })

pub airplay_record-port :
    (inst host : List ℕ) (port : ℕ) (txt : Txt) (st : State)
    → ports (airplay_record inst host port txt st).device ≡ (st.device.raop_port, port)
unfolding airplay_record
airplay_record-port inst host port txt st =
    ports-airplay_texts inst txt
      (record st.device { ap_instance = inst; host = host; airplay_port = port })
