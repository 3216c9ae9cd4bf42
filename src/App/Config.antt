-- ===== src/App/Config.antt =====
-- src/app/config.h and config.cpp: the settings and the inheritance of a player's. A volume percent is
-- a float, kept as its text; the checks of a percent and of a volume map are those of the library's
-- decimal conversion, taken as a parameter.
use squeeze2raop.Base.{ℕ, List, [], ◌∷◌, Bool, true, false, Option, none, some, codes}

pub data VolumeMode : Type 0 where
  lms fixed : VolumeMode

pub data TimingMode : Type 0 where
  auto ntp ptp : TimingMode

pub data ResamplerQuality : Type 0 where
  best medium fast linear : ResamplerQuality

-- How a decimal number in a float's range reads.
pub data Percent : Type 0 where
  no_number out_of_range in_range : Percent

pub record Outside : Type 0 where
  pub percent : List ℕ → Percent
  pub is_volume_map : List ℕ → Bool

pub record GlobalConfig : Type 0 where
  pub lms_host : Option (List ℕ)
  pub lms_port : ℕ
  pub discovery : Bool
  pub mdns_iface : List ℕ
  pub mdns_debug : Bool
  pub log_level : ℕ
  pub server_timeout_ms : ℕ
  pub source_timeout_ms : ℕ
  pub tls_verify : Bool
  pub tls_ca_path : List ℕ
  pub auto_register : Bool
  pub volume_feedback : Bool
  pub resampler_quality : ResamplerQuality

abbrev pub default_global : GlobalConfig
default_global = record {
  lms_host = none;
  lms_port = 3483;
  discovery = true;
  mdns_iface = [];
  mdns_debug = false;
  log_level = 3;
  server_timeout_ms = 35000;
  source_timeout_ms = 15000;
  tls_verify = true;
  tls_ca_path = [];
  auto_register = true;
  volume_feedback = true;
  resampler_quality = medium;
}

pub record PlayerConfig : Type 0 where
  pub id : Option (List ℕ)
  pub name : Option (List ℕ)
  pub mac : Option (List ℕ)
  pub target_host : Option (List ℕ)
  pub target_port : Option ℕ
  pub airplay2 : Option Bool
  pub timing : Option TimingMode
  pub password : Option (List ℕ)
  pub enabled : Option Bool
  pub volume_mode : Option VolumeMode
  pub volume_map : Option (List ℕ)
  pub vol_pct : Option (List ℕ)
  pub latency_ms : Option ℕ
  pub buffer_ms : Option ℕ
  pub sink_path : Option (List ℕ)
  pub pace_realtime : Option Bool
  pub creds : Option (List ℕ)
  pub auto_section : Option Bool

abbrev pub no_player : PlayerConfig
no_player = record {
  id = none;
  name = none;
  mac = none;
  target_host = none;
  target_port = none;
  airplay2 = none;
  timing = none;
  password = none;
  enabled = none;
  volume_mode = none;
  volume_map = none;
  vol_pct = none;
  latency_ms = none;
  buffer_ms = none;
  sink_path = none;
  pace_realtime = none;
  creds = none;
  auto_section = none;
}

pub record ResolvedPlayerConfig : Type 0 where
  pub key : List ℕ
  pub id : List ℕ
  pub name : List ℕ
  pub mac : List ℕ
  pub explicit_mac : Bool
  pub enabled : Bool
  pub auto_registered : Bool
  pub target : Option (List ℕ × ℕ)
  pub airplay2 : Bool
  pub timing : TimingMode
  pub password : List ℕ
  pub volume_mode : VolumeMode
  pub volume_map : List ℕ
  pub vol_pct : List ℕ
  pub latency_ms : ℕ
  pub buffer_ms : ℕ
  pub sink_path : Option (List ℕ)
  pub pace_realtime : Bool

abbrev pub value_or {ℓ} : {A : Type ℓ} → Option A → A → A
value_or none d = d
value_or (some a) d = a

-- A player's setting, or else that of [default], or else the built-in one.
pick {ℓ} : {A : Type ℓ} → Option A → Option A → A → A
pick (some a) fallback d = a
pick none (some a) d = a
pick none none d = d

either {ℓ} : {A : Type ℓ} → Option A → Option A → Option A
either (some a) o = some a
either none o = o

key_or_name : List ℕ → List ℕ → List ℕ
key_or_name [] name = name
key_or_name (c ∷ id) name = c ∷ id

fixed_target : Option (List ℕ) → Option ℕ → Option (List ℕ × ℕ)
fixed_target none port = none
fixed_target (some []) port = none
fixed_target (some (c ∷ host)) port = some (c ∷ host, value_or port 7000)

is_some {ℓ} : {A : Type ℓ} → Option A → Bool
is_some none = false
is_some (some a) = true

unfoldable pub resolve_player : PlayerConfig → PlayerConfig → ResolvedPlayerConfig
unfolding pick either key_or_name fixed_target is_some
resolve_player d p = record {
  key = key_or_name (value_or p.id []) (value_or p.name []);
  id = value_or p.id [];
  name = value_or p.name [];
  mac = value_or p.mac (0 ∷ 0 ∷ 0 ∷ 0 ∷ 0 ∷ 0 ∷ []);
  explicit_mac = is_some p.mac;
  enabled = pick p.enabled d.enabled true;
  auto_registered = value_or p.auto_section false;
  target = fixed_target p.target_host p.target_port;
  airplay2 = pick p.airplay2 d.airplay2 true;
  timing = pick p.timing d.timing auto;
  password = pick p.password d.password [];
  volume_mode = pick p.volume_mode d.volume_mode lms;
  volume_map = pick p.volume_map d.volume_map (codes "-30:1, -23:16, -15:50, 0:100");
  vol_pct = pick p.vol_pct d.vol_pct (codes "0.7");
  latency_ms = pick p.latency_ms d.latency_ms 500;
  buffer_ms = pick p.buffer_ms d.buffer_ms 500;
  sink_path = either p.sink_path d.sink_path;
  pace_realtime = pick p.pace_realtime d.pace_realtime true;
}
