-- ===== src/Discovery/Registry/Device.antt =====
-- src/discovery/device_registry: a receiver, the parsers of its fields, and the key of a record.
pub mod Features
pub mod Keys
use squeeze2raop.Base.{
  ℕ, zero, suc, ◌+◌, ◌*◌, ◌/◌, ◌%◌, ◌^◌, ◌<◌, List, [], ◌∷◌, ◌++◌, Bool, true, false, not, ◌&&◌,
  ◌||◌, Option, none, some, ltb, leb, ◌==◌, if◌then◌else◌, length, take, drop, u32, codes, bit_or,
  is_hex_digit, find_byte, find_text, from_chars, same_bytes, Dict, find_key, put_key, erase_key,
}
use squeeze2raop.Common.Util.{to_lower, trim_view}

pub record AirplayDevice : Type 0 where
  pub id : List ℕ
  pub name : List ℕ
  pub raop_instance : List ℕ
  pub ap_instance : List ℕ
  pub host : List ℕ
  pub raop_port : ℕ
  pub airplay_port : ℕ
  pub features : ℕ
  pub pk : List ℕ
  pub model : List ℕ
  pub manufacturer : List ℕ
  pub pw : Bool
  pub encrypted : Bool

abbrev pub Txt : Type 0
Txt = Dict (List ℕ)

has_raop_port : AirplayDevice → Bool
has_raop_port d = not (d.raop_port == 0)

has_airplay_port : AirplayDevice → Bool
has_airplay_port d = not (d.airplay_port == 0)

-- Bits 38 and 48 of `features`, and bit 41.
unfoldable pub airplay2 : AirplayDevice → Bool
airplay2 d = d.features / 2 ^ 38 % 2 == 1 || d.features / 2 ^ 48 % 2 == 1

supports_ptp : AirplayDevice → Bool
supports_ptp d = d.features / 2 ^ 41 % 2 == 1

has_sonos : List ℕ → Bool
has_sonos [] = false
has_sonos (c ∷ s) = elim (find_text (codes "sonos") (to_lower (c ∷ s))) [
  | none ↦ false
  | some i ↦ true
]

unfoldable pub is_sonos_device : AirplayDevice → Bool
unfolding has_sonos to_lower find_text
is_sonos_device d = has_sonos d.manufacturer || has_sonos d.model

use_airplay2 : AirplayDevice → Bool
unfolding has_airplay_port airplay2
use_airplay2 d = has_airplay_port d && airplay2 d

unfoldable pub preferred_port : AirplayDevice → ℕ
unfolding use_airplay2
preferred_port d =
    if use_airplay2 d
    then d.airplay_port
    else if d.raop_port == 0
    then d.airplay_port
    else d.raop_port

-- A word of `features`: its blanks and its prefix are dropped, and what is no number counts as 0.
unfoldable pub strip_0x : List ℕ → List ℕ
strip_0x (a ∷ b ∷ c ∷ s) = if a == b'0' && (b == b'x' || b == b'X') then c ∷ s else a ∷ b ∷ c ∷ s
strip_0x s = s

unfoldable pub parsed_or_zero : ℕ → List ℕ → ℕ
parsed_or_zero base s = elim (from_chars base (2 ^ 64) s) [ none ↦ 0 | some (v, rest) ↦ v ]

unfoldable pub features_word : List ℕ → ℕ
unfolding strip_0x parsed_or_zero from_chars trim_view
features_word part = u32 (parsed_or_zero 16 (strip_0x (trim_view part)))

-- The loop over two words at most: `word` is the shift's factor, and the text begins at `pos`.
features_loop : ℕ → ℕ → List ℕ → ℕ → ℕ
features_loop zero word raw features = features
features_loop (suc n) word raw features = elim (find_byte b',' raw) [
  | none ↦ bit_or (features_word raw * word) features
  | some comma ↦
      features_loop n (word * 2 ^ 32) (drop (comma + 1) raw)
        (bit_or (features_word (take comma raw) * word) features)
]

unfoldable pub parse_airplay_features : List ℕ → ℕ
unfolding features_loop
parse_airplay_features raw = features_loop 2 1 raw 0

unfoldable pub keep_hex : List ℕ → List ℕ
keep_hex [] = []
keep_hex (c ∷ s) = if is_hex_digit c then c ∷ keep_hex s else keep_hex s

unfoldable pub normalize_hex_key : List ℕ → List ℕ
unfolding keep_hex to_lower
normalize_hex_key raw =
    let hex = keep_hex (to_lower raw) in if ltb (length hex) 12 then [] else take 12 hex

unfoldable pub all_hex : List ℕ → Bool
all_hex [] = true
all_hex (c ∷ s) = is_hex_digit c && all_hex s

-- `instance.size() == 12`, or one of the separators stands behind the first twelve bytes.
unfoldable pub ends_id : List ℕ → Bool
ends_id [] = true
ends_id (c ∷ s) = c == b'@' || (c == b'.' || (c == b'_' || c == b' '))

unfoldable pub key_for : List ℕ → List ℕ
key_for inst =
    if leb 12 (length inst) && (all_hex (take 12 inst) && ends_id (drop 12 inst))
    then normalize_hex_key (take 12 inst)
    else inst

pub record State : Type 0 where
  pub device : AirplayDevice
  pub last_seen_raop : Bool
  pub last_seen_airplay : Bool

abbrev pub no_device : AirplayDevice
no_device = record {
  id = [];
  name = [];
  raop_instance = [];
  ap_instance = [];
  host = [];
  raop_port = 0;
  airplay_port = 0;
  features = 0;
  pk = [];
  model = [];
  manufacturer = [];
  pw = false;
  encrypted = false;
}

-- What `devices_[key]` creates.
abbrev pub no_state : State
no_state = record { device = no_device; last_seen_raop = false; last_seen_airplay = false }
