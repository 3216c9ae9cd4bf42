-- ===== src/App/Persistence.antt =====
-- src/app/persistence: the configuration and state file. This module has the state, the search of a
-- section and the operations; Keys and Parse have the parser, and Save the printer.
pub mod Keys
pub mod Parse
pub mod Save
pub mod Operations
pub mod Lines
pub mod Verbatim
pub mod Kept
pub mod Addresses
pub mod Opening
mod Runs
use squeeze2raop.Base.{
  ℕ, zero, suc, ◌+◌, ◌%◌, List, [], ◌∷◌, ◌++◌, Bool, true, false, not, ◌&&◌, ◌||◌, Option, none,
  some, ◌==◌, if◌then◌else◌, length, get_elem?, same_bytes, is_hex_digit, u8,
}
use squeeze2raop.Common.Util.{to_lower, fake_mac_for}
use squeeze2raop.App.Config.{
  GlobalConfig, default_global, PlayerConfig, no_player, ResolvedPlayerConfig, value_or,
  resolve_player,
}

pub record Section : Type 0 where
  pub name : List ℕ
  pub config : PlayerConfig
  pub auto_registered : Bool
  pub has_mac : Bool
  pub mac : List ℕ
  pub creds : List ℕ
  pub has_name_override : Bool

pub data Kind : Type 0 where
  blank comment header key other : Kind

pub record Line : Type 0 where
  pub kind : Kind
  pub raw : List ℕ
  pub section : List ℕ
  pub key_name : List ℕ
  pub value : List ℕ
  pub value_prefix : List ℕ

pub record Persistence : Type 0 where
  pub lines : List Line
  pub sections : List Section
  pub defaults : PlayerConfig
  pub global : GlobalConfig
  pub dirty : Bool

abbrev pub empty : Persistence
empty = record {
  lines = [];
  sections = [];
  defaults = no_player;
  global = default_global;
  dirty = false;
}

abbrev pub new_section : List ℕ → Bool → Section
new_section name auto = record {
  name = name;
  config = record no_player { name = some name };
  auto_registered = auto;
  has_mac = false;
  mac = 0 ∷ 0 ∷ 0 ∷ 0 ∷ 0 ∷ 0 ∷ [];
  creds = [];
  has_name_override = false;
}

-- The first section with a property, by its place.
pub first : (Section → Bool) → List Section → Option ℕ
first p [] = none
first p (s ∷ ss) = if p s then some 0 else elim (first p ss) [ none ↦ none | some i ↦ some (suc i) ]

pub same_lower : List ℕ → List ℕ → Bool
unfolding to_lower
same_lower a b = same_bytes (to_lower a) (to_lower b)

has_id : List ℕ → Section → Bool
unfolding same_lower
has_id k s = elim (s.config.id) [ none ↦ false | some id ↦ not (length id == 0) && same_lower id k ]

has_name : List ℕ → Section → Bool
unfolding same_lower
has_name k s = same_lower s.name k

or_else : Option ℕ → Option ℕ → Option ℕ
or_else (some i) o = some i
or_else none o = o

-- By id, then by name.
unfoldable pub find_section : List ℕ → List Section → Option ℕ
unfolding first has_id has_name or_else
find_section k ss = or_else (first (has_id k) ss) (first (has_name k) ss)

unfoldable pub update_at : ℕ → (Section → Section) → List Section → List Section
update_at i f [] = []
update_at zero f (s ∷ ss) = f s ∷ ss
update_at (suc i) f (s ∷ ss) = s ∷ update_at i f ss

name_or_key : List ℕ → List ℕ → List ℕ
name_or_key [] k = k
name_or_key (c ∷ name) k = c ∷ name

-- The place of the section, which is made at the end where there is none.
pub ensured : Option ℕ → List ℕ → List ℕ → Bool → Persistence → Persistence × ℕ
unfolding name_or_key
ensured (some i) k name auto p = (p, i)
ensured none k name auto p = (
  record p { sections = p.sections ++ (new_section (name_or_key name k) auto ∷ []) },
  length p.sections,
)

unfoldable pub ensure_section : List ℕ → List ℕ → Bool → Persistence → Persistence × ℕ
unfolding ensured find_section
ensure_section k name auto p = ensured (find_section k p.sections) k name auto p

has_mac_of : List ℕ → List Section → Bool
has_mac_of mac [] = false
has_mac_of mac (s ∷ ss) = (s.has_mac && same_bytes s.mac mac) || has_mac_of mac ss

-- The section at place `i` itself is passed over.
has_conflict : List ℕ → ℕ → List Section → Bool
has_conflict mac i [] = false
has_conflict mac zero (s ∷ ss) = has_mac_of mac ss
has_conflict mac (suc i) (s ∷ ss) = (s.has_mac && same_bytes s.mac mac) || has_conflict mac i ss

bump_last : List ℕ → List ℕ
bump_last [] = []
bump_last (b ∷ []) = u8 (b + 1) ∷ []
bump_last (b ∷ c ∷ mac) = b ∷ bump_last (c ∷ mac)

-- The tries that are left.
unfoldable pub free_mac : ℕ → ℕ → List Section → List ℕ → List ℕ
unfolding has_conflict has_mac_of bump_last
free_mac zero i ss mac = mac
free_mac (suc n) i ss mac =
    let next = free_mac n i ss (bump_last mac) in if has_conflict mac i ss then next else mac

unfoldable pub set_mac : List ℕ → Section → Section
set_mac mac s = record s { mac = mac; has_mac = true; config = record s.config { mac = some mac } }

unfoldable pub assigned : Option Section → ℕ → Persistence → Persistence
assigned none i p = p
assigned (some s) i p = if s.has_mac then p else record p {
  sections =
      update_at i (set_mac (free_mac 256 i p.sections (fake_mac_for (value_or s.config.id s.name))))
        p.sections;
  dirty = true;
}

unfoldable pub assign_mac : ℕ → Persistence → Persistence
unfolding assigned
assign_mac i p = assigned (get_elem? p.sections i) i p

section_key : Option (List ℕ) → Section → List ℕ
unfolding to_lower
section_key none s = s.name
section_key (some []) s = s.name
section_key (some (c ∷ id)) s = to_lower (c ∷ id)

is_present : Option (List ℕ) → Bool
is_present none = false
is_present (some m) = true

unfoldable pub finalize_section : PlayerConfig → Section → ResolvedPlayerConfig
unfolding section_key is_present resolve_player
finalize_section defaults s = record (resolve_player defaults s.config) {
  mac = s.mac;
  explicit_mac = is_present s.config.mac;
  key = section_key s.config.id s;
  auto_registered = s.auto_registered;
}
