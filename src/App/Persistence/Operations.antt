-- ===== src/App/Persistence/Operations.antt =====
-- The operations of `Persistence`. A save replaces the file when the system can write it: its answer
-- is given, and the file, as its lines, is part of the state.
use squeeze2raop.Base.{
  ℕ, suc, List, [], ◌∷◌, Bool, true, false, not, ◌&&◌, ◌||◌, Option, none, some, ◌==◌,
  if◌then◌else◌, length, get_elem?, same_bytes, is_hex_digit,
}
use squeeze2raop.Common.Util.{to_lower, fake_mac_for}
use squeeze2raop.App.Config.{ResolvedPlayerConfig}
use squeeze2raop.App.Persistence.{
  Section, Persistence, first, same_lower, find_section, ensure_section, update_at, assign_mac,
  finalize_section,
}
use squeeze2raop.App.Persistence.Save.{save_locked}

pub record World : Type 0 where
  pub store : Persistence
  pub file : List (List ℕ)

-- `saveLocked`.
unfoldable pub save : Bool → World → World
unfolding save_locked
save writable w = if writable then record w { file = save_locked w.store } else w

unfoldable pub flush_if_dirty : Bool → World → World
unfolding save
flush_if_dirty writable w =
    if w.store.dirty
    then (let w' = save writable w in record w' { store = record w'.store { dirty = false } })
    else w

-- Every section that was not made by discovery, in the order of the file.
unfoldable pub static_from : ℕ → List Section → Persistence → Persistence × List ℕ
unfolding assign_mac
static_from i [] p = (p, [])
static_from i (s ∷ ss) p =
    let p' = if s.auto_registered then p else assign_mac i p in
    let rest = static_from (suc i) ss p' in
    (rest.0, if s.auto_registered then rest.1 else i ∷ rest.1)

unfoldable pub finalized : Persistence → List ℕ → List ResolvedPlayerConfig
unfolding finalize_section
finalized p [] = []
finalized p (i ∷ is) = elim (get_elem? p.sections i) [
  | none ↦ finalized p is
  | some s ↦ finalize_section p.defaults s ∷ finalized p is
]

unfoldable pub static_players : Bool → World → World × List ResolvedPlayerConfig
unfolding static_from finalized flush_if_dirty
static_players writable w =
    let (p, places) = static_from 0 w.store.sections w.store in
    (flush_if_dirty writable (record w { store = p }), finalized p places)

creds_in : Option Section → Option (List ℕ)
creds_in none = none
creds_in (some s) = if length s.creds == 0 then none else some s.creds

unfoldable pub section_at : Option ℕ → Persistence → Option Section
section_at none p = none
section_at (some i) p = get_elem? p.sections i

creds_for : List ℕ → Persistence → Option (List ℕ)
unfolding creds_in section_at find_section
creds_for k p = creds_in (section_at (find_section k p.sections) p)

unfoldable pub with_creds : Option ℕ → List ℕ → Bool → World → World
unfolding save update_at
with_creds none creds writable w = w
with_creds (some i) creds writable w = save writable (record w {
  store = record w.store {
    sections = update_at i (λ s. record s { creds = creds }) w.store.sections;
  };
})

unfoldable pub save_creds : List ℕ → List ℕ → Bool → World → World
unfolding with_creds find_section
save_creds k creds writable w = with_creds (find_section k w.store.sections) creds writable w

is_named : List ℕ → Option (List ℕ) → Bool
is_named name none = false
is_named name (some n) = same_bytes n name

unfoldable pub renamed : List ℕ → Section → Section
renamed name s = record s {
  config = record s.config { name = some name };
  has_name_override = true;
}

unfoldable pub with_name : Option ℕ → Option Section → List ℕ → Bool → World → World
unfolding save update_at is_named renamed
with_name none s name writable w = w
with_name (some i) none name writable w = w
with_name (some i) (some s) name writable w =
    if length name == 0 || is_named name s.config.name
    then w
    else save writable (record w {
      store = record w.store { sections = update_at i (renamed name) w.store.sections };
    })

unfoldable pub save_player_name : List ℕ → List ℕ → Bool → World → World
unfolding with_name section_at find_section
save_player_name k name writable w =
    let i = find_section k w.store.sections in with_name i (section_at i w.store) name writable w

all_hex_digits : List ℕ → Bool
all_hex_digits [] = true
all_hex_digits (c ∷ s) = is_hex_digit c && all_hex_digits s

is_hex12 : List ℕ → Bool
unfolding all_hex_digits
is_hex12 s = length s == 12 && all_hex_digits s

-- The three ways to find the section of a device: its id, the address that its id gives, its name.
has_lower_id : List ℕ → Section → Bool
unfolding to_lower
has_lower_id id s = elim (s.config.id) [ none ↦ false | some i ↦ same_bytes (to_lower i) id ]

by_id : List ℕ → List Section → Option ℕ
unfolding has_lower_id first to_lower
by_id device_id ss =
    if length device_id == 0 then none else first (has_lower_id (to_lower device_id)) ss

by_mac : List ℕ → List Section → Option ℕ
unfolding is_hex12 first fake_mac_for
by_mac device_id ss =
    if is_hex12 device_id
    then first (λ s. s.has_mac && same_bytes s.mac (fake_mac_for device_id)) ss
    else none

by_name : List ℕ → List Section → Option ℕ
unfolding first same_lower
by_name name ss = if length name == 0 then none else first (λ s. same_lower s.name name) ss

first_of : Option ℕ → Option ℕ → Option ℕ
first_of (some i) o = some i
first_of none o = o

unfoldable pub match_device : List ℕ → List ℕ → List Section → Option ℕ
unfolding by_id by_mac by_name first_of
match_device device_id name ss =
    first_of (by_id device_id ss) (first_of (by_mac device_id ss) (by_name name ss))

resolved_at : ℕ → Persistence → Option ResolvedPlayerConfig
unfolding finalize_section
resolved_at i p = elim (get_elem? p.sections i) [
  | none ↦ none
  | some s ↦ some (finalize_section p.defaults s)
]

-- A section for the device, with its id where it is one.
unfoldable pub registered : List ℕ → List ℕ → Section → Section
unfolding is_hex12
registered id k s = record s {
  config = record s.config { id = if is_hex12 k then some id else s.config.id; name = some s.name };
}

unfoldable pub adopt_name : List ℕ → Section → Section
adopt_name device_name s =
    if not s.has_name_override && not (length device_name == 0)
    then record s { config = record s.config { name = some device_name } }
    else s

unfoldable pub settled : ℕ → Persistence → Bool → World → World × Option ResolvedPlayerConfig
unfolding flush_if_dirty resolved_at
settled i p writable w = (flush_if_dirty writable (record w { store = p }), resolved_at i p)

unfoldable pub resolve_match :
    Option ℕ → List ℕ → List ℕ → Bool → Bool → World → World × Option ResolvedPlayerConfig
unfolding to_lower ensure_section update_at registered assign_mac adopt_name settled
resolve_match (some i) device_id device_name auto writable w =
    let p = assign_mac i w.store in
    settled i (record p { sections = update_at i (adopt_name device_name) p.sections }) writable w
resolve_match none device_id device_name false writable w = (w, none)
resolve_match none device_id device_name true writable w =
    let k = if length device_id == 0 then device_name else to_lower device_id in
    let name = if length device_name == 0 then k else device_name in
    let (p, i) = ensure_section k name true w.store in
    let p' = record p { sections = update_at i (registered (to_lower device_id) k) p.sections } in
    settled i (assign_mac i p') writable w

unfoldable pub resolve : List ℕ → List ℕ → Bool → Bool → World → World × Option ResolvedPlayerConfig
unfolding match_device resolve_match
resolve device_id device_name auto writable w =
    resolve_match (match_device device_id device_name w.store.sections) device_id device_name auto
      writable w
