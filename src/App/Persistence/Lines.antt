-- ===== src/App/Persistence/Lines.antt =====
-- `parse`, line by line.
use squeeze2raop.Base.{
  ℕ, suc, ◌+◌, ◌-◌, List, [], ◌∷◌, ◌++◌, Bool, true, false, not, ◌&&◌, ◌||◌, Option, none, some,
  ◌==◌, ltb, if◌then◌else◌, length, take, drop, reverse, codes, get_elem?, same_bytes, find_byte,
}
use squeeze2raop.Common.Util.{trim_view, to_lower}
use squeeze2raop.App.Config.{Outside, ResolvedPlayerConfig, no_player, default_global, PlayerConfig}
use squeeze2raop.App.Persistence.{
  Section, Kind, blank, comment, header, key, other, Line, Persistence, new_section, ensure_section,
  update_at, assign_mac,
}
use squeeze2raop.App.Persistence.Keys.{Parsed, good, bad, ◌>>=◌, unquote}
use squeeze2raop.App.Persistence.Parse.{parse_global_key, parse_player_key}
use squeeze2raop.App.Persistence.Operations.{World, finalized, flush_if_dirty}

-- `std::getline` over the text: the lines without their ends, none behind the last end.
before_line : ℕ → List (List ℕ) → List (List ℕ)
before_line c [] = (c ∷ []) ∷ []
before_line c (l ∷ ls) = (c ∷ l) ∷ ls

unfoldable pub split_lines : List ℕ → List (List ℕ)
unfolding before_line
split_lines [] = []
split_lines (c ∷ s) = let rest = split_lines s in if c == 10 then [] ∷ rest else before_line c rest

unfoldable pub strip_cr : List ℕ → List ℕ
strip_cr [] = []
strip_cr (c ∷ []) = if c == 13 then [] else c ∷ []
strip_cr (c ∷ d ∷ s) = c ∷ strip_cr (d ∷ s)

-- What a line is, by its own text.
pub data Shape : Type 0 where
  nothing remark bracket no_key : Shape
  keyed : List ℕ → List ℕ → List ℕ → Shape

-- The blanks behind the '='.
unfoldable pub blanks : List ℕ → Option ℕ
blanks [] = none
blanks (c ∷ s) =
    if c == 32 || c == 9 then elim (blanks s) [ none ↦ none | some n ↦ some (suc n) ] else some 0

value_prefix_of : ℕ → List ℕ → List ℕ
unfolding blanks
value_prefix_of eq raw = elim (blanks (drop (eq + 1) raw)) [
  | none ↦ raw ++ (32 ∷ [])
  | some n ↦ take (eq + 1 + n) raw
]

key_shape : Option ℕ → List ℕ → Shape
unfolding value_prefix_of to_lower trim_view unquote
key_shape none raw = no_key
key_shape (some eq) raw =
    keyed (to_lower (trim_view (take eq raw))) (unquote (trim_view (drop (eq + 1) raw)))
      (value_prefix_of eq raw)

shape_by : List ℕ → List ℕ → Shape
unfolding key_shape find_byte
shape_by [] raw = nothing
shape_by (c ∷ trimmed) raw =
    if c == b'#' || c == b';'
    then remark
    else if c == b'['
    then bracket
    else key_shape (find_byte b'=' raw) raw

unfoldable pub shape_of : List ℕ → Shape
unfolding shape_by trim_view
shape_of raw = shape_by (trim_view raw) raw

-- The name of a section by its header.
inner_of : List ℕ → List ℕ → Option (List ℕ)
unfolding trim_view
inner_of (c ∷ d ∷ t) (e ∷ back) =
    if c == b'[' && e == b']' then some (trim_view (take (length (d ∷ t) - 1) (d ∷ t))) else none
inner_of t back = none

unfoldable pub player_name : List ℕ → Option (List ℕ)
unfolding unquote
player_name [] = none
player_name (c ∷ rest) = some (unquote (c ∷ rest))

section_name : List ℕ → Option (List ℕ)
unfolding player_name to_lower trim_view
section_name inner =
    if same_bytes inner (codes "global") || same_bytes inner (codes "default")
    then some inner
    else if not (ltb (length inner) 6) && same_bytes (to_lower (take 6 inner)) (codes "player")
    then player_name (trim_view (drop 6 inner))
    else none

unfoldable pub parse_section_header : List ℕ → Option (List ℕ)
unfolding inner_of section_name trim_view
parse_section_header raw =
    let t = trim_view raw in
    elim (inner_of t (reverse t)) [ none ↦ none | some inner ↦ section_name inner ]

pub data Current : Type 0 where
  outside in_global in_default unknown : Current
  in_player : ℕ → Current

pub record ParseState : Type 0 where
  pub store : Persistence
  pub current : Current
  pub current_name : List ℕ

abbrev pub plain_line : Kind → List ℕ → Line
plain_line kind raw = record {
  kind = kind;
  raw = raw;
  section = [];
  key_name = [];
  value = [];
  value_prefix = [];
}

unfoldable pub add_line : Line → ParseState → ParseState
add_line l r = record r { store = record r.store { lines = r.store.lines ++ (l ∷ []) } }

unfoldable pub enter_player : List ℕ → ParseState → Persistence × ℕ → ParseState
enter_player name r (p, i) = record r {
  store = record p {
    sections =
        update_at i (λ s. record s { config = record s.config { name = some name } }) p.sections;
  };
  current = in_player i;
}

unfoldable pub enter : List ℕ → ParseState → ParseState
unfolding enter_player ensure_section update_at
enter name r =
    if same_bytes name (codes "global")
    then record r { current = in_global }
    else if same_bytes name (codes "default")
    then record r { current = in_default }
    else enter_player name r (ensure_section name name false r.store)

unfoldable pub read_header : Option (List ℕ) → List ℕ → ParseState → ParseState
unfolding add_line enter
read_header none raw r = add_line (plain_line other raw) (record r { current = unknown })
read_header (some name) raw r =
    add_line (record (plain_line header raw) { section = name })
      (enter name (record r { current_name = name }))

unfoldable pub default_section : PlayerConfig → Section
default_section c = record (new_section [] false) { config = c }

unfoldable pub set_section : ℕ → ParseState → Section → ParseState
unfolding update_at
set_section i r s = record r {
  store = record r.store { sections = update_at i (λ old. s) r.store.sections };
}

unfoldable pub player_key_at :
    Outside → List ℕ → List ℕ → ℕ → ParseState → Option Section → Parsed ParseState
unfolding parse_player_key set_section
player_key_at out k v i r none = good r
player_key_at out k v i r (some s) =
    parse_player_key out false k v s >>= (λ t. good (set_section i r t))

-- The value goes where the section says.
unfoldable pub take_key : Outside → Current → List ℕ → List ℕ → ParseState → Parsed ParseState
unfolding parse_global_key parse_player_key player_key_at default_section
take_key out outside k v r = good r
take_key out unknown k v r = good r
take_key out in_global k v r =
    parse_global_key k v r.store.global
    >>= (λ g. good (record r { store = record r.store { global = g } }))
take_key out in_default k v r =
    parse_player_key out true k v (default_section r.store.defaults)
    >>= (λ s. good (record r { store = record r.store { defaults = s.config } }))
take_key out (in_player i) k v r = player_key_at out k v i r (get_elem? r.store.sections i)

abbrev pub key_line : List ℕ → List ℕ → List ℕ → List ℕ → List ℕ → Line
key_line raw section k v prefix = record {
  kind = key;
  raw = raw;
  section = section;
  key_name = k;
  value = v;
  value_prefix = prefix;
}

unfoldable pub read_shape : Outside → Shape → List ℕ → ParseState → Parsed ParseState
unfolding add_line read_header take_key parse_section_header
read_shape out nothing raw r = good (add_line (plain_line blank raw) r)
read_shape out remark raw r = good (add_line (plain_line comment raw) r)
read_shape out bracket raw r = good (read_header (parse_section_header raw) raw r)
read_shape out no_key raw r = good (add_line (plain_line other raw) r)
read_shape out (keyed k v prefix) raw r =
    take_key out r.current k v r
    >>= (λ r'. good (add_line (key_line raw r.current_name k v prefix) r'))

-- The lines from number `n` on: the reading, or the number of the line in error and its message.
pub data ParseOutcome : Type 0 where
  finished : ParseState → ParseOutcome
  failed : ℕ → List ℕ → ParseOutcome

unfoldable pub read_next : ℕ → (ParseState → ParseOutcome) → Parsed ParseState → ParseOutcome
read_next n next (good r) = next r
read_next n next (bad message) = failed n message

unfoldable pub read_lines : Outside → ℕ → List (List ℕ) → ParseState → ParseOutcome
unfolding read_next read_shape shape_of strip_cr
read_lines out n [] r = finished r
read_lines out n (l ∷ ls) r =
    let raw = strip_cr l in
    read_next n (read_lines out (suc n) ls) (read_shape out (shape_of raw) raw r)

-- Every section gets its address.
unfoldable pub assign_all : ℕ → List Section → Persistence → Persistence
unfolding assign_mac
assign_all i [] p = p
assign_all i (s ∷ ss) p = assign_all (suc i) ss (assign_mac i p)

unfoldable pub places : ℕ → List Section → List ℕ
places i [] = []
places i (s ∷ ss) = i ∷ places (suc i) ss

abbrev pub cleared : Persistence → ParseState
cleared p = record {
  store = record p { lines = []; sections = []; defaults = no_player; global = default_global };
  current = outside;
  current_name = [];
}

unfoldable pub parse : Outside → List ℕ → Persistence → ParseOutcome
unfolding read_lines split_lines
parse out text p = read_lines out 1 (split_lines text) (cleared p)

unfoldable pub resolved_all : Bool → World → ParseState → World × List ResolvedPlayerConfig
unfolding assign_all places finalized flush_if_dirty
resolved_all writable w r =
    let p = assign_all 0 r.store.sections r.store in
    (flush_if_dirty writable (record w { store = p }), finalized p (places 0 r.store.sections))

-- `open`, for a file with this text: the new state and the players, or the error.
pub data Opened : Type 0 where
  ready : World × List ResolvedPlayerConfig → Opened
  refused : ℕ → List ℕ → Opened

unfoldable pub opened_by : Bool → World → ParseOutcome → Opened
unfolding resolved_all
opened_by writable w (finished r) = ready (resolved_all writable w r)
opened_by writable w (failed n message) = refused n message

unfoldable pub open_text : Outside → List ℕ → Bool → World → Opened
unfolding opened_by parse
open_text out text writable w = opened_by writable w (parse out text w.store)
