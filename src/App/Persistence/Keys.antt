-- ===== src/App/Persistence/Keys.antt =====
-- src/app/persistence.cpp: the values of the keys. A key that is not valid gives the text of its error.
use squeeze2raop.Base.{
  ℕ, ◌+◌, ◌-◌, ◌^◌, List, [], ◌∷◌, ◌++◌, Bool, true, false, not, ◌&&◌, ◌||◌, Option, none, some,
  ltb, ◌==◌, if◌then◌else◌, length, take, drop, reverse, codes, find_byte, from_chars, same_bytes,
}
use squeeze2raop.Common.Util.{trim_view, to_lower, mac_from_string}
use squeeze2raop.App.Config.{ResamplerQuality, best, medium, fast, linear}

pub data Parsed {ℓ} (A : Type ℓ) : Type ℓ where
  good : A → Parsed A
  bad : List ℕ → Parsed A

infixl 5 ◌>>=◌
abbrev pub ◌>>=◌ {ℓ κ} : {A : Type ℓ} {B : Type κ} → Parsed A → (A → Parsed B) → Parsed B
good a >>= f = f a
bad e >>= f = bad e

abbrev same : List ℕ → List ℕ → Bool
same = same_bytes

-- The spellings of a Boolean.
is_true_value : List ℕ → Bool
is_true_value s =
    same s (codes "on") || (same s (codes "true") || (same s (codes "yes") || same s (codes "1")))

is_false_value : List ℕ → Bool
is_false_value s =
    same s (codes "off") || (same s (codes "false") || (same s (codes "no") || same s (codes "0")))

parse_bool : List ℕ → Option Bool
unfolding is_true_value is_false_value trim_view to_lower
parse_bool v =
    let s = to_lower (trim_view v) in
    if is_true_value s then some true else if is_false_value s then some false else none

-- The number must end the text.
whole : Option (ℕ × List ℕ) → Option ℕ
whole none = none
whole (some (v, [])) = some v
whole (some (v, c ∷ s)) = none

unfoldable pub parse_number : ℕ → List ℕ → Option ℕ
unfolding whole from_chars
parse_number limit s = whole (from_chars 10 limit s)

-- An int: the sign and the magnitude.
parse_int : List ℕ → Option (Bool × ℕ)
unfolding parse_number
parse_int [] = none
parse_int (c ∷ s) =
    if c == b'-'
    then elim (parse_number (2 ^ 31 + 1) s) [ none ↦ none | some v ↦ some (not (v == 0), v) ]
    else elim (parse_number (2 ^ 31) (c ∷ s)) [ none ↦ none | some v ↦ some (false, v) ]

parse_port : List ℕ → Option ℕ
unfolding parse_number
parse_port s = elim (parse_number (2 ^ 16) s) [
  | none ↦ none
  | some p ↦ if p == 0 then none else some p
]

-- `boolKey`, `numberKey` and `macKey`.
unfoldable pub bool_key : List ℕ → List ℕ → Parsed Bool
unfolding parse_bool
bool_key value key = elim (parse_bool value) [
  | none ↦ bad (key ++ codes " must be on|off")
  | some b ↦ good b
]

in_limits : Bool → ℕ → ℕ → ℕ → List ℕ → List ℕ → Parsed ℕ
in_limits negative v lo hi key expect =
    if negative || (ltb v lo || ltb hi v)
    then bad (key ++ (codes " must be " ++ expect))
    else good v

unfoldable pub int_key : List ℕ → ℕ → ℕ → List ℕ → List ℕ → Parsed ℕ
unfolding parse_int in_limits
int_key value lo hi key expect = elim (parse_int value) [
  | none ↦ bad (key ++ codes " must be a number")
  | some (negative, v) ↦ in_limits negative v lo hi key expect
]

unfoldable pub unsigned_key : List ℕ → ℕ → ℕ → List ℕ → List ℕ → Parsed ℕ
unfolding parse_number in_limits
unsigned_key value lo hi key expect = elim (parse_number (2 ^ 32) value) [
  | none ↦ bad (key ++ codes " must be a number")
  | some v ↦ in_limits false v lo hi key expect
]

mac_result : List ℕ → List ℕ × Bool → Parsed (List ℕ)
mac_result value (mac, true) = good mac
mac_result value (mac, false) = bad (codes "invalid mac '" ++ (value ++ codes "'"))

unfoldable pub mac_key : List ℕ → Parsed (List ℕ)
unfolding mac_result mac_from_string
mac_key value = mac_result value (mac_from_string value)

-- The front and the back of a quoted text; a backslash takes the byte behind it as it is.
unescape : List ℕ → List ℕ
unescape [] = []
unescape (c ∷ []) = c ∷ []
unescape (c ∷ d ∷ s) =
    let escaped = d ∷ unescape s in
    let plain = c ∷ unescape (d ∷ s) in if c == 92 then escaped else plain

is_quoted : List ℕ → List ℕ → Bool
is_quoted (c ∷ d ∷ s) (e ∷ back) = c == 34 && e == 34
is_quoted s back = false

unfoldable pub unquote : List ℕ → List ℕ
unfolding unescape is_quoted
unquote s = if is_quoted s (reverse s) then unescape (take (length s - 2) (drop 1 s)) else s

-- A host with a port behind the first ':', or alone.
unfoldable pub host_and_port : List ℕ → List ℕ → Parsed (List ℕ × Option ℕ)
unfolding parse_port find_byte
host_and_port value error = elim (find_byte b':' value) [
  | none ↦ good (value, none)
  | some colon ↦ elim (parse_port (drop (colon + 1) value)) [
    | none ↦ bad error
    | some port ↦ good (take colon value, some port)
  ]
]

-- One of some words, or an error.
unfoldable pub word2 {ℓ} : {A : Type ℓ} → List ℕ → List ℕ → A → List ℕ → A → List ℕ → Parsed A
word2 value k a j b error =
    if same value k then good a else if same value j then good b else bad error

unfoldable pub word3 {ℓ} :
    {A : Type ℓ} → List ℕ → List ℕ → A → List ℕ → A → List ℕ → A → List ℕ → Parsed A
word3 value k a j b i c error =
    if same value k
    then good a
    else if same value j
    then good b
    else if same value i
    then good c
    else bad error

-- A limit of the source's silence: 0 turns it off.
unfoldable pub source_timeout : Option ℕ → Parsed ℕ
source_timeout none = bad (codes "source-timeout-ms must be a number")
source_timeout (some v) =
    if not (v == 0) && (ltb v 1000 || ltb 600000 v)
    then bad (codes "source-timeout-ms must be 0 (off) or 1000-600000")
    else good v

unfoldable pub resampler_key : List ℕ → Parsed ResamplerQuality
resampler_key value =
    if same value (codes "best")
    then good best
    else word3 value (codes "medium") medium (codes "fast") fast (codes "linear") linear
        (codes "resampler-quality must be best, medium, fast or linear")

unfoldable pub log_key : List ℕ → Parsed ℕ
log_key value =
    if same value (codes "off")
    then good 0
    else if same value (codes "error")
    then good 1
    else word3 value (codes "warn") 2 (codes "info") 3 (codes "debug") 4
        (codes "log must be off|error|warn|info|debug")
