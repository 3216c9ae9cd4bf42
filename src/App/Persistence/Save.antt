-- ===== src/App/Persistence/Save.antt =====
-- `saveLocked`: the lines of the file that is written.
use squeeze2raop.Base.{
  ℕ, List, [], ◌∷◌, ◌++◌, Bool, true, false, not, ◌&&◌, ◌||◌, Option, none, some, ◌==◌,
  if◌then◌else◌, length, codes, same_bytes,
}
use squeeze2raop.Common.Util.{mac_to_string}
use squeeze2raop.App.Config.{value_or}
use squeeze2raop.App.Persistence.{Section, header, key, Line, Persistence}

abbrev pub key_mac : List ℕ
key_mac = codes "mac"

abbrev pub key_creds : List ℕ
key_creds = codes "creds"

abbrev pub key_name_word : List ℕ
key_name_word = codes "name"

abbrev pub key_auto : List ℕ
key_auto = codes "auto"

unfoldable pub is_managed : List ℕ → Bool
is_managed k = same_bytes k key_mac || (same_bytes k key_creds || same_bytes k key_name_word)

one_line : List ℕ → List ℕ
one_line [] = []
one_line (c ∷ s) = (if c == 10 || c == 13 then 32 else c) ∷ one_line s

unfoldable pub section_by_name : List ℕ → List Section → Option Section
section_by_name n [] = none
section_by_name n (s ∷ ss) = if same_bytes s.name n then some s else section_by_name n ss

is_key_line : List ℕ → List ℕ → Line → Bool
is_key_line k section l = elim (l.kind) [
  | key ↦ same_bytes l.key_name k && same_bytes l.section section
  | _ ↦ false
]

-- A line of the file has the key in the section.
has_line : List ℕ → List ℕ → List Line → Bool
unfolding is_key_line
has_line k section [] = false
has_line k section (l ∷ ls) = is_key_line k section l || has_line k section ls

is_header_of : List ℕ → Line → Bool
is_header_of name l = elim (l.kind) [ header ↦ same_bytes l.section name | _ ↦ false ]

header_seen : List ℕ → List Line → Bool
unfolding is_header_of
header_seen name [] = false
header_seen name (l ∷ ls) = is_header_of name l || header_seen name ls

unfoldable pub when : Bool → List ℕ → List (List ℕ)
when true l = l ∷ []
when false l = []

shown_name : Section → List ℕ
shown_name s = value_or s.config.name s.name

-- A managed key of a known section, by its new value.
managed_line : Line → Section → List (List ℕ)
unfolding when one_line mac_to_string shown_name
managed_line l s =
    if same_bytes l.key_name key_mac
    then when s.has_mac (l.value_prefix ++ mac_to_string s.mac)
    else if same_bytes l.key_name key_creds
    then when (not (length s.creds == 0)) (l.value_prefix ++ one_line s.creds)
    else when s.has_name_override (l.value_prefix ++ shown_name s)

unfoldable pub rewritten : Line → Option Section → List (List ℕ)
unfolding managed_line
rewritten l none = l.raw ∷ []
rewritten l (some s) = managed_line l s

-- The managed keys of a section that its lines do not have, behind its header.
missing_lines : List Line → List ℕ → Option Section → List (List ℕ)
unfolding when one_line mac_to_string shown_name has_line
missing_lines ls section none = []
missing_lines ls section (some s) =
    when (s.has_mac && not (has_line key_mac section ls)) (codes "mac = " ++ mac_to_string s.mac)
    ++ (when (not (length s.creds == 0) && not (has_line key_creds section ls))
          (codes "creds = " ++ one_line s.creds)
        ++ (when (s.has_name_override && not (has_line key_name_word section ls))
              (codes "name = " ++ shown_name s)
            ++ when (s.auto_registered && not (has_line key_auto section ls))
                (codes "auto = true")))

unfoldable pub is_managed_line : Line → Bool
unfolding is_managed
is_managed_line l = elim (l.kind) [ key ↦ is_managed l.key_name | _ ↦ false ]

unfoldable pub behind_header : List Line → List Section → Line → List (List ℕ)
unfolding missing_lines section_by_name
behind_header ls ss l = elim (l.kind) [
  | header ↦ missing_lines ls l.section (section_by_name l.section ss)
  | _ ↦ []
]

unfoldable pub written_line : List Line → List Section → Line → List (List ℕ)
unfolding is_managed_line rewritten section_by_name behind_header
written_line ls ss l =
    if is_managed_line l
    then rewritten l (section_by_name l.section ss)
    else l.raw ∷ behind_header ls ss l

unfoldable pub written_lines : List Line → List Section → List Line → List (List ℕ)
unfolding written_line
written_lines ls ss [] = []
written_lines ls ss (l ∷ rest) = written_line ls ss l ++ written_lines ls ss rest

id_line : Option (List ℕ) → List (List ℕ)
id_line none = []
id_line (some []) = []
id_line (some (c ∷ id)) = (codes "id = " ++ (c ∷ id)) ∷ []

-- A section that has no header in the file yet.
new_section_lines : Section → List (List ℕ)
unfolding when id_line one_line mac_to_string shown_name
new_section_lines s =
    []
    ∷ (codes "[player \"" ++ (s.name ++ codes "\"]"))
    ∷ (id_line s.config.id
        ++ (when s.has_mac (codes "mac = " ++ mac_to_string s.mac)
            ++ (when (not (length s.creds == 0)) (codes "creds = " ++ one_line s.creds)
                ++ (when s.has_name_override (codes "name = " ++ shown_name s)
                    ++ when s.auto_registered (codes "auto = true")))))

unfoldable pub new_sections : List Line → List Section → List (List ℕ)
unfolding header_seen new_section_lines
new_sections ls [] = []
new_sections ls (s ∷ ss) =
    (if header_seen s.name ls then [] else new_section_lines s) ++ new_sections ls ss

unfoldable pub save_locked : Persistence → List (List ℕ)
unfolding written_lines new_sections
save_locked p = written_lines p.lines p.sections p.lines ++ new_sections p.lines p.sections
