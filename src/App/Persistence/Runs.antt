-- ===== src/App/Persistence/Runs.antt =====
-- A configuration file that is read, used and saved, and the theorem about it there.
use squeeze2raop.Base.{
  ℕ, get_elem?, none, false, ◌≡◌, refl, List, [], ◌∷◌, ◌++◌, true, Option, some, codes, from_chars,
  digit_value, scan_digits,
}
use squeeze2raop.App.Config.{Outside, in_range, no_player, resolve_player, ResolvedPlayerConfig}
use squeeze2raop.App.Persistence.{empty}
use squeeze2raop.App.Persistence.Keys.{unquote}
use squeeze2raop.App.Persistence.Save.{save_locked, is_managed}
use squeeze2raop.App.Persistence.Operations.{World}
use squeeze2raop.App.Persistence.Lines.{
  split_lines, open_text, parse, Opened, ready, refused, parse_section_header, failed, shape_of,
  strip_cr,
}
use squeeze2raop.App.Persistence.Verbatim.{Within, kept_lines}
use squeeze2raop.App.Persistence.Addresses.{address_at}
use squeeze2raop.App.Persistence.Opening.{open_text-address_at}
use squeeze2raop.App.Persistence.Kept.{
  static, resolved, creds, rename_to, calls, open_text-save_locked,
}

abbrev newline : List ℕ
newline = 10 ∷ []

abbrev config_text : List ℕ
config_text =
    codes "# mine"
    ++ (newline
        ++ (codes "[player \"Den\"]"
            ++ (newline
                ++ (codes "mac = 0:0:0:0:0:1" ++ (newline ++ (codes "speed = 3" ++ newline))))))

abbrev checks : Outside
checks = record { percent = λ v. in_range; is_volume_map = λ v. true }

abbrev start : World
start = record { store = empty; file = [] }

abbrev opened_pair : Opened → World × List ResolvedPlayerConfig
opened_pair (ready x) = x
opened_pair (refused n m) = (start, [])

unquoted : unquote (codes "\"a\\\"b\"") ≡ codes "a\"b"
unfolding unquote
unquoted = refl

-- A player of this name is read as the global section.
player_called_global : parse_section_header (codes "[player \"global\"]") ≡ some (codes "global")
unfolding parse_section_header
player_called_global = refl

bad_port :
    parse checks (codes "[global]" ++ (newline ++ codes "lms = a:0")) empty
    ≡ failed 2 (codes "lms port must be 1-65535")
unfolding parse from_chars digit_value scan_digits
bad_port = refl

abbrev opened_now : World × List ResolvedPlayerConfig
opened_now = opened_pair (open_text checks config_text true start)

kept_of_text :
    kept_lines (split_lines config_text)
    ≡ codes "# mine" ∷ codes "[player \"Den\"]" ∷ codes "speed = 3" ∷ []
unfolding split_lines shape_of is_managed strip_cr
kept_of_text = refl

open_text-save_locked_example : Within (kept_lines (split_lines config_text)) (
    save_locked
      (calls
        (creds (codes "den") (codes "{}") true ∷ rename_to (codes "den") (codes "Study") true ∷ [])
        opened_now.0).store)
unfolding open_text from_chars digit_value scan_digits
open_text-save_locked_example =
    open_text-save_locked checks config_text true start opened_now.0 opened_now.1
      (creds (codes "den") (codes "{}") true ∷ rename_to (codes "den") (codes "Study") true ∷ [])
      refl

abbrev player_or : ResolvedPlayerConfig → Option ResolvedPlayerConfig → ResolvedPlayerConfig
player_or d none = d
player_or d (some r) = r

abbrev den : ResolvedPlayerConfig
den = player_or (resolve_player no_player no_player) (get_elem? opened_now.1 0)

open_text-address_at_example :
    address_at 0
      (calls
        (resolved (codes "0a0b0c0d0e0f") (codes "DEN") true true
          ∷ resolved (codes "0a0b0c0d0e00") (codes "Hall") true false
          ∷ static true
          ∷ [])
        opened_now.0).store.sections
    ≡ some (0 ∷ 0 ∷ 0 ∷ 0 ∷ 0 ∷ 1 ∷ [])
unfolding open_text from_chars digit_value scan_digits
open_text-address_at_example =
    open_text-address_at checks config_text true start opened_now.0 opened_now.1
      (resolved (codes "0a0b0c0d0e0f") (codes "DEN") true true
        ∷ resolved (codes "0a0b0c0d0e00") (codes "Hall") true false
        ∷ static true
        ∷ [])
      0 den refl refl
