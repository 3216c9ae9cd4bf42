-- ===== src/Lms/Icy/Runs.antt =====
-- The metadata's texts on concrete requests and responses, and the theorems about them there.
use squeeze2raop.Base.{
  ℕ, ◌≡◌, refl, List, [], ◌∷◌, ◌++◌, none, some, codes, find_text, first_of_below, all_below,
  digit_value, number, scan_digits, from_chars,
}
use squeeze2raop.Common.Util.{to_lower}
use squeeze2raop.Lms.Icy.{
  with_icy_request_header, parse_icy_metaint, parse_stream_title, crlf, icy_header,
}
use squeeze2raop.Lms.Icy.Request.{with_icy_request_header-insert}
use squeeze2raop.Lms.Icy.Interval.{numbered, interval, metaint_name, parse_icy_metaint-interval}

title : parse_stream_title (codes "StreamTitle='A song';x") ≡ some (codes "A song")
unfolding parse_stream_title
title = refl

empty_title : parse_stream_title (codes "StreamTitle='';") ≡ none
unfolding parse_stream_title
empty_title = refl

junk_behind_interval : parse_icy_metaint (codes "icy-metaint:8192abc") ≡ 0
unfolding parse_icy_metaint from_chars digit_value scan_digits
junk_behind_interval = refl

abbrev first_line : List ℕ
first_line = codes "GET / HTTP/1.0"

with_icy_request_header-insert_example :
    (with_icy_request_header (first_line ++ (crlf ++ (crlf ++ [])))
      ≡ first_line ++ (crlf ++ (icy_header ++ (crlf ++ []))))
    × (with_icy_request_header (with_icy_request_header first_line)
        ≡ with_icy_request_header first_line)
unfolding find_text all_below
with_icy_request_header-insert_example =
    with_icy_request_header-insert first_line [] first_line refl
      (refl, first_of_below (crlf ++ crlf) 14 (first_line ++ (crlf ++ (crlf ++ []))) refl)

abbrev response : List ℕ
response = codes "ICY 200" ++ (crlf ++ (codes "Icy-MetaInt: 8192" ++ crlf))

parse_icy_metaint-interval_example : parse_icy_metaint response ≡ 8192
unfolding interval to_lower all_below digit_value number
parse_icy_metaint-interval_example = parse_icy_metaint-interval response 8192 (
    numbered (codes "icy 200" ++ crlf) (32 ∷ []) (codes "192") crlf b'8' refl
      (refl, first_of_below metaint_name 9 (to_lower response) refl) (refl, tt)
      ((8, refl), ((1, refl), ((9, refl), ((2, refl), tt)))) refl)
