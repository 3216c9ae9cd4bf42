-- ===== src/Lms/Icy.antt =====
-- src/lms/icy_meta.cpp: the request for in-band metadata and what the server answers to it.
pub mod Interval
pub mod Request
mod Runs
use squeeze2raop.Base.{
  ℕ, suc, ◌+◌, ◌-◌, ◌^◌, List, [], ◌∷◌, ◌++◌, Bool, true, false, not, ◌&&◌, ◌||◌, Option, none,
  some, ltb, ◌==◌, if◌then◌else◌, length, take, drop, codes, find_byte, find_text, from_chars,
  same_bytes,
}
use squeeze2raop.Common.Util.{to_lower}

abbrev pub crlf : List ℕ
crlf = 13 ∷ 10 ∷ []

abbrev pub icy_header : List ℕ
icy_header = codes "Icy-MetaData: 1" ++ crlf

ends_crlf : List ℕ → Bool
ends_crlf request = ltb 1 (length request) && same_bytes (drop (length request - 2) request) crlf

-- The request has no header yet; the place is that of the blank line.
insert_header : Option ℕ → List ℕ → List ℕ
unfolding ends_crlf
insert_header (some end) request = take (end + 2) request ++ (icy_header ++ drop (end + 2) request)
insert_header none request =
    if ends_crlf request then request ++ icy_header else request ++ (crlf ++ icy_header)

with_header : Option ℕ → List ℕ → List ℕ
with_header (some i) request = request
with_header none request = insert_header (find_text (crlf ++ crlf) request) request

unfoldable pub with_icy_request_header : List ℕ → List ℕ
unfolding insert_header with_header find_text
with_icy_request_header request = with_header (find_text (codes "Icy-MetaData") request) request

skip_blanks : List ℕ → List ℕ
skip_blanks [] = []
skip_blanks (c ∷ s) = if c == 32 || c == 9 then skip_blanks s else c ∷ s

-- The value must end at the end of the text, of the line, or at a blank.
ends_value : List ℕ → Bool
ends_value [] = true
ends_value (c ∷ s) = c == 13 || (c == 10 || (c == 32 || c == 9))

metaint_value : Option (ℕ × List ℕ) → ℕ
unfolding ends_value
metaint_value none = 0
metaint_value (some (v, rest)) =
    if v == 0 || ltb (2 ^ 20) v then 0 else if ends_value rest then v else 0

-- The text behind the name of the header.
metaint_behind : Option ℕ → List ℕ → ℕ
unfolding skip_blanks metaint_value
metaint_behind none lower = 0
metaint_behind (some p) lower =
    metaint_value (from_chars 10 (2 ^ 64) (skip_blanks (drop (p + 12) lower)))

unfoldable pub parse_icy_metaint : List ℕ → ℕ
unfolding metaint_behind find_text to_lower
parse_icy_metaint headers =
    let lower = to_lower headers in metaint_behind (find_text (codes "icy-metaint:") lower) lower

non_empty : List ℕ → Option (List ℕ)
non_empty [] = none
non_empty (c ∷ s) = some (c ∷ s)

-- The text behind the key, up to its quote.
title_in : List ℕ → Option ℕ → Option (List ℕ)
unfolding non_empty
title_in s none = none
title_in s (some e) = non_empty (take e s)

title_behind : Option ℕ → List ℕ → Option (List ℕ)
unfolding title_in
title_behind none block = none
title_behind (some p) block = let s = drop (p + 13) block in title_in s (find_byte 39 s)

unfoldable pub parse_stream_title : List ℕ → Option (List ℕ)
unfolding title_behind find_text find_byte
parse_stream_title block = title_behind (find_text (codes "StreamTitle='") block) block
