-- ===== src/Lms/Icy/Interval.antt =====
-- The interval of the metadata in the headers of a response.
use squeeze2raop.Base.{
  ℕ, ◌+◌, ◌^◌, ◌≡◌, refl, ap, ◌∙◌, arith, List, [], ◌∷◌, ◌++◌, true, false, none, some,
  if◌then◌else◌, ltb, ◌==◌, ◌||◌, length, drop, codes, All, find_text-FirstAt, FirstAt, Nowhere,
  find_text-Nowhere, Bool, leb, not, ◌&&◌, from_chars, from_chars-number, number, IsDigit, Stops,
  digit_value,
}
use squeeze2raop.Common.Util.{to_lower}
use squeeze2raop.Lms.Icy.{parse_icy_metaint, metaint_behind, metaint_value, skip_blanks, ends_value}

abbrev pub metaint_name : List ℕ
metaint_name = codes "icy-metaint:"

-- Blanks behind the name.
abbrev pub IsBlank : ℕ → Type 0
IsBlank c = (c == 32 || c == 9) ≡ true

skip_blanks-All :
    (blanks rest : List ℕ) → All IsBlank blanks → skip_blanks (blanks ++ rest) ≡ skip_blanks rest
unfolding skip_blanks
skip_blanks-All [] rest h = refl
skip_blanks-All (c ∷ blanks) rest (h, hs) = rw h (skip_blanks-All blanks rest hs)

skip_blanks-digit : (c : ℕ) (s : List ℕ) → IsDigit 10 c → skip_blanks (c ∷ s) ≡ c ∷ s
unfolding skip_blanks digit_value
skip_blanks-digit c s (d, e) = ground (arith, e)

-- What may stand behind the number: the end of the text, of the line, or a blank.
ends_number : List ℕ → Bool
ends_number [] = true
ends_number (c ∷ rest) = c == 13 || (c == 10 || (c == 32 || c == 9))

-- The interval that a number and what stands behind it give.
unfoldable pub interval : ℕ → List ℕ → ℕ
unfolding ends_number
interval v rest = if not (v == 0) && (leb v 1048576 && ends_number rest) then v else 0

metaint_value-number :
    (v : ℕ) (rest : List ℕ)
    → metaint_value (if ltb v (2 ^ 64) then some (v, rest) else none) ≡ interval v rest
unfolding metaint_value interval ends_value ends_number
metaint_value-number v [] = ground arith
metaint_value-number v (c ∷ rest) = ground arith

drop_name :
    (before rest : List ℕ) → drop (length before + 12) (before ++ (metaint_name ++ rest)) ≡ rest
drop_name [] rest = refl
drop_name (c ∷ before) rest = ground (arith, drop_name before rest)

parse_number_line :
    (headers before blanks digits rest : List ℕ) (c : ℕ)
    → to_lower headers ≡ before ++ (metaint_name ++ (blanks ++ (c ∷ (digits ++ rest))))
    → FirstAt metaint_name (length before) (to_lower headers)
    → All IsBlank blanks
    → All (IsDigit 10) (c ∷ digits)
    → Stops 10 rest
    → parse_icy_metaint headers ≡ interval (number 10 0 (c ∷ digits)) rest
unfolding parse_icy_metaint metaint_behind
parse_number_line headers before blanks digits rest c shape first blank digit stop =
    ap (λ o. metaint_behind o (to_lower headers))
      (find_text-FirstAt metaint_name (length before) (to_lower headers) first)
    ∙ ap (λ s. metaint_value (from_chars 10 (2 ^ 64) (skip_blanks s)))
        (ap (drop (length before + 12)) shape ∙ drop_name before (blanks ++ (c ∷ (digits ++ rest))))
    ∙ ap (λ s. metaint_value (from_chars 10 (2 ^ 64) s))
        (skip_blanks-All blanks (c ∷ (digits ++ rest)) blank
          ∙ skip_blanks-digit c (digits ++ rest) digit.0)
    ∙ ap metaint_value (from_chars-number 10 (2 ^ 64) c digits rest digit stop)
    ∙ metaint_value-number (number 10 0 (c ∷ digits)) rest

-- A text that begins with neither a blank nor a digit.
abbrev pub NoNumber : List ℕ → Type 0
NoNumber [] = Unit {0}
NoNumber (c ∷ s) = ((c == 32 || c == 9) ≡ false) × (digit_value 10 c ≡ none)

metaint_value-NoNumber :
    (rest : List ℕ) → NoNumber rest → metaint_value (from_chars 10 (2 ^ 64) (skip_blanks rest)) ≡ 0
unfolding metaint_value from_chars skip_blanks
metaint_value-NoNumber [] h = refl
metaint_value-NoNumber (c ∷ rest) h = ground (arith, h.0, h.1)

parse_word_line :
    (headers before blanks rest : List ℕ)
    → to_lower headers ≡ before ++ (metaint_name ++ (blanks ++ rest))
    → FirstAt metaint_name (length before) (to_lower headers)
    → All IsBlank blanks
    → NoNumber rest
    → parse_icy_metaint headers ≡ 0
unfolding parse_icy_metaint metaint_behind
parse_word_line headers before blanks rest shape first blank none_there =
    ap (λ o. metaint_behind o (to_lower headers))
      (find_text-FirstAt metaint_name (length before) (to_lower headers) first)
    ∙ ap (λ s. metaint_value (from_chars 10 (2 ^ 64) (skip_blanks s)))
        (ap (drop (length before + 12)) shape ∙ drop_name before (blanks ++ rest))
    ∙ ap (λ s. metaint_value (from_chars 10 (2 ^ 64) s)) (skip_blanks-All blanks rest blank)
    ∙ metaint_value-NoNumber rest none_there

-- What headers in lower case say of the interval: nothing, no number, or a number and what follows it.
pub data Says (s : List ℕ) : ℕ → Type 0 where
  missing : Nowhere metaint_name s → Says s 0
  no_number :
      (before blanks rest : List ℕ)
      → s ≡ before ++ (metaint_name ++ (blanks ++ rest))
      → FirstAt metaint_name (length before) s
      → All IsBlank blanks
      → NoNumber rest
      → Says s 0
  numbered :
      (before blanks digits rest : List ℕ) (c : ℕ)
      → s ≡ before ++ (metaint_name ++ (blanks ++ (c ∷ (digits ++ rest))))
      → FirstAt metaint_name (length before) s
      → All IsBlank blanks
      → All (IsDigit 10) (c ∷ digits)
      → Stops 10 rest
      → Says s (interval (number 10 0 (c ∷ digits)) rest)

-- The interval is what the headers say in lower case. Without the name it is 0. Behind the first
-- place of the name, and blanks, a decimal number from 1 to 2 ^ 20 that the text, the line or a blank
-- ends is the interval; any other number, however long, a number with junk behind it, and no number
-- give 0.
pub parse_icy_metaint-interval :
    (headers : List ℕ) (v : ℕ) → Says (to_lower headers) v → parse_icy_metaint headers ≡ v
unfolding parse_icy_metaint metaint_behind
parse_icy_metaint-interval headers v (missing n) =
    ap (λ o. metaint_behind o (to_lower headers))
      (find_text-Nowhere metaint_name (to_lower headers) n)
parse_icy_metaint-interval headers v (no_number before blanks rest shape first blank word) =
    parse_word_line headers before blanks rest shape first blank word
parse_icy_metaint-interval headers v
      (numbered before blanks digits rest c shape first blank digit stop) =
    parse_number_line headers before blanks digits rest c shape first blank digit stop
