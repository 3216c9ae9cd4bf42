-- ===== src/Discovery/Registry/Device/Features.antt =====
-- The two words of `features`.
use mathlib.Core.Path.{subst}
use mathlib.Core.List.{append-nil, reverse-cons, reverse-reverse}
use squeeze2raop.Base.{
  reverse, not, is_space, ℕ, ◌+◌, ◌*◌, ◌^◌, ◌<◌, ◌≡◌, refl, sym, arith, List, [], ◌∷◌, ◌++◌, Bool,
  true, ◌&&◌, none, some, ltb, ◌==◌, if◌then◌else◌, length, drop, take_self, All, bit_or-shift, u32,
  find_byte, find_byte-append, from_chars-number, number, IsDigit, digit_value,
}
use squeeze2raop.Common.Util.{trim_view, trim_front, trim_back}
use squeeze2raop.Discovery.Registry.Device.{
  strip_0x, parsed_or_zero, features_word, features_loop, parse_airplay_features,
}

-- How a word is written: "0x" and its digits, or the digits alone.
abbrev pub prefixed : List ℕ → List ℕ
prefixed s = b'0' ∷ b'x' ∷ s

-- The 32 bits of a word that digits write; a number of more than 64 bits counts as 0.
pub word_value : List ℕ → ℕ
unfolding number
word_value ds = if ltb (number 16 0 ds) (2 ^ 64) then u32 (number 16 0 ds) else 0

plain_byte : ℕ → Bool
plain_byte c = not (is_space c) && not (c == b',')

plain_byte-IsDigit : (c : ℕ) → IsDigit 16 c → plain_byte c ≡ true
unfolding plain_byte digit_value
plain_byte-IsDigit c (d, e) = ground (arith, e)

plain_digits : (ds : List ℕ) → All (IsDigit 16) ds → All (λ c. plain_byte c ≡ true) ds
plain_digits [] h = h
plain_digits (c ∷ ds) (h, hs) = (plain_byte-IsDigit c h, plain_digits ds hs)

All-append {ℓ} : (P : ℕ → Type ℓ) (xs ys : List ℕ) → All P xs → All P ys → All P (xs ++ ys)
All-append P [] ys h k = k
All-append P (x ∷ xs) ys (h, hs) k = (h, All-append P xs ys hs k)

All-reverse {ℓ} : (P : ℕ → Type ℓ) (xs : List ℕ) → All P xs → All P (reverse xs)
All-reverse P [] h = h
All-reverse P (x ∷ xs) (h, hs) =
    subst (All P) (sym (reverse-cons x xs))
      (All-append P (reverse xs) (x ∷ []) (All-reverse P xs hs) (h, tt))

trim_front_plain : (s : List ℕ) → All (λ c. plain_byte c ≡ true) s → trim_front s ≡ s
unfolding trim_front plain_byte
trim_front_plain [] h = refl
trim_front_plain (c ∷ s) (h, hs) = ground (arith, h)

trim_view_plain : (s : List ℕ) → All (λ c. plain_byte c ≡ true) s → trim_view s ≡ s
unfolding trim_view
trim_view_plain s h = rw (trim_front_plain s h) (
    unfold trim_back in
    rw (trim_front_plain (reverse s) (All-reverse (λ c. plain_byte c ≡ true) s h))
      (reverse-reverse s))

plain_prefixed : (ds : List ℕ) → All (IsDigit 16) ds → All (λ c. plain_byte c ≡ true) (prefixed ds)
unfolding plain_byte
plain_prefixed ds h = (refl, (refl, plain_digits ds h))

parsed_or_zero_digits :
    (c : ℕ) (ds : List ℕ)
    → All (IsDigit 16) (c ∷ ds)
    → u32 (parsed_or_zero 16 (c ∷ ds)) ≡ word_value (c ∷ ds)
unfolding parsed_or_zero word_value
parsed_or_zero_digits c ds h =
    ground (arith, append-nil ds, from_chars-number 16 (2 ^ 64) c ds [] h tt)

features_word-prefixed :
    (c : ℕ) (ds : List ℕ)
    → All (IsDigit 16) (c ∷ ds)
    → features_word (prefixed (c ∷ ds)) ≡ word_value (c ∷ ds)
unfolding features_word
features_word-prefixed c ds h =
    rw (trim_view_plain (prefixed (c ∷ ds)) (plain_prefixed (c ∷ ds) h))
      (unfold strip_0x in parsed_or_zero_digits c ds h)

find_byte_plain : (s : List ℕ) → All (λ c. plain_byte c ≡ true) s → find_byte b',' s ≡ none
unfolding find_byte plain_byte
find_byte_plain [] h = refl
find_byte_plain (c ∷ s) (h, hs) = ground (arith, h, find_byte_plain s hs)

drop_past_byte : (c : ℕ) (k v : List ℕ) → drop (length k + 1) (k ++ (c ∷ v)) ≡ v
drop_past_byte c [] v = refl
drop_past_byte c (x ∷ k) v = ground (arith, drop_past_byte c k v)

word_value_bound : (ds : List ℕ) → word_value ds < 2 ^ 32
unfolding word_value
word_value_bound ds = ground arith

-- Two words of hexadecimal digits behind "0x", joined by a comma, are read with the low word first:
-- each counts modulo 2 ^ 32, and one that no uint64_t holds counts as 0.
pub parse_airplay_features_words :
    (c d : ℕ) (lo hi : List ℕ)
    → All (IsDigit 16) (c ∷ lo)
    → All (IsDigit 16) (d ∷ hi)
    → parse_airplay_features (prefixed (c ∷ lo) ++ (b',' ∷ prefixed (d ∷ hi)))
      ≡ word_value (c ∷ lo) + word_value (d ∷ hi) * 2 ^ 32
unfolding parse_airplay_features features_loop
parse_airplay_features_words c d lo hi h k =
    let low = prefixed (c ∷ lo) in
    let high = prefixed (d ∷ hi) in
    let comma : find_byte b',' (low ++ (b',' ∷ high)) ≡ some (length low) =
      find_byte-append b',' low high (find_byte_plain low (plain_prefixed (c ∷ lo) h)) in
    let last : find_byte b',' high ≡ none = find_byte_plain high (plain_prefixed (d ∷ hi) k) in
    ground (
      arith,
      comma,
      last,
      take_self low (b',' ∷ high),
      drop_past_byte b',' low high,
      features_word-prefixed c lo h,
      features_word-prefixed d hi k,
      bit_or-shift 0 (word_value (c ∷ lo)) 0 (omega arith),
      bit_or-shift 32 (word_value (d ∷ hi)) (word_value (c ∷ lo)) (word_value_bound (c ∷ lo)),
    )
