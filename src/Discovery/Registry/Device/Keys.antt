-- ===== src/Discovery/Registry/Device/Keys.antt =====
-- The RAOP and the AirPlay record of a receiver have one key.
use squeeze2raop.Base.{
  ℕ, zero, suc, ◌≡◌, refl, ap, ◌∙◌, arith, List, [], ◌∷◌, ◌++◌, true, length, length-append, take,
  drop, All, lower_byte, is_hex_digit,
}
use squeeze2raop.Common.Util.{to_lower}
use squeeze2raop.Discovery.Registry.Device.{keep_hex, all_hex, ends_id, normalize_hex_key, key_for}

abbrev pub IsHexByte : ℕ → Type 0
IsHexByte c = is_hex_digit c ≡ true

-- The digits in pairs, joined by ':'.
unfoldable pub colons : List ℕ → List ℕ
colons [] = []
colons (a ∷ []) = a ∷ []
colons (a ∷ b ∷ []) = a ∷ b ∷ []
colons (a ∷ b ∷ c ∷ s) = a ∷ b ∷ b':' ∷ colons (c ∷ s)

is_hex_digit-lower_byte : (c : ℕ) → IsHexByte c → IsHexByte (lower_byte c)
is_hex_digit-lower_byte c h = ground arith

keep_hex-digit :
    (c : ℕ) (s : List ℕ) → IsHexByte c → keep_hex (lower_byte c ∷ s) ≡ lower_byte c ∷ keep_hex s
unfolding keep_hex
keep_hex-digit c s h =
    let low : IsHexByte (lower_byte c) = is_hex_digit-lower_byte c h in rw low refl

keep_hex-colon : (s : List ℕ) → keep_hex (lower_byte b':' ∷ s) ≡ keep_hex s
unfolding keep_hex
keep_hex-colon s = refl

keep_hex-to_lower : (s : List ℕ) → All IsHexByte s → keep_hex (to_lower s) ≡ to_lower s
unfolding to_lower keep_hex
keep_hex-to_lower [] h = refl
keep_hex-to_lower (c ∷ s) (h, hs) =
    keep_hex-digit c (to_lower s) h ∙ ap (◌∷◌ (lower_byte c)) (keep_hex-to_lower s hs)

keep_hex-to_lower-colons :
    (s : List ℕ) → All IsHexByte s → keep_hex (to_lower (colons s)) ≡ to_lower s
unfolding to_lower keep_hex colons
keep_hex-to_lower-colons [] h = refl
keep_hex-to_lower-colons (a ∷ []) h = keep_hex-to_lower (a ∷ []) h
keep_hex-to_lower-colons (a ∷ b ∷ []) h = keep_hex-to_lower (a ∷ b ∷ []) h
keep_hex-to_lower-colons (a ∷ b ∷ c ∷ s) (h, (k, hs)) =
    keep_hex-digit a (to_lower (b ∷ b':' ∷ colons (c ∷ s))) h
    ∙ ap (◌∷◌ (lower_byte a)) (
        keep_hex-digit b (to_lower (b':' ∷ colons (c ∷ s))) k
        ∙ ap (◌∷◌ (lower_byte b))
            (keep_hex-colon (to_lower (colons (c ∷ s))) ∙ keep_hex-to_lower-colons (c ∷ s) hs))

take_front : (n : ℕ) (s t : List ℕ) → length s ≡ n → take n (s ++ t) ≡ s
take_front zero [] t e = refl
take_front zero (c ∷ s) t e = absurd (omega arith)
take_front (suc n) [] t e = absurd (omega arith)
take_front (suc n) (c ∷ s) t e = ap (◌∷◌ c) (take_front n s t (omega arith))

drop_front : (n : ℕ) (s t : List ℕ) → length s ≡ n → drop n (s ++ t) ≡ t
drop_front zero [] t e = refl
drop_front zero (c ∷ s) t e = absurd (omega arith)
drop_front (suc n) [] t e = absurd (omega arith)
drop_front (suc n) (c ∷ s) t e = drop_front n s t (omega arith)

take_whole : (n : ℕ) (s : List ℕ) → length s ≡ n → take n s ≡ s
take_whole zero [] e = refl
take_whole zero (c ∷ s) e = absurd (omega arith)
take_whole (suc n) [] e = absurd (omega arith)
take_whole (suc n) (c ∷ s) e = ap (◌∷◌ c) (take_whole n s (omega arith))

pub length-to_lower : (s : List ℕ) → length (to_lower s) ≡ length s
unfolding to_lower
length-to_lower [] = refl
length-to_lower (c ∷ s) = ap suc (length-to_lower s)

-- A text with twelve hexadecimal digits in lower case gives these.
normalize_hex_key-digits :
    (raw s : List ℕ)
    → keep_hex (to_lower raw) ≡ to_lower s
    → length s ≡ 12
    → normalize_hex_key raw ≡ to_lower s
unfolding normalize_hex_key
normalize_hex_key-digits raw s e len =
    ground
      (arith, e, length-to_lower s, take_whole 12 (to_lower s) (omega (arith, length-to_lower s)))

all_hex-All : (s : List ℕ) → All IsHexByte s → all_hex s ≡ true
unfolding all_hex
all_hex-All [] h = refl
all_hex-All (c ∷ s) (h, hs) = rw (h, all_hex-All s hs)

pub normalize_hex_key-colons :
    (s : List ℕ) → length s ≡ 12 → All IsHexByte s → normalize_hex_key (colons s) ≡ to_lower s
normalize_hex_key-colons s len h =
    normalize_hex_key-digits (colons s) s (keep_hex-to_lower-colons s h) len

pub key_for-raop :
    (s name : List ℕ) → length s ≡ 12 → All IsHexByte s → key_for (s ++ (b'@' ∷ name)) ≡ to_lower s
unfolding key_for ends_id
key_for-raop s name len h = ground (
  arith,
  length-append s (b'@' ∷ name),
  take_front 12 s (b'@' ∷ name) len,
  drop_front 12 s (b'@' ∷ name) len,
  all_hex-All s h,
  normalize_hex_key-digits s s (keep_hex-to_lower s h) len,
)
