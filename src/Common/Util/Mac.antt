-- ===== src/Common/Util/Mac.antt =====
-- A hardware address is read back from its text.
use squeeze2raop.Base.{
  ℕ, zero, suc, ◌/◌, ◌%◌, ◌^◌, ◌<◌, ◌≡◌, refl, ◌∙◌, arith, List, [], ◌∷◌, ◌++◌, Bool, true, false,
  Option, none, some, ◌==◌, ==_iff, length, All, IsByte, all_below, all_below_sound, digit_value,
  from_chars, number, Stops, from_chars-number,
}
use squeeze2raop.Common.Util.{
  hex_digit, two_hex, fake_mac_for, mac_to_string, mac_from_string, octets, last_octet, inner_octet,
}

is_some_value : ℕ → Option ℕ → Bool
is_some_value d none = false
is_some_value d (some v) = d == v

is_some_value-eq : (d : ℕ) (o : Option ℕ) → is_some_value d o ≡ true → o ≡ some d
unfolding is_some_value
is_some_value-eq d none h = cc
is_some_value-eq d (some v) h = ground (arith, (==_iff d v).0 h)

hex_table : all_below 16 (λ d. is_some_value d (digit_value 16 (hex_digit d))) ≡ true
unfolding all_below is_some_value digit_value hex_digit
hex_table = refl

digit_value-hex_digit : (d : ℕ) → d < 16 → digit_value 16 (hex_digit d) ≡ some d
digit_value-hex_digit d h =
    is_some_value-eq d _
      (all_below_sound 16 (λ d. is_some_value d (digit_value 16 (hex_digit d))) d hex_table h)

number-two_hex : (b : ℕ) → IsByte b → number 16 0 (two_hex b) ≡ b
unfolding number two_hex
number-two_hex b h = ground (
  arith,
  digit_value-hex_digit (b / 16) (omega arith),
  digit_value-hex_digit (b % 16) (omega arith),
)

from_chars-two_hex :
    (b : ℕ) (rest : List ℕ)
    → IsByte b
    → Stops 16 rest
    → from_chars 16 (2 ^ 32) (two_hex b ++ rest) ≡ some (b, rest)
unfolding two_hex
from_chars-two_hex b rest h s =
    let written : number 16 0 (hex_digit (b / 16) ∷ hex_digit (b % 16) ∷ []) ≡ b =
      number-two_hex b h in
    from_chars-number 16 (2 ^ 32) (hex_digit (b / 16)) (hex_digit (b % 16) ∷ []) rest
      (
        (b / 16, digit_value-hex_digit (b / 16) (omega arith)),
        ((b % 16, digit_value-hex_digit (b % 16) (omega arith)), tt),
      )
      s
    ∙ ground (arith, written)

colon-Stops : (s : List ℕ) → Stops 16 (b':' ∷ s)
unfolding digit_value
colon-Stops s = refl

octets-mac_to_string :
    (n : ℕ) (mac : List ℕ)
    → length mac ≡ suc n
    → All IsByte mac
    → octets (suc n) (mac_to_string mac) ≡ (mac, true)
unfolding octets mac_to_string last_octet inner_octet
octets-mac_to_string n [] len h = absurd (omega arith)
octets-mac_to_string zero (b ∷ []) len (h, _) = ground (arith, from_chars-two_hex b [] h tt)
octets-mac_to_string (suc n) (b ∷ []) len h = absurd (omega arith)
octets-mac_to_string zero (b ∷ c ∷ mac) len h = absurd (omega arith)
octets-mac_to_string (suc n) (b ∷ c ∷ mac) len (h, hs) =
    let first : from_chars 16 (2 ^ 32) (two_hex b ++ (b':' ∷ mac_to_string (c ∷ mac)))
        ≡ some (b, b':' ∷ mac_to_string (c ∷ mac)) =
      from_chars-two_hex b (b':' ∷ mac_to_string (c ∷ mac)) h
        (colon-Stops (mac_to_string (c ∷ mac))) in
    ground (arith, first, octets-mac_to_string n (c ∷ mac) (omega arith) hs)

octets_back :
    (mac : List ℕ)
    → length mac ≡ 6
    → All IsByte mac
    → mac_from_string (mac_to_string mac) ≡ (mac, true)
unfolding mac_from_string
octets_back mac len h = octets-mac_to_string 5 mac len h

fake_mac_for-octets : (id : List ℕ) → (length (fake_mac_for id) ≡ 6) × All IsByte (fake_mac_for id)
unfolding fake_mac_for
fake_mac_for-octets id = (
  refl,
  (omega arith, (omega arith, (omega arith, (omega arith, (omega arith, (omega arith, tt)))))),
)

-- An address of six octets is read back from its text, and so is the address derived from any name.
pub mac_from_string-mac_to_string :
    (mac id : List ℕ)
    → length mac ≡ 6
    → All IsByte mac
    → (mac_from_string (mac_to_string mac) ≡ (mac, true))
      × (mac_from_string (mac_to_string (fake_mac_for id)) ≡ (fake_mac_for id, true))
mac_from_string-mac_to_string mac id len h = (
  octets_back mac len h,
  octets_back (fake_mac_for id) (fake_mac_for-octets id).0 (fake_mac_for-octets id).1,
)
