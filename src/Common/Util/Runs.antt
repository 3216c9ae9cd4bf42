-- ===== src/Common/Util/Runs.antt =====
-- The text helpers on concrete texts, and the theorems about them there.
use squeeze2raop.Base.{
  ℕ, ◌≡◌, refl, arith, List, [], ◌∷◌, ◌++◌, true, false, some, inr, codes, All, find_key, find_byte,
  digit_value, scan_digits,
}
use squeeze2raop.Common.Util.{
  fake_mac_for, mac_to_string, mac_from_string, url_decode, trim_view, hash32, parse_txt_key_values,
}
use squeeze2raop.Common.Util.Mac.{mac_from_string-mac_to_string}
use squeeze2raop.Common.Util.Txt.{
  TxtItem, alone, keyed, IsTxtItem, encode_txt, first_value, parse_txt_key_values-encode_txt,
}

decoded_url : url_decode (codes "a%20b+c%2") ≡ codes "a b c%2"
unfolding url_decode
decoded_url = refl

trimmed : trim_view (codes " a b  ") ≡ codes "a b"
unfolding trim_view
trimmed = refl

hashed : hash32 (codes "a") ≡ 0xe40c292c
unfolding hash32
hashed = refl

written_mac : mac_to_string (0xaa ∷ 0 ∷ 1 ∷ []) ≡ codes "aa:00:01"
unfolding mac_to_string
written_mac = refl

junk_behind_mac : (mac_from_string (codes "aa:0:1:2:3:4 ")).1 ≡ false
unfolding mac_from_string digit_value scan_digits
junk_behind_mac = refl

abbrev kitchen_mac : List ℕ
kitchen_mac = 0xaa ∷ 0x12 ∷ 0xff ∷ 0 ∷ 9 ∷ 1 ∷ []

mac_from_string-mac_to_string_example :
    (mac_from_string (mac_to_string kitchen_mac) ≡ (kitchen_mac, true))
    × (mac_from_string (mac_to_string (fake_mac_for (codes "kitchen")))
        ≡ (fake_mac_for (codes "kitchen"), true))
mac_from_string-mac_to_string_example =
    mac_from_string-mac_to_string kitchen_mac (codes "kitchen") (omega arith) (omega arith)

abbrev items : List TxtItem
items =
    keyed (codes "am") (codes "One") ∷ alone (codes "pw") ∷ keyed (codes "am") (codes "Two") ∷ []

items-IsTxtItem : All IsTxtItem items
unfolding find_byte
items-IsTxtItem = (
  record { plain = refl; some_bytes = omega arith; one_byte = omega arith },
  (
    record { plain = refl; some_bytes = omega arith; one_byte = omega arith },
    (record { plain = refl; some_bytes = omega arith; one_byte = omega arith }, tt),
  ),
)

parse_txt_key_values-encode_txt_example :
    find_key (codes "am") (parse_txt_key_values (encode_txt items ++ (9 ∷ 1 ∷ [])))
    ≡ some (codes "One")
unfolding first_value
parse_txt_key_values-encode_txt_example =
    parse_txt_key_values-encode_txt items (codes "am") (9 ∷ 1 ∷ []) items-IsTxtItem
      (inr (omega arith))
