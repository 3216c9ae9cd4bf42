-- ===== src/Common/Util.antt =====
-- src/common/util.cpp: the small text helpers. The clock and `errnoMessage` are calls of the system.
pub mod Mac
pub mod Txt
mod Runs
use squeeze2raop.Base.{
  ℕ, zero, suc, ◌+◌, ◌-◌, ◌*◌, ◌/◌, ◌%◌, ◌^◌, ◌<◌, List, [], ◌∷◌, ◌++◌, map, reverse, Bool, true,
  false, ◌&&◌, ◌||◌, Option, none, some, ltb, ◌==◌, if◌then◌else◌, length, take, drop, u8, u32,
  bit_xor, is_space, lower_byte, hex_value, is_hex_digit, find_byte, from_chars, Dict, find_key,
  and_then,
}

-- `h ^= c; h *= 16777619u` on uint32_t.
hash_byte : ℕ → ℕ → ℕ
hash_byte h c = u32 (bit_xor h c * 16777619)

hash_from : ℕ → List ℕ → ℕ
unfolding hash_byte
hash_from h [] = h
hash_from h (c ∷ s) = hash_from (hash_byte h c) s

unfoldable pub hash32 : List ℕ → ℕ
unfolding hash_from
hash32 s = hash_from 2166136261 s

-- The front and the back of the view that shrinks.
unfoldable pub trim_front : List ℕ → List ℕ
trim_front [] = []
trim_front (c ∷ s) = if is_space c then trim_front s else c ∷ s

unfoldable pub trim_back : List ℕ → List ℕ
unfolding trim_front
trim_back s = reverse (trim_front (reverse s))

unfoldable pub trim_view : List ℕ → List ℕ
unfolding trim_front trim_back
trim_view s = trim_back (trim_front s)

unfoldable pub to_lower : List ℕ → List ℕ
to_lower = map lower_byte

-- The text of an item before and behind its first '='.
txt_key : List ℕ → List ℕ
txt_key item = elim (find_byte b'=' item) [ none ↦ item | some eq ↦ take eq item ]

txt_value : List ℕ → List ℕ
txt_value item = elim (find_byte b'=' item) [ none ↦ [] | some eq ↦ drop (eq + 1) item ]

-- `if (out.find(key) == out.end()) out[key] = value`.
add_first : List ℕ → List ℕ → Dict (List ℕ) → Dict (List ℕ)
unfolding find_key
add_first key value out = elim (find_key key out) [
  | none ↦ out ++ ((key, value) ∷ [])
  | some old ↦ out
]

-- The loop on the text from `idx` on. A round takes a byte at least, so the fuel is its length.
txt_loop : ℕ → List ℕ → Dict (List ℕ) → Dict (List ℕ)
unfolding txt_key txt_value add_first find_byte find_key
txt_loop zero raw out = out
txt_loop (suc n) [] out = out
txt_loop (suc n) (len ∷ raw) out =
    let item = take len raw in
    let rest = txt_loop n (drop len raw) (add_first (txt_key item) (txt_value item) out) in
    if len == 0 || ltb (length raw) len then out else rest

unfoldable pub parse_txt_key_values : List ℕ → Dict (List ℕ)
unfolding txt_loop
parse_txt_key_values raw = txt_loop (length raw) raw []

-- `{:02x}`.
hex_digit : ℕ → ℕ
hex_digit n = if ltb n 10 then 48 + n else 87 + n

unfoldable pub two_hex : ℕ → List ℕ
unfolding hex_digit
two_hex b = hex_digit (b / 16) ∷ hex_digit (b % 16) ∷ []

-- The octets joined by ':'.
unfoldable pub mac_to_string : List ℕ → List ℕ
unfolding two_hex
mac_to_string [] = []
mac_to_string (b ∷ []) = two_hex b
mac_to_string (b ∷ c ∷ mac) = two_hex b ++ (b':' ∷ mac_to_string (c ∷ mac))

-- The last octet must end the text; behind the others a ':' stands, and the next round follows.
last_octet : ℕ → List ℕ → List ℕ × Bool
last_octet v [] = (v ∷ [], true)
last_octet v (c ∷ s) = (v ∷ [], false)

inner_octet : ℕ → (List ℕ → List ℕ × Bool) → List ℕ → List ℕ × Bool
inner_octet v next [] = (v ∷ [], false)
inner_octet v next (c ∷ s) =
    if c == b':' then (let r = next s in (v ∷ r.0, r.1)) else (v ∷ [], false)

-- The rounds that are left, counted down: the octets written to `out`, and the function's result.
octets : ℕ → List ℕ → List ℕ × Bool
unfolding last_octet inner_octet
octets zero s = ([], false)
octets (suc zero) s = elim (from_chars 16 (2 ^ 32) s) [
  | none ↦ ([], false)
  | some (v, rest) ↦ if ltb 0xff v then ([], false) else last_octet v rest
]
octets (suc (suc n)) s = elim (from_chars 16 (2 ^ 32) s) [
  | none ↦ ([], false)
  | some (v, rest) ↦ if ltb 0xff v then ([], false) else inner_octet v (octets (suc n)) rest
]

unfoldable pub mac_from_string : List ℕ → List ℕ × Bool
unfolding octets from_chars
mac_from_string s = octets 6 s

unfoldable pub fake_mac_for : List ℕ → List ℕ
unfolding hash32
fake_mac_for id =
    let h = hash32 id in
    0xaa ∷ u8 (h / 2 ^ 24) ∷ u8 (h / 2 ^ 16) ∷ u8 (h / 2 ^ 8) ∷ u8 h ∷ 0x01 ∷ []

-- Two digits behind a '%', and a byte of two hexadecimal digits.
hex_or_zero : ℕ → ℕ
hex_or_zero c = elim (hex_value c) [ none ↦ 0 | some v ↦ v ]

-- A '%' is decoded when two digits follow it in the text; the last two bytes of the text may be these.
unfoldable pub url_decode : List ℕ → List ℕ
unfolding hex_or_zero
url_decode [] = []
url_decode (c ∷ []) = (if c == b'+' then 32 else c) ∷ []
url_decode (c ∷ d ∷ []) = (if c == b'+' then 32 else c) ∷ url_decode (d ∷ [])
url_decode (c ∷ d ∷ e ∷ s) =
    let decoded = u8 (hex_or_zero d * 16 + hex_or_zero e) ∷ url_decode s in
    let plain = (if c == b'+' then 32 else c) ∷ url_decode (d ∷ e ∷ s) in
    if c == b'%' && is_hex_digit d && is_hex_digit e then decoded else plain
