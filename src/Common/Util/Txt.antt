-- ===== src/Common/Util/Txt.antt =====
-- The wire format of a TXT record: what `parseTxtKeyValues` finds under a key.
use mathlib.Core.List.{append_assoc}
use squeeze2raop.Base.{
  ℕ, zero, suc, ◌≤◌, ◌<◌, ◌⊎◌, inl, inr, ◌≡◌, refl, ap, ◌∙◌, arith, List, [], ◌∷◌, ◌++◌, Option,
  none, some, if◌then◌else◌, length, drop, take_self, drop_self, length-append, All, Option-cases,
  find_byte, find_byte-append, same_bytes, same_bytes-eq, Dict, find_key,
}
use squeeze2raop.Common.Util.{txt_key, txt_value, add_first, txt_loop, parse_txt_key_values}

-- An item of the record: a key alone, or a key with a value.
pub data TxtItem : Type 0 where
  alone : List ℕ → TxtItem
  keyed : List ℕ → List ℕ → TxtItem

abbrev pub item_key : TxtItem → List ℕ
item_key (alone k) = k
item_key (keyed k v) = k

abbrev pub item_value : TxtItem → List ℕ
item_value (alone k) = []
item_value (keyed k v) = v

abbrev pub item_text : TxtItem → List ℕ
item_text (alone k) = k
item_text (keyed k v) = k ++ (b'=' ∷ v)

-- A key has no '=', and the text of an item fills one to 255 bytes.
pub record IsTxtItem (i : TxtItem) : Type 0 where
  pub plain : find_byte b'=' (item_key i) ≡ none
  pub some_bytes : 0 < length (item_text i)
  pub one_byte : length (item_text i) < 256

-- The items behind their lengths.
unfoldable pub encode_txt : List TxtItem → List ℕ
encode_txt [] = []
encode_txt (i ∷ is) = length (item_text i) ∷ (item_text i ++ encode_txt is)

-- The value of the first item with the key.
unfoldable pub first_value : List ℕ → List TxtItem → Option (List ℕ)
first_value k [] = none
first_value k (i ∷ is) = if same_bytes (item_key i) k then some (item_value i) else first_value k is

-- Where the record stops: at its end, at an empty item, or at one that is cut off.
abbrev pub IsTail : List ℕ → Type 0
IsTail [] = Unit {0}
IsTail (len ∷ raw) = (len ≡ 0) ⊎ (length raw < len)

txt_key-item_text : (i : TxtItem) → IsTxtItem i → txt_key (item_text i) ≡ item_key i
unfolding txt_key
txt_key-item_text (alone k) h = ground (arith, h.plain)
txt_key-item_text (keyed k v) h =
    ground (arith, find_byte-append b'=' k v h.plain, take_self k (b'=' ∷ v))

drop_past : (c : ℕ) (k v : List ℕ) → drop (suc (length k)) (k ++ (c ∷ v)) ≡ v
drop_past c [] v = refl
drop_past c (x ∷ k) v = drop_past c k v

txt_value-item_text : (i : TxtItem) → IsTxtItem i → txt_value (item_text i) ≡ item_value i
unfolding txt_value
txt_value-item_text (alone k) h = ground (arith, h.plain)
txt_value-item_text (keyed k v) h =
    ground (arith, find_byte-append b'=' k v h.plain, drop_past b'=' k v)

-- What stands in the map already is kept.
abbrev or_else : Option (List ℕ) → Option (List ℕ) → Option (List ℕ)
or_else none o = o
or_else (some v) o = some v

find_key-append_one :
    (k j v : List ℕ) (m : Dict (List ℕ))
    → find_key k (m ++ ((j, v) ∷ []))
      ≡ or_else (find_key k m) (if same_bytes j k then some v else none)
unfolding find_key
find_key-append_one k j v [] = ground arith
find_key-append_one k j v ((i, w) ∷ m) = ground (arith, find_key-append_one k j v m)

-- An item of the map under its key, unless the key is there.
find_key-add_first :
    (k j v : List ℕ) (m : Dict (List ℕ))
    → find_key k (add_first j v m)
      ≡ or_else (find_key k m) (if same_bytes j k then some v else none)
unfolding add_first
find_key-add_first k j v m = elim (Option-cases (find_key j m)) [
  | inl e ↦ ground (arith, e, find_key-append_one k j v m)
  | inr (w, e) ↦ ground (arith, e, same_bytes-eq j k)
]

txt_loop-IsTail :
    (n : ℕ) (tail : List ℕ) (out : Dict (List ℕ)) → IsTail tail → txt_loop n tail out ≡ out
unfolding txt_loop
txt_loop-IsTail zero tail out h = refl
txt_loop-IsTail (suc n) [] out h = refl
txt_loop-IsTail (suc n) (len ∷ raw) out h = ground arith

-- The round of the loop for an item.
txt_loop-item :
    (n : ℕ) (i : TxtItem) (raw : List ℕ) (out : Dict (List ℕ))
    → IsTxtItem i
    → txt_loop (suc n) (length (item_text i) ∷ (item_text i ++ raw)) out
      ≡ txt_loop n raw (add_first (item_key i) (item_value i) out)
unfolding txt_loop
txt_loop-item n i raw out h = ground (
  arith,
  h.some_bytes,
  length-append (item_text i) raw,
  take_self (item_text i) raw,
  drop_self (item_text i) raw,
  txt_key-item_text i h,
  txt_value-item_text i h,
)

or_else_assoc : (a b c : Option (List ℕ)) → or_else (or_else a b) c ≡ or_else a (or_else b c)
or_else_assoc none b c = refl
or_else_assoc (some v) b c = refl

fits :
    (i : TxtItem) (is : List TxtItem) (tail : List ℕ) (n : ℕ)
    → length (encode_txt (i ∷ is) ++ tail) ≤ suc n
    → length (encode_txt is ++ tail) ≤ n
unfolding encode_txt
fits i is tail n h = omega (
  arith,
  length-append (item_text i ++ encode_txt is) tail,
  length-append (item_text i) (encode_txt is),
  length-append (encode_txt is) tail,
)

txt_loop-encode_txt :
    (n : ℕ) (is : List TxtItem) (k tail : List ℕ) (out : Dict (List ℕ))
    → All IsTxtItem is
    → IsTail tail
    → length (encode_txt is ++ tail) ≤ n
    → find_key k (txt_loop n (encode_txt is ++ tail) out)
      ≡ or_else (find_key k out) (first_value k is)
unfolding encode_txt first_value
txt_loop-encode_txt n [] k tail out h t fuel = ground (arith, txt_loop-IsTail n tail out t)
txt_loop-encode_txt zero (i ∷ is) k tail out h t fuel = absurd (omega arith)
txt_loop-encode_txt (suc n) (i ∷ is) k tail out (h, hs) t fuel =
    let rest = encode_txt is ++ tail in
    let step : txt_loop (suc n) (encode_txt (i ∷ is) ++ tail) out
        ≡ txt_loop n rest (add_first (item_key i) (item_value i) out) =
      rw (append_assoc) (txt_loop-item n i rest out h) in
    let later =
      txt_loop-encode_txt n is k tail (add_first (item_key i) (item_value i) out) hs t
        (fits i is tail n fuel) in
    ap (find_key k) step
    ∙ later
    ∙ ground (arith, find_key-add_first k (item_key i) (item_value i) out)

-- Items of 1 to 255 bytes, each behind its length, are parsed back: under every key the map has the
-- value of the first item with that key, empty where that item has no '=', and nothing where no
-- item has the key. What follows an empty item, or one longer than the text, changes nothing.
pub parse_txt_key_values-encode_txt :
    (is : List TxtItem) (k tail : List ℕ)
    → All IsTxtItem is
    → IsTail tail
    → find_key k (parse_txt_key_values (encode_txt is ++ tail)) ≡ first_value k is
unfolding parse_txt_key_values find_key
parse_txt_key_values-encode_txt is k tail h t =
    txt_loop-encode_txt (length (encode_txt is ++ tail)) is k tail [] h t (omega arith)
