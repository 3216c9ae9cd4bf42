-- ===== src/Base/Chars.antt =====
-- What the C++ library says of single characters in the "C" locale, and its searches in a string.
use Prim.Native.Nat.{ℕ, zero, suc, ◌+◌, ◌-◌, ◌<◌}
use mathlib.Core.Path.{◌≡◌, refl}
use mathlib.Core.Bool.{Bool, true, false, not, ◌&&◌, ◌||◌}
use mathlib.Core.Option.{Option, none, some}
use mathlib.Core.Option
use mathlib.Core.Logic.{inl, inr}
use mathlib.Core.List.{List, [], ◌∷◌, ◌++◌}
use native.Mathlib.Omega.{arith}
use squeeze2raop.Base.Tests.{leb, ◌==◌, if◌then◌else◌, Bool-cases, all_below, all_below_sound}
use squeeze2raop.Base.Lists.{drop, length}

-- `std::isspace`.
abbrev pub is_space : ℕ → Bool
is_space c = c == 32 || (leb 9 c && leb c 13)

-- `std::tolower`.
abbrev pub lower_byte : ℕ → ℕ
lower_byte c = if leb b'A' c && leb c b'Z' then c + 32 else c

-- The value of a hexadecimal digit.
abbrev pub hex_value : ℕ → Option ℕ
hex_value c =
    if leb b'0' c && leb c b'9'
    then some (c - 48)
    else if leb b'a' c && leb c b'f'
    then some (c - 87)
    else if leb b'A' c && leb c b'F'
    then some (c - 55)
    else none

-- `std::isxdigit`.
abbrev pub is_hex_digit : ℕ → Bool
is_hex_digit c =
    (leb b'0' c && leb c b'9') || ((leb b'a' c && leb c b'f') || (leb b'A' c && leb c b'F'))

-- `s.find(c)`.
unfoldable pub find_byte : ℕ → List ℕ → Option ℕ
find_byte c [] = none
find_byte c (x ∷ s) = if x == c then some 0 else Option.map suc (find_byte c s)

abbrev pub is_prefix : List ℕ → List ℕ → Bool
is_prefix [] s = true
is_prefix (c ∷ k) [] = false
is_prefix (c ∷ k) (x ∷ s) = c == x && is_prefix k s

-- `s.find(k)`.
unfoldable pub find_text : List ℕ → List ℕ → Option ℕ
find_text k [] = if is_prefix k [] then some 0 else none
find_text k (x ∷ s) = if is_prefix k (x ∷ s) then some 0 else Option.map suc (find_text k s)

-- `k` stands at place `i` of `s`, and at no place before it.
abbrev pub FirstAt : List ℕ → ℕ → List ℕ → Type 0
FirstAt k i s = (is_prefix k (drop i s) ≡ true) × ((j : ℕ) → j < i → is_prefix k (drop j s) ≡ false)

pub find_text-FirstAt : (k : List ℕ) (i : ℕ) (s : List ℕ) → FirstAt k i s → find_text k s ≡ some i
unfolding find_text
find_text-FirstAt k zero [] (h, n) = rw h
find_text-FirstAt k zero (x ∷ s) (h, n) = rw h
find_text-FirstAt k (suc i) [] (h, n) = ground (arith, n 0)
find_text-FirstAt k (suc i) (x ∷ s) (h, n) =
    let later : find_text k s ≡ some i =
      find_text-FirstAt k i s (h, λ j lt. n (suc j) (omega arith)) in
    let first : is_prefix k (x ∷ s) ≡ false = n 0 (omega arith) in rw (first, later)

-- A text that holds `k` nowhere.
abbrev pub Nowhere : List ℕ → List ℕ → Type 0
Nowhere k s = (j : ℕ) → is_prefix k (drop j s) ≡ false

pub find_text-Nowhere : (k s : List ℕ) → Nowhere k s → find_text k s ≡ none
unfolding find_text
find_text-Nowhere k [] n = let here : is_prefix k [] ≡ false = n 0 in rw here refl
find_text-Nowhere k (x ∷ s) n =
    let here : is_prefix k (x ∷ s) ≡ false = n 0 in
    let later : find_text k s ≡ none = find_text-Nowhere k s (λ j. n (suc j)) in rw (here, later)

pub is_prefix_self : (k s : List ℕ) → is_prefix k (k ++ s) ≡ true
is_prefix_self [] s = refl
is_prefix_self (c ∷ k) s = ground (arith, is_prefix_self k s)

-- A text that holds `k` somewhere.
pub find_text-some :
    (k before after : List ℕ) → (i : ℕ) × (find_text k (before ++ (k ++ after)) ≡ some i)
unfolding find_text
find_text-some k [] after = (0, start k after)
  where
    start : (k after : List ℕ) → find_text k (k ++ after) ≡ some 0
    start [] [] = refl
    start [] (x ∷ s) = refl
    start (c ∷ k) s = ground (arith, is_prefix_self k s)
find_text-some k (x ∷ before) after =
    elim (Bool-cases (is_prefix k (x ∷ (before ++ (k ++ after))))) [
      | inl h ↦ (0, rw h)
      | inr h ↦ let (i, e) = find_text-some k before after in (suc i, rw (h, e))
    ]

-- The places before `i`, tried one by one.
pub first_of_below :
    (k : List ℕ) (i : ℕ) (s : List ℕ)
    → all_below i (λ j. not (is_prefix k (drop j s))) ≡ true
    → (j : ℕ) → j < i
    → is_prefix k (drop j s) ≡ false
first_of_below k i s h j lt =
    ground (arith, all_below_sound i (λ j. not (is_prefix k (drop j s))) j h lt)

pub find_byte-append :
    (c : ℕ) (a b : List ℕ) → find_byte c a ≡ none → find_byte c (a ++ (c ∷ b)) ≡ some (length a)
unfolding find_byte
find_byte-append c [] b h = ground arith
find_byte-append c (x ∷ a) b h = elim (Bool-cases (x == c)) [
  | inl e ↦ ground arith
  | inr e ↦ rw (e, find_byte-append c a b (rest (find_byte c a) (ground arith)))
]
  where
    rest : (o : Option ℕ) → Option.map suc o ≡ none → o ≡ none
    rest none e = refl
    rest (some i) e = ground arith
