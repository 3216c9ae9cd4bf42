-- ===== src/Base/FromChars.antt =====
-- `std::from_chars` for unsigned integers: the digits at the front, as many as there are, and no
-- value when there is none or when it does not fit.
use Prim.Native.Nat.{ℕ, ◌+◌, ◌*◌}
use mathlib.Core.Path.{◌≡◌, refl}
use mathlib.Core.Option.{Option, none, some}
use mathlib.Core.List.{List, [], ◌∷◌, ◌++◌}
use native.Mathlib.Omega.{arith}
use squeeze2raop.Base.Tests.{ltb, if◌then◌else◌}
use squeeze2raop.Base.Lists.{All}
use squeeze2raop.Base.Chars.{hex_value}

-- The value of a digit in base ten or sixteen.
unfoldable pub digit_value : ℕ → ℕ → Option ℕ
digit_value base c = elim (hex_value c) [
  | none ↦ none
  | some v ↦ if ltb v base then some v else none
]

unfoldable pub scan_digits : ℕ → ℕ → List ℕ → ℕ × List ℕ
scan_digits base acc [] = (acc, [])
scan_digits base acc (c ∷ s) = elim (digit_value base c) [
  | none ↦ (acc, c ∷ s)
  | some d ↦ scan_digits base (acc * base + d) s
]

-- `std::from_chars(s, v, base)` into a type whose values are below `limit`: the value and the rest.
unfoldable pub from_chars : ℕ → ℕ → List ℕ → Option (ℕ × List ℕ)
from_chars base limit [] = none
from_chars base limit (c ∷ s) = elim (digit_value base c) [
  | none ↦ none
  | some d ↦ let r = scan_digits base 0 (c ∷ s) in if ltb r.0 limit then some r else none
]

-- A digit of the base, and a text that begins with none.
abbrev pub IsDigit : ℕ → ℕ → Type 0
IsDigit base c = (d : ℕ) × (digit_value base c ≡ some d)

abbrev pub Stops : ℕ → List ℕ → Type 0
Stops base [] = Unit {0}
Stops base (c ∷ s) = digit_value base c ≡ none

-- The number that digits write, most significant first.
unfoldable pub number : ℕ → ℕ → List ℕ → ℕ
number base acc [] = acc
number base acc (c ∷ ds) =
    number base (elim (digit_value base c) [ none ↦ acc | some d ↦ acc * base + d ]) ds

pub scan_digits-number :
    (base acc : ℕ) (ds rest : List ℕ)
    → All (IsDigit base) ds
    → Stops base rest
    → scan_digits base acc (ds ++ rest) ≡ (number base acc ds, rest)
unfolding scan_digits number
scan_digits-number base acc [] [] h s = refl
scan_digits-number base acc [] (c ∷ rest) h s = ground (arith, s)
scan_digits-number base acc (c ∷ ds) rest ((d, e), h) s =
    ground (arith, e, scan_digits-number base (acc * base + d) ds rest h s)

pub from_chars-number :
    (base limit c : ℕ) (ds rest : List ℕ)
    → All (IsDigit base) (c ∷ ds)
    → Stops base rest
    → from_chars base limit (c ∷ (ds ++ rest))
      ≡ (if ltb (number base 0 (c ∷ ds)) limit then some (number base 0 (c ∷ ds), rest) else none)
unfolding from_chars
from_chars-number base limit c ds rest ((d, e), h) s =
    ground (arith, e, scan_digits-number base 0 (c ∷ ds) rest ((d, e), h) s)
