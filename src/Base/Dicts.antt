-- ===== src/Base/Dicts.antt =====
-- `std::map<std::string, V>` as an association list over byte strings, with the laws of its calls.
use Prim.Native.Nat.{ℕ}
use mathlib.Core.Path.{◌≡◌, refl}
use mathlib.Core.Logic.{inl, inr}
use mathlib.Core.Bool.{true}
use mathlib.Core.Option.{Option, none, some}
use mathlib.Core.List.{List, [], ◌∷◌}
use native.Mathlib.Omega.{arith}
use squeeze2raop.Base.Tests.{if◌then◌else◌, Bool-cases}
use squeeze2raop.Base.Lists.{same_bytes}

pub same_bytes_refl : (a : List ℕ) → same_bytes a a ≡ true
same_bytes_refl [] = refl
same_bytes_refl (x ∷ a) = ground (arith, same_bytes_refl a)

pub same_bytes-eq : (a b : List ℕ) → same_bytes a b ≡ true → a ≡ b
same_bytes-eq [] [] h = refl
same_bytes-eq [] (y ∷ b) h = cc
same_bytes-eq (x ∷ a) [] h = cc
same_bytes-eq (x ∷ a) (y ∷ b) h = ground (arith, same_bytes-eq a b)

pub same_bytes_sym : (a b : List ℕ) → same_bytes a b ≡ same_bytes b a
same_bytes_sym [] [] = refl
same_bytes_sym [] (y ∷ b) = refl
same_bytes_sym (x ∷ a) [] = refl
same_bytes_sym (x ∷ a) (y ∷ b) = ground (arith, same_bytes_sym a b)

abbrev pub Dict {ℓ} : Type ℓ → Type ℓ
Dict V = List (List ℕ × V)

module _ {ℓ} {V : Type ℓ} where
  unfoldable pub find_key : List ℕ → Dict V → Option V
  find_key k [] = none
  find_key k ((j, v) ∷ m) = if same_bytes j k then some v else find_key k m

  -- `m[k] = v`.
  unfoldable pub put_key : List ℕ → V → Dict V → Dict V
  put_key k v [] = (k, v) ∷ []
  put_key k v ((j, w) ∷ m) = if same_bytes j k then (j, v) ∷ m else (j, w) ∷ put_key k v m

  -- `m.erase(k)`.
  unfoldable pub erase_key : List ℕ → Dict V → Dict V
  erase_key k [] = []
  erase_key k ((j, w) ∷ m) = if same_bytes j k then erase_key k m else (j, w) ∷ erase_key k m

  pub find_key-put_key :
      (k j : List ℕ) (v : V) (m : Dict V)
      → find_key j (put_key k v m) ≡ (if same_bytes k j then some v else find_key j m)
  unfolding find_key put_key
  find_key-put_key k j v [] = refl
  find_key-put_key k j v ((i, w) ∷ m) = elim (Bool-cases (same_bytes i k)) [
    | inl e ↦ rw e (rw (same_bytes-eq i k e) (ground arith))
    | inr e ↦ rw e (elim (Bool-cases (same_bytes i j)) [
      | inl f ↦ rw (f, same_bytes_sym k j, ← same_bytes-eq i j f, e)
      | inr f ↦ rw f (find_key-put_key k j v m)
    ])
  ]

  pub find_key-erase_key :
      (k j : List ℕ) (m : Dict V)
      → find_key j (erase_key k m) ≡ (if same_bytes k j then none else find_key j m)
  unfolding find_key erase_key
  find_key-erase_key k j [] = ground arith
  find_key-erase_key k j ((i, w) ∷ m) = elim (Bool-cases (same_bytes i k)) [
    | inl e ↦ rw e (rw (same_bytes-eq i k e) (ground (arith, find_key-erase_key k j m)))
    | inr e ↦ rw e (elim (Bool-cases (same_bytes i j)) [
      | inl f ↦ rw (f, same_bytes_sym k j, ← same_bytes-eq i j f, e)
      | inr f ↦ rw f (find_key-erase_key k j m)
    ])
  ]
