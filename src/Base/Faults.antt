-- ===== src/Base/Faults.antt =====
-- A computation that C++ leaves undefined when it reads outside a buffer or dereferences an empty
-- optional: `oob` is such a read, `ok` is a defined result.
use Prim.Native.Nat.{ℕ, zero, suc, ◌<◌}
use mathlib.Core.Path.{◌≡◌}
use mathlib.Core.Option.{Option, none, some}
use mathlib.Core.List.{List, [], ◌∷◌}
use native.Mathlib.Omega.{arith}
use squeeze2raop.Base.Lists.{length, get_elem?}

pub data Checked {ℓ} (A : Type ℓ) : Type ℓ where
  ok : A → Checked A
  oob : Checked A

infixl 5 ◌>>=◌ ◌>>◌
abbrev pub ◌>>=◌ {ℓ κ} : {A : Type ℓ} {B : Type κ} → Checked A → (A → Checked B) → Checked B
ok a >>= f = f a
oob >>= f = oob

abbrev pub ◌>>◌ {ℓ} : {B : Type ℓ} → Checked (Unit {0}) → Checked B → Checked B
m >> k = m >>= λ _. k

-- `*o` on a std::optional.
abbrev pub deref {ℓ} : {A : Type ℓ} → Option A → Checked A
deref none = oob
deref (some a) = ok a

-- The computation is defined.
abbrev pub IsDefined {ℓ} : {A : Type ℓ} → Checked A → Type 0
IsDefined (ok a) = Unit {0}
IsDefined oob = ⊥

pub ok-IsDefined {ℓ} : {A : Type ℓ} (m : Checked A) (a : A) → m ≡ ok a → IsDefined m
ok-IsDefined (ok b) a e = tt
ok-IsDefined oob a e = cc

-- `p[i]` on a span, which is not checked.
abbrev pub byte_at : List ℕ → ℕ → Checked ℕ
byte_at p i = deref (get_elem? p i)

pub byte_at-IsDefined : (p : List ℕ) (i : ℕ) → i < length p → IsDefined (byte_at p i)
byte_at-IsDefined [] i h = elim h [ ]
byte_at-IsDefined (b ∷ p) zero h = tt
byte_at-IsDefined (b ∷ p) (suc i) h = byte_at-IsDefined p i (omega arith)

pub >>=-IsDefined {ℓ κ} :
    {A : Type ℓ} {B : Type κ} (m : Checked A) (f : A → Checked B)
    → IsDefined m
    → ((a : A) → IsDefined (f a))
    → IsDefined (m >>= f)
>>=-IsDefined (ok a) f d k = k a
>>=-IsDefined oob f d k = d
