-- ===== src/Base/Division.antt =====
-- Division by a divisor that is not a literal.
use Prim.Native.Nat.{ℕ, ◌*◌, ◌/◌, ◌≤◌, ◌<◌}
use native.Mathlib.Omega.{arith}
use native.Mathlib.Nat.{div-mul-le_self, le-div_iff_mul-le, div-le_of_le-mul, mul-le-mul_right}

pub div_mono : (a b k : ℕ) → 0 < k → a ≤ b → a / k ≤ b / k
div_mono a b k pos h = (le-div_iff_mul-le pos).1 (omega (arith, div-mul-le_self a k))

-- A fraction below one of `n`.
pub mul-div_le : (a k n : ℕ) → a ≤ k → a * n / k ≤ n
mul-div_le a k n h = div-le_of_le-mul k (mul-le-mul_right n h)
