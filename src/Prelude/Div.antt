-- ===== src/Prelude/Div.antt =====
-- Truncated division of products: bounds and monotonicity.
use Prim.Native.Nat.{ℕ, ◌*◌, ◌/◌, ◌≤◌, ◌<◌}
use mathlib.Core.Path.{subst}
use native.Mathlib.Nat.{
  mul_comm, mul-le-mul_left, le-div_iff_mul-le, div-lt_iff_lt-mul, div-mul-le_self,
  div-le_of_le-mul, mul-lt-mul_of_pos_left, le_trans,
}
use native.Mathlib.Omega.{arith}

-- x * a / b ≤ x, for a fraction a / b of at most 1.
pub mul-div-le_self : (x a b : ℕ) → a ≤ b → 0 < b → x * a / b ≤ x
mul-div-le_self x a b h p =
    div-le_of_le-mul b (subst (λ z. x * a ≤ z) (mul_comm x b) (mul-le-mul_left x h))

pub mul-div-lt_self : (x a b : ℕ) → a < b → 0 < x → x * a / b < x
mul-div-lt_self x a b h p = (div-lt_iff_lt-mul (omega arith)).1 (mul-lt-mul_of_pos_left h p)

pub div_mono : (x y b : ℕ) → x ≤ y → 0 < b → x / b ≤ y / b
div_mono x y b h p = (le-div_iff_mul-le p).1 (le_trans (div-mul-le_self x b) h)
