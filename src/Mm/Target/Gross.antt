-- ===== src/Mm/Target/Gross.antt =====
-- The payment that covers a fee (`grossFromNet` in internal/ponsmm/target.go) against the fee that the
-- curve takes (`afterFee` in internal/pons/curve.go).
use native.Mathlib.Nat.{le-div_iff_mul-le, div-lt_iff_lt-mul}
use pons_mm_desktop.Prelude.{ℕ, suc, false, ◌+◌, ◌-◌, ◌*◌, ◌/◌, ◌≤◌, ◌<◌, ◌≡◌, ◌↔◌, arith}
use pons_mm_desktop.Prelude.Int.{ℤ, pos, pos_part, leb_ℤ}
use pons_mm_desktop.Pons.Curve.{after_fee}
use pons_mm_desktop.Mm.Target.{gross_from_net}

-- Ceiling division against truncated division: n ≤ g * d / k exactly if ⌈n * k / d⌉ ≤ g.
ceil_iff : (n g d k : ℕ) → 0 < d → 0 < k → (n ≤ g * d / k) ↔ ((n * k + (d - 1)) / d ≤ g)
ceil_iff n g d k p q = (
  λ h.
      let product : n * k ≤ g * d = (le-div_iff_mul-le q).0 h in
      let small : (n * k + (d - 1)) / d < suc g = (div-lt_iff_lt-mul p).1 (omega arith) in
      omega arith,
  λ h.
      let product : n * k + (d - 1) < suc g * d = (div-lt_iff_lt-mul p).0 (omega arith) in
      (le-div_iff_mul-le q).1 (omega arith),
)

-- For a fee below 100%, a payment leaves at least `net` after the fee exactly if it is at least
-- `gross_from_net net fee`: the result suffices, and it is the least that does.
pub gross_from_net_iff :
    (net gross : ℕ) (fee : ℤ)
    → leb_ℤ (pos 10000) fee ≡ false
    → (net ≤ after_fee gross fee) ↔ (gross_from_net net fee ≤ gross)
unfolding gross_from_net after_fee
gross_from_net_iff net gross fee h =
    let ceil = ceil_iff net gross (10000 - pos_part fee) 10000 in
    (λ e. ground (arith, ceil, e), λ e. ground (arith, ceil, e))
