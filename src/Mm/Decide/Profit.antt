-- ===== src/Mm/Decide/Profit.antt =====
-- When a full exit is taken, and what a sale accepts (internal/ponsmm/decide.go).
use pons_mm_desktop.Prelude.{ℕ, ◌≤◌, ◌≡◌, ◌↔◌, ◌⊎◌, Bool, div_mono, true, mul-div-le_self, arith}
use native.Mathlib.Nat.{mul-le-mul_left}
use pons_mm_desktop.Prelude.Int.{ℤ, pos, pos_part, ◌≤ℤ◌, ◌-ℤ◌}
use pons_mm_desktop.Mm.Decide.{clear_all, distributing, retail_buy_response, apply_slippage}

-- The engine takes the full exit exactly if the cost basis is known and the quoted proceeds exceed
-- the whole cost; in every other case it distributes.
pub retail_buy_response_iff :
    (proceeds : ℕ) (total_cost : ℤ) (known : Bool)
    → ((retail_buy_response proceeds total_cost known ≡ clear_all)
        ↔ ((known ≡ true) × (¬ (pos proceeds ≤ℤ total_cost))))
      × ((retail_buy_response proceeds total_cost known ≡ clear_all)
          ⊎ (retail_buy_response proceeds total_cost known ≡ distributing))
unfolding retail_buy_response
retail_buy_response_iff proceeds total_cost known =
    ((λ h. (ground arith, λ le. ground arith), λ h. ground (arith, h.0, h.1)), ground arith)

-- A slippage tolerance between 0 and 100% lowers the minimum below the quote, and a larger tolerance
-- never raises it.
pub apply_slippage_bounds :
    (amount bps more : ℕ)
    → bps ≤ more
    → (apply_slippage amount (pos bps) ≤ amount)
      × (apply_slippage amount (pos more) ≤ apply_slippage amount (pos bps))
unfolding apply_slippage ◌-ℤ◌
apply_slippage_bounds amount bps more h =
    let lower : pos_part (pos 10000 -ℤ pos more) ≤ pos_part (pos 10000 -ℤ pos bps) = ground arith in
    (
      mul-div-le_self amount (pos_part (pos 10000 -ℤ pos bps)) 10000 (ground arith) (omega arith),
      div_mono _ _ 10000 (mul-le-mul_left amount lower) (omega arith),
    )
