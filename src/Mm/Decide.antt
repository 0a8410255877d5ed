-- ===== src/Mm/Decide.antt =====
-- internal/ponsmm/decide.go, with `State` of internal/ponsmm/engine.go: the pure decisions. Quotes are
-- numbers; the total cost is an integer, since what was invested net of sells may be negative.
pub mod Profit
use pons_mm_desktop.Prelude.{ℕ, ◌*◌, ◌/◌, Bool, ◌&&◌, ◌==◌, not, if◌then◌else◌}
use pons_mm_desktop.Prelude.Int.{ℤ, pos, pos_part, ◌-ℤ◌, leb_ℤ}

pub data State : Type 0 where
  launching accumulating distributing clear_all done : State

-- `sellAllProceeds.Cmp(totalCost) > 0`, with a known cost basis.
unfoldable pub retail_buy_response : ℕ → ℤ → Bool → State
retail_buy_response proceeds total_cost cost_basis_known =
    if cost_basis_known && not (leb_ℤ (pos proceeds) total_cost) then clear_all else distributing

-- `amount * max(0, 10000 - slippageBps) / 10000`.
unfoldable pub apply_slippage : ℕ → ℤ → ℕ
apply_slippage amount slippage_bps = amount * pos_part (pos 10000 -ℤ slippage_bps) / 10000

abbrev pub sell_slippage_bps : ℕ
sell_slippage_bps = 9999

unfoldable pub apply_sell_slippage : ℕ → ℕ
unfolding apply_slippage
apply_sell_slippage amount = apply_slippage amount (pos sell_slippage_bps)
