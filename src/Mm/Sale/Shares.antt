-- ===== src/Mm/Sale/Shares.antt =====
-- How the aggregate quote is split (`sellWalletsFast` in internal/ponsmm/engine.go).
use native.Mathlib.Nat.{div-mul-le_self, le_of_mul-le-mul_right}
use pons_mm_desktop.Prelude.{ℕ, ◌+◌, ◌*◌, ◌≤◌, ◌<◌, List, [], ◌∷◌, arith}
use pons_mm_desktop.Mm.Wallets.{Wallet}
use pons_mm_desktop.Mm.Sale.{total_held, share}

abbrev pub total_shares : ℕ → ℕ → List Wallet → ℕ
total_shares quote total [] = 0
total_shares quote total (w ∷ ws) = share quote w.token_raw total + total_shares quote total ws

shares-mul-le :
    (quote total : ℕ) (ws : List Wallet)
    → total_shares quote total ws * total ≤ quote * total_held ws
unfolding total_held
shares-mul-le quote total [] = omega arith
shares-mul-le quote total (w ∷ ws) =
    omega (arith, div-mul-le_self (quote * w.token_raw) total, shares-mul-le quote total ws)

-- The shares of a batch never promise more than the aggregate quote.
pub shares-le :
    (quote : ℕ) (ws : List Wallet)
    → 0 < total_held ws
    → total_shares quote (total_held ws) ws ≤ quote
shares-le quote ws p = le_of_mul-le-mul_right (shares-mul-le quote (total_held ws) ws) p
