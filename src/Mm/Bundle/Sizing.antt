-- ===== src/Mm/Bundle/Sizing.antt =====
-- internal/ponsmm/bundle.go: what a sized buy may cost (`bundleBuySpend`, `refreshWindowBuys`).
use pons_mm_desktop.Prelude.{
  ℕ, suc, zero, ◌+◌, ◌-◌, ◌*◌, ◌≤◌, ◌<◌, ◌≡◌, false, Bool-cases, inl, inr, some, List, [], ◌∷◌,
  ◌==◌, take, arith,
}
use pons_mm_desktop.Mm.Wallets.{Wallet}
use pons_mm_desktop.Mm.Bundle.{
  Fraction, nothing, everything, part, scale_wei, bundle_buy_spend, BundleBuy, size_buys,
}

-- The product of floats truncates to no more than the amount.
unfoldable pub Truncating : Fraction → Type 0
Truncating nothing = Unit {0}
Truncating everything = Unit {0}
Truncating (part product) = (a : ℕ) → product a ≤ a

scale_wei-le :
    (fraction : Fraction) (amount : ℕ) → Truncating fraction → scale_wei fraction amount ≤ amount
unfolding scale_wei Truncating
scale_wei-le nothing amount h = omega arith
scale_wei-le everything amount h = omega arith
scale_wei-le (part product) amount h = h amount

-- A positive value that leaves the gas and the reserve in the wallet.
pub Affordable : ℕ → ℕ → ℕ → BundleBuy → Type 0
Affordable gas_reserve fee_cap gas_limit b =
    (0 < b.spend) × (b.spend + fee_cap * gas_limit + gas_reserve ≤ b.wallet.eth_wei)

pub AllAffordable : ℕ → ℕ → ℕ → List BundleBuy → Type 0
unfolding Affordable
AllAffordable gas_reserve fee_cap gas_limit [] = Unit {0}
AllAffordable gas_reserve fee_cap gas_limit (b ∷ bs) =
    Affordable gas_reserve fee_cap gas_limit b × AllAffordable gas_reserve fee_cap gas_limit bs

-- Every sized buy is positive, and its value, its gas at the fee cap and the reserve together are
-- within the balance, when the product of floats truncates to no more than the amount.
pub size_buys-AllAffordable :
    (fraction : Fraction) (gas_reserve fee_cap gas_limit : ℕ) (makers : List Wallet)
    → Truncating fraction
    → AllAffordable gas_reserve fee_cap gas_limit
        (size_buys fraction gas_reserve (some fee_cap) gas_limit makers)
unfolding size_buys AllAffordable
size_buys-AllAffordable fraction gas_reserve fee_cap gas_limit [] h = tt
size_buys-AllAffordable fraction gas_reserve fee_cap gas_limit (w ∷ ws) h =
    let spend = bundle_buy_spend fraction gas_reserve (some fee_cap) gas_limit w in
    let rest = size_buys-AllAffordable fraction gas_reserve fee_cap gas_limit ws h in
    elim (Bool-cases (spend == 0)) [
      | inl e ↦ rw e rest
      | inr e ↦ rw e ((ground (arith, e), spend-le e), rest)
    ]
  where
    spend-le :
        (bundle_buy_spend fraction gas_reserve (some fee_cap) gas_limit w == 0) ≡ false
        → bundle_buy_spend fraction gas_reserve (some fee_cap) gas_limit w
            + fee_cap * gas_limit
            + gas_reserve
          ≤ w.eth_wei
    spend-le e =
        ground (arith, e, scale_wei-le fraction (w.eth_wei - gas_reserve - fee_cap * gas_limit) h)

pub AllAffordable-take :
    (n gas_reserve fee_cap gas_limit : ℕ) (buys : List BundleBuy)
    → AllAffordable gas_reserve fee_cap gas_limit buys
    → AllAffordable gas_reserve fee_cap gas_limit (take n buys)
unfolding AllAffordable
AllAffordable-take zero gas_reserve fee_cap gas_limit buys all = tt
AllAffordable-take (suc n) gas_reserve fee_cap gas_limit [] all = tt
AllAffordable-take (suc n) gas_reserve fee_cap gas_limit (b ∷ bs) (first, all) =
    (first, AllAffordable-take n gas_reserve fee_cap gas_limit bs all)
