-- ===== src/Mm/Target.antt =====
-- internal/ponsmm/target.go: the price-target response to a retail buy. Prices are big.Float in the
-- source; the planners below take the comparison with the target as an argument over the reserves,
-- and the amount that `quoteNeededForPrice` computes through a square root as a number.
pub mod Gross
pub mod Selling
pub mod Buying
use pons_mm_desktop.Prelude.{
  ℕ, ◌+◌, ◌-◌, ◌*◌, ◌/◌, Bool, true, false, List, [], ◌∷◌, ◌==◌, if◌then◌else◌, leb, ltb,
}
use pons_mm_desktop.Prelude.Int.{ℤ, pos, pos_part, leb_ℤ}

-- The payment of which at least `net` is left after the fee; ceiling division.
unfoldable pub gross_from_net : ℕ → ℤ → ℕ
gross_from_net net fee_bps =
    if net == 0
    then 0
    else if leb_ℤ fee_bps (pos 0)
    then net
    else if leb_ℤ (pos 10000) fee_bps
    then 0
    else let den = 10000 - pos_part fee_bps in (net * 10000 + (den - 1)) / den

-- The reserves after a sale into the curve, of which `projectedPriceAfterSell` takes the price: the
-- quote reserve loses the gross output of the product formula.
unfoldable pub reserves_after_sell : ℕ → ℕ → ℕ → ℕ × ℕ
reserves_after_sell quote_reserve token_reserve tokens_in =
    let new_tokens = token_reserve + tokens_in in
    (quote_reserve - quote_reserve * tokens_in / new_tokens, new_tokens)

-- A walk over the balances: the number of wallets up to the last one that is needed, their total, and
-- whether the target is reached. `meets q t` is the test that the price of the reserves `q` and `t` is
-- at or below the target. `i`, `count` and `total` are the loop's variables.
unfoldable pub plan_from : (ℕ → ℕ → Bool) → ℕ → ℕ → ℕ → ℕ → ℕ → List ℕ → ℕ × ℕ × Bool
unfolding reserves_after_sell
plan_from meets q t i count total [] = (count, total, false)
plan_from meets q t i count total (b ∷ bs) =
    let skipped = plan_from meets q t (i + 1) count total bs in
    let more = plan_from meets q t (i + 1) (i + 1) (total + b) bs in
    let after = reserves_after_sell q t (total + b) in
    if b == 0 then skipped else if meets after.0 after.1 then (i + 1, total + b, true) else more

unfoldable pub plan_target_sell_count : (ℕ → ℕ → Bool) → ℕ → ℕ → List ℕ → ℕ × ℕ × Bool
unfolding plan_from
plan_target_sell_count meets q t balances = plan_from meets q t 0 0 0 balances

-- The loop of `planTargetResponse` over the eligible makers, each with what it may spend: the wallets
-- by position with their spends, and what remains to be bought.
unfoldable pub plan_spends : ℕ → ℕ → List ℕ → List (ℕ × ℕ) × ℕ
plan_spends i remaining [] = ([], remaining)
plan_spends i remaining (s ∷ ss) =
    let skipped = plan_spends (i + 1) remaining ss in
    let rest = plan_spends (i + 1) (remaining - s) ss in
    if s == 0
    then skipped
    else if leb remaining s
    then ((i, remaining) ∷ [], 0)
    else ((i, s) ∷ rest.0, rest.1)
