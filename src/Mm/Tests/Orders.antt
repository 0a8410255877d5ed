-- ===== src/Mm/Tests/Orders.antt =====
-- Wallets, transfers, statistics and sales, at concrete inputs.
use pons_mm_desktop.Prelude.{ℕ, ◌⊎◌, length, ◌≤◌, ◌≡◌, true, false, none, some, List, [], ◌∷◌}
use pons_mm_desktop.Mm.Wallets.{Wallet, accepted}
use pons_mm_desktop.Mm.Sweep.{Answer, answered}
use pons_mm_desktop.Mm.Sale.{SaleAnswer, receipt}
use pons_mm_desktop.Mm.Buying.{RoundInput, accumulate_step}
use pons_mm_desktop.Mm.Buying.Eligible.{AllMayBuy, accumulate_step-AllMayBuy}

abbrev wallet : ℕ → ℕ → ℕ → Wallet
wallet addr eth tokens = record { addr = addr; eth_wei = eth; token_raw = tokens; nonce = 4 }

abbrev makers : List Wallet
makers = wallet 21 10 300 ∷ wallet 22 90 0 ∷ wallet 23 40 100 ∷ []

-- The node takes every transfer.
abbrev takes : ℕ → Answer
takes a = answered accepted true

-- Every sale is confirmed and clears its wallet.
abbrev clears : ℕ → SaleAnswer
clears a = receipt true (some 0) none

abbrev round_input : RoundInput
round_input = record {
  v2 = true;
  graduated = false;
  held_enough = false;
  wants_graduation = true;
  concurrent = false;
  gas_reserve = 5;
  due = false;
  balances = none;
  tax_cleared = false;
  exempt = some (22 ∷ []);
}

accumulate_step-AllMayBuy_example :
    let buyers = (accumulate_step round_input 3 makers).0 in
    AllMayBuy round_input buyers × ((round_input.concurrent ≡ true) ⊎ (length buyers ≤ 1))
accumulate_step-AllMayBuy_example = accumulate_step-AllMayBuy round_input 3 makers
