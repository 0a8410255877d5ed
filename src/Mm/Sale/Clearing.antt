-- ===== src/Mm/Sale/Clearing.antt =====
-- What a batch leaves in the wallets (`sellOnceWithQuote` and `sellWalletsFast` in
-- internal/ponsmm/engine.go).
use pons_mm_desktop.Prelude.{ℕ, ◌≡◌, refl, true, Option, none, some, List, [], ◌∷◌, arith}
use pons_mm_desktop.Mm.Wallets.{Wallet, send}
use pons_mm_desktop.Mm.Sale.{
  SaleAnswer, not_sent, unconfirmed, rejected, receipt, sell_once, settle_sale, sell_each,
  sell_wallets_fast, total_held, share, batch_quote, or_no_quote,
}

-- Every token balance that is read after a receipt is 0.
abbrev pub ReadsZero : SaleAnswer → Type 0
ReadsZero not_sent = Unit
ReadsZero unconfirmed = Unit
ReadsZero (rejected pending) = Unit
ReadsZero (receipt status none eth) = Unit
ReadsZero (receipt status (some balance) eth) = balance ≡ 0

sell_once-gone :
    (answer : SaleAnswer) (fresh : ℕ → Option ℕ) (hint : ℕ) (w : Wallet)
    → ReadsZero answer
    → (sell_once answer fresh w.token_raw hint w).2 ≡ true
    → (sell_once answer fresh w.token_raw hint w).0.token_raw ≡ 0
unfolding sell_once settle_sale send
sell_once-gone not_sent fresh hint w z h = ground arith
sell_once-gone unconfirmed fresh hint w z h = ground arith
sell_once-gone (rejected pending) fresh hint w z h = ground arith
sell_once-gone (receipt status none eth) fresh hint w z h = ground arith
sell_once-gone (receipt status (some balance) eth) fresh hint w z h = ground arith

sell_each-gone :
    (answers : ℕ → SaleAnswer) (fresh : ℕ → Option ℕ) (quote total : ℕ) (ws : List Wallet)
    → ((a : ℕ) → ReadsZero (answers a))
    → (sell_each answers fresh quote total ws).2 ≡ true
    → total_held (sell_each answers fresh quote total ws).0 ≡ 0
unfolding sell_each total_held
sell_each-gone answers fresh quote total [] z h = refl
sell_each-gone answers fresh quote total (w ∷ ws) z h = ground (
  arith,
  sell_once-gone (answers w.addr) fresh (share quote w.token_raw total) w (z w.addr),
  sell_each-gone answers fresh quote total ws z,
)

-- If the batch reports no error and every balance read after a receipt is 0, the wallets of the batch
-- hold nothing, whichever of these reads failed.
pub sell_wallets_fast-gone :
    (answers : ℕ → SaleAnswer) (fresh : ℕ → Option ℕ) (quote quoted : ℕ) (ws : List Wallet)
    → ((a : ℕ) → ReadsZero (answers a))
    → (sell_wallets_fast answers fresh quote quoted ws).2 ≡ true
    → total_held (sell_wallets_fast answers fresh quote quoted ws).0 ≡ 0
unfolding sell_wallets_fast
sell_wallets_fast-gone answers fresh quote quoted ws z h =
    let total = total_held ws in
    let q = batch_quote (or_no_quote (fresh total)) quote quoted total in
    ground (arith, sell_each-gone answers fresh q total ws z)
