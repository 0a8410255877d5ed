-- ===== src/Mm/Sale.antt =====
-- The selling half of internal/ponsmm/engine.go: `sellOnceWithQuote`, `sellWalletsFast` and
-- `sellWalletFast`. What the chain does to one sale is an argument for each wallet. The concurrent
-- sales of a batch touch different wallets, so they are made in the order of the list.
pub mod Shares
pub mod Clearing
use pons_mm_desktop.Prelude.{
  ℕ, ◌+◌, ◌-◌, ◌*◌, ◌/◌, Bool, true, false, ◌&&◌, ◌||◌, not, Option, none, some, List, [], ◌∷◌,
  ◌==◌, if◌then◌else◌, ltb,
}
use pons_mm_desktop.Mm.Wallets.{
  Wallet, accepted, refused, send, set_eth_balance, set_token_balance, subtract_token,
}
use pons_mm_desktop.Mm.Decide.{apply_sell_slippage}
use pons_mm_desktop.Mm.Monitor.Retail.{Fill, sold}

-- What happens to one sale: an error before the broadcast (graduation, approval, gas, build), a
-- broadcast that the node refuses, no receipt, or a receipt. The receipt has a status; then come the
-- token balance and the ETH balance of the wallet, `none` if the read fails. (The ETH cache of v1 is
-- the one that unwrapping the proceeds leaves.)
pub data SaleAnswer : Type 0 where
  not_sent unconfirmed : SaleAnswer
  rejected : Option ℕ → SaleAnswer
  receipt : Bool → Option ℕ → Option ℕ → SaleAnswer

-- The minimum that a sale accepts, at least 1 wei.
unfoldable pub min_out : ℕ → ℕ
min_out quote = let least = apply_sell_slippage quote in if least == 0 then 1 else least

-- Never more than the wallet still holds.
abbrev pub sale_amount : ℕ → ℕ → ℕ
sale_amount planned current = if ltb current planned then current else planned

-- A sale that is confirmed is booked at the quote that priced it.
unfoldable pub settle_sale : Option ℕ → Option ℕ → ℕ → ℕ → Wallet → Wallet × Option Fill × Bool
settle_sale after eth tokens quote w =
    let w' : Wallet = elim after [
      | some balance ↦ set_token_balance balance w
      | none ↦ subtract_token tokens w
    ] in
    let w'' : Wallet = elim eth [ some wei ↦ set_eth_balance wei w' | none ↦ w' ] in
    (w'', some (sold tokens quote), true)

-- `sellOnceWithQuote` on the wallet's cache: the wallet, the fill that is booked, and the absence of
-- an error. A receipt that says that the sale reverted is an error of `WaitReceipt`. `fresh` is the answer of `quoteSell` for an amount, which replaces a hint of 0. The hash
-- that is marked as ours and the gas of the receipt concern the monitor and the statistics alone.
unfoldable pub sell_once :
    SaleAnswer → (ℕ → Option ℕ) → ℕ → ℕ → Wallet → Wallet × Option Fill × Bool
unfolding settle_sale send
sell_once answer fresh planned hint w =
    let tokens = sale_amount planned w.token_raw in
    if w.token_raw == 0
    then (w, none, true)
    else elim (if hint == 0 then fresh tokens else some hint) [
      | none ↦ (w, none, false)
      | some quote ↦ elim answer [
        | not_sent ↦ (w, none, false)
        | rejected pending ↦ ((send (refused pending) w).0, none, false)
        | unconfirmed ↦ ((send accepted w).0, none, false)
        | receipt status after eth ↦
            if status
            then settle_sale after eth tokens quote (send accepted w).0
            else ((send accepted w).0, none, false)
      ]
    ]

unfoldable pub total_held : List Wallet → ℕ
total_held [] = 0
total_held (w ∷ ws) = w.token_raw + total_held ws

-- The part of the aggregate quote that falls to one wallet.
abbrev pub share : ℕ → ℕ → ℕ → ℕ
share total_quote amount total_tokens = total_quote * amount / total_tokens

-- The price of the batch: `fresh` is a new quote for the batch's tokens; a quote in hand is rescaled
-- where it was made for another amount (`quoted_tokens`, 0 for the nil pointer).
unfoldable pub batch_quote : ℕ → ℕ → ℕ → ℕ → ℕ
batch_quote fresh total_quote quoted_tokens total_tokens =
    if total_quote == 0
    then fresh
    else if not (quoted_tokens == 0) && not (quoted_tokens == total_tokens)
    then total_quote * total_tokens / quoted_tokens
    else total_quote

abbrev pub booked : Option Fill → List Fill → List Fill
booked none fs = fs
booked (some f) fs = f ∷ fs

-- The sales of a batch, each of its wallet's whole balance at its share of the quote.
unfoldable pub sell_each :
    (ℕ → SaleAnswer) → (ℕ → Option ℕ) → ℕ → ℕ → List Wallet → List Wallet × List Fill × Bool
unfolding sell_once
sell_each answers fresh quote total [] = ([], [], true)
sell_each answers fresh quote total (w ∷ ws) =
    let hint = share quote w.token_raw total in
    let one = sell_once (answers w.addr) fresh w.token_raw hint w in
    let rest = sell_each answers fresh quote total ws in
    (one.0 ∷ rest.0, booked one.1 rest.1, one.2 && rest.2)

abbrev pub or_no_quote : Option ℕ → ℕ
or_no_quote none = 0
or_no_quote (some q) = q

-- `sellWalletsFast`. Wallets that hold nothing are not planned; they pass through unchanged.
unfoldable pub sell_wallets_fast :
    (ℕ → SaleAnswer) → (ℕ → Option ℕ) → ℕ → ℕ → List Wallet → List Wallet × List Fill × Bool
unfolding sell_each total_held batch_quote
sell_wallets_fast answers fresh total_quote quoted_tokens ws =
    let total = total_held ws in
    let quote = batch_quote (or_no_quote (fresh total)) total_quote quoted_tokens total in
    if total == 0 then (ws, [], true) else sell_each answers fresh quote total ws

-- `sellWalletFast` with the fraction 1, which is all the engine calls it with.
unfoldable pub sell_wallet_fast : SaleAnswer → (ℕ → Option ℕ) → Wallet → Wallet × Option Fill × Bool
unfolding sell_once
sell_wallet_fast answer fresh w =
    let hint = or_no_quote (fresh w.token_raw) in
    if w.token_raw == 0 then (w, none, true) else sell_once answer fresh w.token_raw hint w
