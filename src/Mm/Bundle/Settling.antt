-- ===== src/Mm/Bundle/Settling.antt =====
-- How the buys of a bundle are settled (`settleBundledBuy`, `settleAtomicBuys` and `withdrawDeposits` in
-- internal/ponsmm/bundle.go). The ABI decoder and what the node answers are arguments.
pub mod Atomic
use pons_mm_desktop.Prelude.{
  ℕ, ◌+◌, ◌-◌, Bool, true, false, ◌&&◌, not, Option, none, some, List, [], ◌∷◌, ◌==◌, if◌then◌else◌,
  map,
}
use pons_mm_desktop.Pons.Client.{Waited}
use pons_mm_desktop.Pons.Events.{
  Log, Abi, RoutedBuy, CurveTrade, routed_buys_from_receipt, routed_buy_from_receipt,
  curve_trades_from_receipt,
}
use pons_mm_desktop.Mm.Wallets.{Wallet, SendAnswer, send, set_eth_balance, set_token_balance}
use pons_mm_desktop.Mm.Monitor.Retail.{Fill, bought}
use pons_mm_desktop.Mm.Bundle.{BundleBuy}
use pons_mm_desktop.Mm.Engine.Exit.{Settlement}

-- The tokens of the curve's buys for a recipient.
abbrev pub curve_bought : ℕ → List CurveTrade → ℕ
curve_bought who [] = 0
curve_bought who (t ∷ ts) =
    let rest = curve_bought who ts in
    if t.is_buy && t.recipient == who then t.token_amount + rest else rest

abbrev pub failed_buy : ℕ → ℕ → Settlement
failed_buy wallet spend = record {
  wallet = wallet;
  weth_in = spend;
  tokens_got = 0;
  eth_after = none;
  failed = true;
}

-- A buy that is filled: by the router's event for the wallet, or by the curve's.
unfoldable pub filled_buy : Option RoutedBuy → List CurveTrade → Option ℕ → ℕ → ℕ → Settlement
filled_buy (some rb) trades eth wallet spend = record {
  wallet = wallet;
  weth_in = spend - rb.refunded;
  tokens_got = rb.tokens_out;
  eth_after = eth;
  failed = false;
}
filled_buy none trades eth wallet spend = record {
  wallet = wallet;
  weth_in = spend;
  tokens_got = curve_bought wallet trades;
  eth_after = eth;
  failed = false;
}

-- `settleBundledBuy`: an error of the wait, a receipt of a failure, or the fill. The ETH cache that a
-- revert refreshes is not part of the settlement.
unfoldable pub settle_bundled_buy : Abi → ℕ → Waited → List Log → Option ℕ → ℕ → ℕ → Settlement
unfolding filled_buy
settle_bundled_buy abi router waited logs eth wallet spend = elim waited.error [
  | some e ↦ failed_buy wallet spend
  | none ↦ elim waited.status [
    | none ↦ failed_buy wallet spend
    | some false ↦ failed_buy wallet spend
    | some true ↦
        filled_buy (routed_buy_from_receipt abi router wallet logs)
          (curve_trades_from_receipt abi logs) eth wallet spend
  ]
]

-- What a routed buy spent. The source subtracts in big.Int, so a refund above the amount paid in would
-- make it negative there and 0 here.
abbrev pub spent_by : RoutedBuy → ℕ
spent_by rb = rb.quote_in - rb.refunded

-- The map `byWallet`: the last fill of a recipient.
abbrev pub fill_for : ℕ → List RoutedBuy → Option RoutedBuy
fill_for who [] = none
fill_for who (rb ∷ rbs) =
    let rest = fill_for who rbs in
    elim rest [ some later ↦ some later | none ↦ if rb.recipient == who then some rb else none ]

abbrev pub filled_wallet : Option RoutedBuy → Wallet → Wallet
filled_wallet none w = w
filled_wallet (some rb) w = set_token_balance rb.tokens_out w

abbrev pub with_fill : Option RoutedBuy → List Fill → List Fill
with_fill none fs = fs
with_fill (some rb) fs = bought (spent_by rb) rb.tokens_out ∷ fs

-- The loop over the makers: the wallets, and the fills that the monitor and the statistics record.
unfoldable pub settle_makers : List RoutedBuy → List BundleBuy → List Wallet × List Fill
settle_makers routed [] = ([], [])
settle_makers routed (b ∷ bs) =
    let rest = settle_makers routed bs in
    let rb = fill_for b.wallet.addr routed in
    (filled_wallet rb b.wallet ∷ rest.0, with_fill rb rest.1)

-- `settleAtomicBuys` on the launch receipt's logs, without the refresh of the ETH balances. The withdrawal
-- that it starts at its end is withdraw_deposits.
unfoldable pub settle_atomic_buys : Abi → ℕ → List Log → List BundleBuy → List Wallet × List Fill
unfolding settle_makers
settle_atomic_buys abi router logs buys =
    settle_makers (routed_buys_from_receipt abi router logs) buys

-- What one withdrawal meets: the parked deposit, whether the transaction is built, what the node says to
-- it, whether its receipt comes without an error, and the ETH balance then.
pub record WithdrawAnswers : Type 0 where
  pub deposit : Option ℕ
  pub built : Bool
  pub answer : SendAnswer
  pub confirmed : Bool
  pub eth : Option ℕ

abbrev pub after_receipt : Bool → Option ℕ → Wallet → Wallet
after_receipt true (some balance) w = set_eth_balance balance w
after_receipt _ _ w = w

abbrev pub after_broadcast : WithdrawAnswers → Wallet × Bool → Wallet
after_broadcast a (w, sent) = if sent then after_receipt a.confirmed a.eth w else w

-- The withdrawal of one maker.
unfoldable pub withdraw_deposit : WithdrawAnswers → Wallet → Wallet
unfolding send
withdraw_deposit a w = elim a.deposit [
  | none ↦ w
  | some parked ↦
      if parked == 0 then w else if a.built then after_broadcast a (send a.answer w) else w
]

-- `withdrawDeposits`. The actions touch different wallets.
unfoldable pub withdraw_deposits : (ℕ → WithdrawAnswers) → List Wallet → List Wallet
unfolding withdraw_deposit
withdraw_deposits answers ws = map (λ w. withdraw_deposit (answers w.addr) w) ws
