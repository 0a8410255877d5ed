-- ===== src/Mm/Engine/Exit.antt =====
-- The exits of internal/ponsmm/engine.go: `clearAllStep`, `exitAllStep`, `finishDrainIfEmpty`, and the
-- settlement of a buy, which may have to sell what arrives during an exit.
use pons_mm_desktop.Prelude.{
  ℕ, ◌-◌, Bool, true, false, ◌&&◌, Option, none, some, List, [], ◌∷◌, map, ◌==◌, if◌then◌else◌,
}
use pons_mm_desktop.Mm.Wallets.{Wallet, fresh_wallet, set_token_balance, set_eth_balance}
use pons_mm_desktop.Mm.Decide.{launching, accumulating, distributing, clear_all, done}
use pons_mm_desktop.Mm.Monitor.Retail.{bought}
use pons_mm_desktop.Mm.Sale.{or_no_quote, booked, sell_wallet_fast, sell_wallets_fast, total_held}
use pons_mm_desktop.Mm.Engine.{
  Engine, Chain, book, drained, finish_pending_buy, is_clear_all, put_wallets,
  start_distribution_round, wallet_or,
}

unfoldable pub quote_sell_all : Chain → ℕ → ℕ
quote_sell_all chain tokens = if tokens == 0 then 0 else or_no_quote (chain.fresh tokens)

unfoldable pub finish_drain_if_empty : Engine → Engine
finish_drain_if_empty e = if is_clear_all e.state && drained e then record e { state = done } else e

-- A failed read leaves the cache in place.
unfoldable pub refresh_tokens_for_exit : Chain → Engine → Engine
refresh_tokens_for_exit chain e = elim chain.balances [
  | none ↦ e
  | some balances ↦ record e {
    wallets = map (λ (w : Wallet). set_token_balance (balances w.addr) w) e.wallets;
  }
]

-- The flag is the absence of an error; with an error the drain is not checked.
unfoldable pub clear_all_step_with_quote : Chain → ℕ → Engine → Engine × Bool
unfolding finish_drain_if_empty
clear_all_step_with_quote chain quote e =
    let (after, fills, no_error) = sell_wallets_fast chain.sale chain.fresh quote 0 e.wallets in
    let e' = book fills (record e { wallets = after }) in
    if no_error then (finish_drain_if_empty e', true) else (e', false)

unfoldable pub clear_all_step : Chain → Engine → Engine × Bool
unfolding refresh_tokens_for_exit clear_all_step_with_quote
clear_all_step chain e =
    let e' = refresh_tokens_for_exit chain e in
    clear_all_step_with_quote chain (quote_sell_all chain (total_held e'.wallets)) e'

unfoldable pub exit_all_step : Chain → Engine → Engine × Bool
unfolding refresh_tokens_for_exit clear_all_step_with_quote
exit_all_step chain e =
    let e' = refresh_tokens_for_exit chain e in
    clear_all_step_with_quote chain (quote_sell_all chain (total_held e'.wallets)) e'

-- What the receipt of a buy brings: no receipt, a reverted transaction, or the tokens of its trades
-- and the balances that are read afterwards.
pub data BuyReceipt : Type 0 where
  unconfirmed reverted : BuyReceipt
  confirmed : ℕ → Option ℕ → Option ℕ → BuyReceipt

pub record Settlement : Type 0 where
  pub wallet : ℕ
  pub weth_in : ℕ
  pub tokens_got : ℕ
  pub eth_after : Option ℕ
  pub failed : Bool

abbrev pub gained : ℕ → Option ℕ → ℕ
gained before none = 0
gained before (some after) = after - before

-- `settleBuy`: the tokens of the trades, else the difference of the balances. The ETH cache that a
-- reverted buy refreshes at once is not part of the settlement.
unfoldable pub settle_buy : BuyReceipt → ℕ → ℕ → ℕ → Settlement
settle_buy (confirmed traded after eth) wallet weth_in before =
    let got = if traded == 0 then gained before after else traded in
    record { wallet = wallet; weth_in = weth_in; tokens_got = got; eth_after = eth; failed = false }
settle_buy _ wallet weth_in before = record {
  wallet = wallet;
  weth_in = weth_in;
  tokens_got = 0;
  eth_after = none;
  failed = true;
}

abbrev pub settled_wallet : Chain → Settlement → Wallet → Wallet
settled_wallet chain s w =
    let w' : Wallet = elim chain.balances [
      | none ↦ w
      | some balances ↦ set_token_balance (balances w.addr) w
    ] in
    elim s.eth_after [ none ↦ w' | some eth ↦ set_eth_balance eth w' ]

-- The wallet that the buy was made from.
abbrev pub at_wallet : (Wallet → Wallet) → ℕ → List Wallet → List Wallet
at_wallet f a [] = []
at_wallet f a (w ∷ ws) = let rest = at_wallet f a ws in if w.addr == a then f w ∷ ws else w ∷ rest

-- The residual sale of a buy that is confirmed during an exit.
unfoldable pub sell_residual : Chain → ℕ → Engine → Engine
unfolding put_wallets
sell_residual chain a e =
    let w = wallet_or (fresh_wallet a) e.wallets a in
    let (w', fill, no_error) = sell_wallet_fast (chain.sale a) chain.fresh w in
    book (booked fill []) (record e { wallets = put_wallets (w' ∷ []) e.wallets })

unfoldable pub apply_buy_settlement : Chain → Settlement → Engine → Engine
unfolding finish_pending_buy finish_drain_if_empty sell_residual
apply_buy_settlement chain s e =
    let e0 = finish_pending_buy e in
    let credited =
      book (bought s.weth_in s.tokens_got ∷ [])
        (record e0 { wallets = at_wallet (settled_wallet chain s) s.wallet e0.wallets }) in
    if s.failed then finish_drain_if_empty e0 else elim credited.state [
      | clear_all ↦ finish_drain_if_empty (sell_residual chain s.wallet credited)
      | distributing ↦
          if credited.retail_response_active
          then start_distribution_round chain.draw 0 0 credited
          else credited
      | launching ↦ credited
      | accumulating ↦ credited
      | done ↦ credited
    ]
