-- ===== src/Mm/Engine.antt =====
-- internal/ponsmm/engine.go: the state machine of the market maker. The record holds the fields that
-- `Run` and its goroutines share; each function is a method of that name, with the answers of the
-- chain as arguments. A goroutine's effect is an operation of its own, so that goroutines and the
-- event loop interleave as sequences of operations (Engine/Loop).
pub mod Retail
pub mod Exit
pub mod Loop
pub mod Stopping
pub mod Rounds
pub mod Batches
pub mod FullExit
pub mod Accumulating
use pons_mm_desktop.Prelude.{
  ℕ, ◌+◌, ◌-◌, ◌%◌, Bool, true, false, ◌&&◌, not, Option, none, some, List, [], ◌∷◌, map, ◌==◌,
  if◌then◌else◌, ltb, length, take, keep, elem,
}
use pons_mm_desktop.Prelude.Int.{ℤ, pos, leb_ℤ}
use pons_mm_desktop.Mm.Wallets.{Wallet, wallet_addrs}
use pons_mm_desktop.Mm.Decide.{State, launching, accumulating, distributing, clear_all, done}
use pons_mm_desktop.Mm.Monitor.{Monitor, mark_our_tx}
use pons_mm_desktop.Mm.Monitor.Retail.{Fill, bought, sold, record_fills}
use pons_mm_desktop.Mm.Stats.{Stats, Entry, sell, buy, post_all}
use pons_mm_desktop.Mm.Sale.{SaleAnswer, sell_wallets_fast, total_held}

-- A batch that a goroutine executes: whole wallets to sell, with a quote and the amount it was made
-- for, or the makers that buy, with what each spends.
pub data Batch : Type 0 where
  sales : List ℕ → ℕ → ℕ → Batch
  spends : List (ℕ × ℕ) → Batch

-- `results` counts the values in the channel `distributionResults`; `batch` is the goroutine that
-- will send the next one. `buy_round_cancelled` is the state of the context of the running round.
-- `wallets` is `pool.All()`.
pub record Engine : Type 0 where
  pub state : State
  pub retail_response_active : Bool
  pub round_running : Bool
  pub batch : Option Batch
  pub results : ℕ
  pub batch_size : ℕ
  pub pending_buys : ℕ
  pub buy_round_running : Bool
  pub buy_round_cancelled : Bool
  pub retail_hold_logged : Bool
  pub wallets : List Wallet
  pub monitor : Monitor
  pub stats : Stats

-- The parameters that the state machine reads: the response mode, the target ratio (its sign is all
-- that matters here), the protocol.
pub record Config : Type 0 where
  pub target_mode : Bool
  pub ratio : ℤ
  pub v2 : Bool

-- The answers of the chain during one operation: sales by address, `quoteSell` by amount, the token
-- balances by address, the random number, and the plan of `planTargetResponse`.
pub record Chain : Type 0 where
  pub sale : ℕ → SaleAnswer
  pub fresh : ℕ → Option ℕ
  pub balances : Option (ℕ → ℕ)
  pub draw : ℕ
  pub plan : Option Batch

abbrev pub is_distributing : State → Bool
is_distributing distributing = true
is_distributing _ = false

abbrev pub is_clear_all : State → Bool
is_clear_all clear_all = true
is_clear_all _ = false

abbrev pub is_accumulating : State → Bool
is_accumulating accumulating = true
is_accumulating _ = false

abbrev pub is_done : State → Bool
is_done done = true
is_done _ = false

-- Nothing is pending and no wallet holds anything.
abbrev pub drained : Engine → Bool
drained e = e.pending_buys == 0 && total_held e.wallets == 0

unfoldable pub add_pending_buy : Engine → Engine
add_pending_buy e = record e { pending_buys = e.pending_buys + 1 }

-- Guarded at 0 in the source, where `-` stops.
unfoldable pub finish_pending_buy : Engine → Engine
finish_pending_buy e = record e { pending_buys = e.pending_buys - 1 }

-- `buyOnce` marks its transaction before it sends it, and counts it once the node has taken it: two
-- steps, with no lock over both.
unfoldable pub buy_marked : ℕ → Engine → Engine
unfolding mark_our_tx
buy_marked tx e = record e { monitor = mark_our_tx tx e.monitor }

-- The cancel function is there exactly while a round runs.
unfoldable pub interrupt_buys : Engine → Engine
interrupt_buys e = if e.buy_round_running then record e { buy_round_cancelled = true } else e

-- Outside buyers hold, and the target ratio is not positive.
unfoldable pub pump_paused_for_retail_hold : Config → Engine → Bool
pump_paused_for_retail_hold cfg e =
    if not cfg.target_mode
    then false
    else if not (leb_ℤ cfg.ratio (pos 0))
    then false
    else ltb 0 e.monitor.retail_net_tokens

unfoldable pub start_accumulation_round : Config → Engine → Engine
unfolding pump_paused_for_retail_hold
start_accumulation_round cfg e =
    let flat = record e { retail_hold_logged = false } in
    if ltb 0 e.pending_buys
    then e
    else if pump_paused_for_retail_hold cfg e
    then record e { retail_hold_logged = true }
    else if e.buy_round_running
    then flat
    else record flat { buy_round_running = true; buy_round_cancelled = false }

-- The deferred function of the round's goroutine.
unfoldable pub end_accumulation_round : Engine → Engine
end_accumulation_round e = record e { buy_round_running = false; buy_round_cancelled = false }

abbrev pub distribution_batch_min : ℕ
distribution_batch_min = 4

abbrev pub distribution_batch_max : ℕ
distribution_batch_max = 6

-- The wallets that hold something, in order.
abbrev pub holding : List Wallet → List Wallet
holding ws = keep (λ (w : Wallet). not (w.token_raw == 0)) ws

-- The size of the batches is drawn once for each response; `mrand.IntN` is below its argument.
abbrev pub drawn_size : ℕ → ℕ → ℕ
drawn_size draw size =
    if size == 0
    then distribution_batch_min + draw % (distribution_batch_max - distribution_batch_min + 1)
    else size

unfoldable pub distribution_wallet_batch : ℕ → Engine → List Wallet × Engine
distribution_wallet_batch draw e =
    let held = holding e.wallets in
    let size = drawn_size draw e.batch_size in
    if length held == 0 then ([], e) else (take size held, record e { batch_size = size })

-- `startDistributionRoundQuoted`; the quote and its amount are 0 where the source passes nil.
unfoldable pub start_distribution_round : ℕ → ℕ → ℕ → Engine → Engine
unfolding distribution_wallet_batch
start_distribution_round draw quote quoted e =
    let (chosen, e') = distribution_wallet_batch draw e in
    if e.round_running
    then e
    else if length chosen == 0
    then (if drained e' then record e' { retail_response_active = false; state = done } else e')
    else record e' { round_running = true; batch = some (sales (wallet_addrs chosen) quote quoted) }

-- What the channel delivers at the end of a batch.
unfoldable pub apply_distribution_result : Engine → Engine
apply_distribution_result e =
    let e' = record e { round_running = false; results = e.results - 1 } in
    if is_distributing e'.state && drained e'
    then record e' { retail_response_active = false; state = done }
    else e'

-- `RecordOurSell` and `recordSell`, or `RecordOurBuy` and `recordBuy`, for each confirmed order.
abbrev pub entry_of : Fill → Entry
entry_of (bought weth tokens) = buy (some weth)
entry_of (sold tokens weth) = sell (some tokens) (some weth)

unfoldable pub book : List Fill → Engine → Engine
book fs e = record e {
  monitor = record_fills fs e.monitor;
  stats = post_all (map entry_of fs) e.stats;
}

-- The first wallet of an address, or `w`.
abbrev pub wallet_or : Wallet → List Wallet → ℕ → Wallet
wallet_or w [] a = w
wallet_or w (x ∷ xs) a = let rest = wallet_or w xs a in if x.addr == a then x else rest

-- Wallets are shared pointers: what a batch did to a wallet is seen in the pool.
unfoldable pub put_wallets : List Wallet → List Wallet → List Wallet
put_wallets changed ws = map (λ (w : Wallet). wallet_or w changed w.addr) ws

abbrev pub chosen_wallets : List ℕ → List Wallet → List Wallet
chosen_wallets addrs ws = keep (λ (w : Wallet). elem w.addr addrs) ws

-- The goroutine of a batch: `sellWalletBatch`, or the sales of `execTargetResponse`, and then the
-- send on the channel. The buys of `execTargetResponse` are separate broadcasts.
unfoldable pub execute_batch : Chain → Engine → Engine
unfolding put_wallets book
execute_batch chain e = elim e.batch [
  | none ↦ e
  | some b ↦
      let ended : Engine = record e { batch = none; results = e.results + 1 } in
      elim b [
        | spends xs ↦ ended
        | sales addrs quote quoted ↦
            let (after, fills, no_error) =
              sell_wallets_fast chain.sale chain.fresh quote quoted
                (chosen_wallets addrs e.wallets) in
            book fills (record ended { wallets = put_wallets after e.wallets })
      ]
]
