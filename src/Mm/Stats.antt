-- ===== src/Mm/Stats.antt =====
-- internal/ponsmm/stats.go: the cumulative statistics of one engine run. Counters and sums start at 0,
-- which `ensureStats` gives nil values, and are unbounded; snapshots are values, so `cloneStats` is
-- the identity.
pub mod Ledger
use pons_mm_desktop.Prelude.{ℕ, ◌+◌, ◌*◌, Option, none, some, List, [], ◌∷◌, ◌==◌, if◌then◌else◌}
use pons_mm_desktop.Prelude.Int.{ℤ, pos, ◌+ℤ◌, ◌-ℤ◌}

pub record Stats : Type 0 where
  pub buy_count : ℕ
  pub sell_count : ℕ
  pub eth_spent_wei : ℕ
  pub eth_received_wei : ℕ
  pub tokens_sold_raw : ℕ
  pub gas_fee_wei : ℕ
  pub launch_fee_wei : ℕ
  pub start_balance_wei : Option ℕ
  pub end_balance_wei : Option ℕ
  pub mark_balance_wei : Option ℕ
  pub estimated_profit_wei : Option ℤ

abbrev pub new_stats : Stats
new_stats = record {
  buy_count = 0;
  sell_count = 0;
  eth_spent_wei = 0;
  eth_received_wei = 0;
  tokens_sold_raw = 0;
  gas_fee_wei = 0;
  launch_fee_wei = 0;
  start_balance_wei = none;
  end_balance_wei = none;
  mark_balance_wei = none;
  estimated_profit_wei = none;
}

abbrev pub or_zero : Option ℕ → ℕ
or_zero none = 0
or_zero (some n) = n

-- `Stats.TotalCostWei`.
unfoldable pub overhead_wei : Stats → ℕ
overhead_wei s = s.gas_fee_wei + s.launch_fee_wei

-- The parts of a receipt that count: the effective gas price, which may be absent, and the gas used.
pub record Receipt : Type 0 where
  pub effective_gas_price : Option ℕ
  pub gas_used : ℕ

unfoldable pub record_gas : Option Receipt → Stats → Stats
record_gas none s = s
record_gas (some r) s = elim r.effective_gas_price [
  | none ↦ s
  | some price ↦ record s { gas_fee_wei = s.gas_fee_wei + price * r.gas_used }
]

unfoldable pub record_launch_cost : Option ℕ → Option Receipt → Stats → Stats
unfolding record_gas
record_launch_cost fee receipt s =
    record_gas receipt (record s { launch_fee_wei = s.launch_fee_wei + or_zero fee })

unfoldable pub record_buy : Option ℕ → Stats → Stats
record_buy weth_in s = record s {
  buy_count = s.buy_count + 1;
  eth_spent_wei = s.eth_spent_wei + or_zero weth_in;
}

unfoldable pub record_sell : Option ℕ → Option ℕ → Stats → Stats
record_sell tokens quote s = record s {
  sell_count = s.sell_count + 1;
  tokens_sold_raw = s.tokens_sold_raw + or_zero tokens;
  eth_received_wei = s.eth_received_wei + or_zero quote;
}

-- `Engine.totalCostWei`: the hurdle of a profitable exit.
unfoldable pub total_cost_wei : ℤ → Stats → ℤ
unfolding overhead_wei
total_cost_wei net_spent s = pos (overhead_wei s) +ℤ net_spent

-- Only the first capture counts.
unfoldable pub capture_start_balance : ℕ → Stats → Stats
capture_start_balance total s = elim s.start_balance_wei [
  | none ↦ record s { start_balance_wei = some total }
  | some old ↦ s
]

-- The mark, and the profit where the start is known.
unfoldable pub mark_to_market : Option ℕ → Option ℕ → Option ℕ → ℕ × Option ℤ
mark_to_market eth_now quoted_exit start =
    let mark = or_zero eth_now + or_zero quoted_exit in
    (mark, elim start [ none ↦ none | some from ↦ some (pos mark -ℤ pos from) ])

-- `refreshMarkToMarket`: `tokens` is the pool's holding and `quote` the answer for it, `none` an error.
unfoldable pub refresh_mark_to_market : ℕ → ℕ → Option ℕ → Stats → Stats
unfolding mark_to_market
refresh_mark_to_market eth_now tokens quote s =
    let marked = λ (quoted : ℕ). mark_to_market (some eth_now) (some quoted) s.start_balance_wei in
    elim s.start_balance_wei [
      | none ↦ s
      | some from ↦ elim (if tokens == 0 then some 0 else quote) [
        | none ↦ s
        | some q ↦ record s {
          mark_balance_wei = some (marked q).0;
          estimated_profit_wei = (marked q).1;
        }
      ]
    ]

-- `finalizeStats`, with the closing sum of the balances if they could be read.
unfoldable pub finalize_stats : Option ℕ → Stats → Stats
finalize_stats none s = s
finalize_stats (some total) s = record s { end_balance_wei = some total }

-- One update of the statistics by the engine.
pub data Entry : Type 0 where
  gas : Option Receipt → Entry
  launch_cost : Option ℕ → Option Receipt → Entry
  buy : Option ℕ → Entry
  sell : Option ℕ → Option ℕ → Entry
  start_captured : ℕ → Entry
  marked : ℕ → ℕ → Option ℕ → Entry
  finalized : Option ℕ → Entry

unfoldable pub post : Entry → Stats → Stats
unfolding record_gas record_launch_cost record_buy record_sell capture_start_balance
    refresh_mark_to_market finalize_stats
post (gas r) s = record_gas r s
post (launch_cost fee r) s = record_launch_cost fee r s
post (buy weth) s = record_buy weth s
post (sell tokens quote) s = record_sell tokens quote s
post (start_captured total) s = capture_start_balance total s
post (marked eth tokens quote) s = refresh_mark_to_market eth tokens quote s
post (finalized total) s = finalize_stats total s

unfoldable pub post_all : List Entry → Stats → Stats
post_all [] s = s
post_all (e ∷ es) s = post_all es (post e s)
