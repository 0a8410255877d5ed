-- ===== src/Mm/Monitor.antt =====
-- internal/ponsmm/monitor.go: what the engine knows of the market. The record holds the fields under
-- `m.mu` and the buffered channel `Retail`; each function is a method, with the clock and the answers
-- of the chain as arguments. Amounts of the chain are numbers; the net investment is an integer.
pub mod Dedup
pub mod Retail
pub mod Replay
use pons_mm_desktop.Prelude.{
  ℕ, ◌+◌, ◌-◌, ◌<◌, Bool, true, false, ◌&&◌, ◌||◌, Option, none, some, List, [], ◌∷◌, ◌++◌, ◌==◌,
  if◌then◌else◌, ltb, leb, length, elem,
}
use pons_mm_desktop.Prelude.Int.{ℤ, pos, ◌+ℤ◌, ◌-ℤ◌}

-- A price in wei per whole token, as the fraction that the source rounds to a big.Float.
pub record Price : Type 0 where
  pub weth : ℕ
  pub tokens : ℕ

pub record PoolTrade : Type 0 where
  pub is_buy : Bool
  pub token_amount : ℕ
  pub weth_amount : ℕ
  pub sender : ℕ
  pub recipient : ℕ
  pub log_index : ℕ
  pub tx_hash : ℕ

pub record RetailEvent : Type 0 where
  pub is_buy : Bool
  pub token_amount : ℕ
  pub weth_amount : ℕ
  pub price : Option Price
  pub trader : ℕ
  pub at : ℕ

pub record Monitor : Type 0 where
  pub retail : List RetailEvent
  pub our_weth_spent : ℤ
  pub our_tokens : ℕ
  pub cost_basis_known : Bool
  pub retail_net_tokens : ℕ
  pub retail_last_buy_px : Option Price
  pub retail_buy_weth : ℕ
  pub retail_buy_tokens : ℕ
  pub last_retail_buy_at : ℕ
  pub last_retail_sell_at : ℕ
  pub last_price : Option Price
  pub last_trade_at : ℕ
  pub pool_token_reserve : ℕ
  pub pool_quote_reserve : ℕ
  pub reserves_at : Option ℕ
  pub own_tx : List ℕ
  pub start_block : ℕ
  pub seen_trades : List (ℕ × ℕ)

-- The capacity of the channel `Retail`.
abbrev pub retail_capacity : ℕ
retail_capacity = 4096

unfoldable pub new_monitor : Monitor
new_monitor = record {
  retail = [];
  our_weth_spent = pos 0;
  our_tokens = 0;
  cost_basis_known = true;
  retail_net_tokens = 0;
  retail_last_buy_px = none;
  retail_buy_weth = 0;
  retail_buy_tokens = 0;
  last_retail_buy_at = 0;
  last_retail_sell_at = 0;
  last_price = none;
  last_trade_at = 0;
  pool_token_reserve = 0;
  pool_quote_reserve = 0;
  reserves_at = none;
  own_tx = [];
  start_block = 0;
  seen_trades = [];
}

unfoldable pub set_start_block : ℕ → Monitor → Monitor
set_start_block block m = record m { start_block = block }

unfoldable pub mark_our_tx : ℕ → Monitor → Monitor
mark_our_tx h m = record m { own_tx = h ∷ m.own_tx }

unfoldable pub record_our_buy : ℕ → ℕ → Monitor → Monitor
record_our_buy weth_spent tokens_got m = record m {
  our_weth_spent = m.our_weth_spent +ℤ pos weth_spent;
  our_tokens = m.our_tokens + tokens_got;
}

-- The source resets a negative token count to 0, which is where `-` stops.
unfoldable pub record_our_sell : ℕ → ℕ → Monitor → Monitor
record_our_sell tokens_sold weth_got m = record m {
  our_weth_spent = m.our_weth_spent -ℤ pos weth_got;
  our_tokens = m.our_tokens - tokens_sold;
}

unfoldable pub price_wei_per_token : ℕ → ℕ → Option Price
price_wei_per_token weth tokens =
    if tokens == 0 then none else some (record { weth = weth; tokens = tokens })

-- `CachedReserves`: the pair, unless it is missing or older than two seconds (in milliseconds).
abbrev pub reserve_cache_max_age : ℕ
reserve_cache_max_age = 2000

unfoldable pub cached_reserves : ℕ → Monitor → Option (ℕ × ℕ)
cached_reserves now m = elim m.reserves_at [
  | none ↦ none
  | some at ↦
      if ltb reserve_cache_max_age (now - at)
      then none
      else some (m.pool_quote_reserve, m.pool_token_reserve)
]

-- `RefreshReserves` in curve mode and in pool mode; a failed read changes nothing.
unfoldable pub refresh_curve_reserves : ℕ → Option (ℕ × ℕ) → Monitor → Monitor
refresh_curve_reserves now none m = m
refresh_curve_reserves now (some (quote, token)) m = record m {
  pool_token_reserve = token;
  pool_quote_reserve = quote;
  reserves_at = some now;
}

unfoldable pub refresh_pool_reserves : Option ℕ → Monitor → Monitor
refresh_pool_reserves none m = m
refresh_pool_reserves (some balance) m = record m { pool_token_reserve = balance }

-- `classify`, with the addresses of the pool's wallets.
unfoldable pub classify : List ℕ → PoolTrade → Monitor → Bool
classify ours t m = elem t.tx_hash m.own_tx || (elem t.recipient ours || elem t.sender ours)

abbrev pub or_last : Option Price → Option Price → Option Price
or_last none old = old
or_last (some p) old = some p

abbrev pub seen_at : ℕ → Option Price → Monitor → Monitor
seen_at now price m = record m { last_trade_at = now; last_price = or_last price m.last_price }

-- The two branches of `onTrade` for a trade that is not ours.
unfoldable pub retail_bought : ℕ → Option Price → PoolTrade → Monitor → Monitor
retail_bought now price t m = record m {
  retail_net_tokens = m.retail_net_tokens + t.token_amount;
  retail_last_buy_px = price;
  retail_buy_weth = m.retail_buy_weth + t.weth_amount;
  retail_buy_tokens = m.retail_buy_tokens + t.token_amount;
  last_retail_buy_at = now;
}

unfoldable pub retail_sold : ℕ → PoolTrade → Monitor → Monitor
retail_sold now t m =
    if leb m.retail_net_tokens t.token_amount
    then record m {
      retail_net_tokens = 0;
      retail_last_buy_px = none;
      retail_buy_weth = 0;
      retail_buy_tokens = 0;
      last_retail_sell_at = now;
    }
    else record m {
      retail_net_tokens = m.retail_net_tokens - t.token_amount;
      last_retail_sell_at = now;
    }

-- The non-blocking send: an event is dropped if the channel is full.
unfoldable pub offer : RetailEvent → Monitor → Monitor
offer ev m =
    if ltb (length m.retail) retail_capacity then record m { retail = m.retail ++ ev ∷ [] } else m

abbrev pub event_of : ℕ → Option Price → PoolTrade → RetailEvent
event_of now price t = record {
  is_buy = t.is_buy;
  token_amount = t.token_amount;
  weth_amount = t.weth_amount;
  price = price;
  trader = t.recipient;
  at = now;
}

unfoldable pub on_trade : List ℕ → ℕ → PoolTrade → Monitor → Monitor
unfolding retail_bought retail_sold offer price_wei_per_token
on_trade ours now t m =
    let price = price_wei_per_token t.weth_amount t.token_amount in
    let seen = seen_at now price m in
    if classify ours t m
    then seen
    else offer (event_of now price t)
        (if t.is_buy then retail_bought now price t seen else retail_sold now t seen)

unfoldable pub is_seen : ℕ → ℕ → List (ℕ × ℕ) → Bool
is_seen tx index [] = false
is_seen tx index ((h, i) ∷ rest) = (h == tx && i == index) || is_seen tx index rest

-- `consumeTrade`: the new state, and whether the trade was processed. Hash 0 is never recorded.
unfoldable pub consume_trade : List ℕ → ℕ → PoolTrade → Monitor → Monitor × Bool
consume_trade ours now t m =
    if t.tx_hash == 0
    then (on_trade ours now t m, true)
    else if is_seen t.tx_hash t.log_index m.seen_trades
    then (m, false)
    else (
      on_trade ours now t (record m { seen_trades = (t.tx_hash, t.log_index) ∷ m.seen_trades }),
      true,
    )

-- A batch, from the subscription or from block logs, each trade with the time of its processing.
unfoldable pub consume_all : List ℕ → List (ℕ × PoolTrade) → Monitor → Monitor
consume_all ours [] m = m
consume_all ours ((now, t) ∷ rest) m = consume_all ours rest (consume_trade ours now t m).0
