-- ===== src/Mm/Stats/Ledger.antt =====
-- The statistics against the list of what the engine reported (internal/ponsmm/stats.go).
use pons_mm_desktop.Prelude.{ℕ, ◌+◌, ◌*◌, ◌≡◌, Option, none, some, List, [], ◌∷◌, arith}
use pons_mm_desktop.Mm.Stats.{
  Stats, Entry, Receipt, gas, launch_cost, buy, sell, or_zero, overhead_wei, post, post_all,
}

-- The fee of a confirmed transaction.
abbrev pub fee : Option Receipt → ℕ
fee none = 0
fee (some r) = or_zero r.effective_gas_price * r.gas_used

-- What one report costs on top of the swaps, and what it moves.
abbrev pub cost_of : Entry → ℕ
cost_of (gas r) = fee r
cost_of (launch_cost f r) = or_zero f + fee r
cost_of _ = 0

abbrev pub spent_by : Entry → ℕ
spent_by (buy weth) = or_zero weth
spent_by _ = 0

abbrev pub received_by : Entry → ℕ
received_by (sell tokens quote) = or_zero quote
received_by _ = 0

abbrev pub buys_by : Entry → ℕ
buys_by (buy weth) = 1
buys_by _ = 0

abbrev pub total : (Entry → ℕ) → List Entry → ℕ
total f [] = 0
total f (e ∷ es) = f e + total f es

abbrev Posts : Stats → Stats → (ℕ × ℕ × ℕ × ℕ) → Type 0
Posts before after (cost, spent, received, buys) =
    (overhead_wei after ≡ overhead_wei before + cost)
    × (after.eth_spent_wei ≡ before.eth_spent_wei + spent)
    × (after.eth_received_wei ≡ before.eth_received_wei + received)
    × (after.buy_count ≡ before.buy_count + buys)

post-Posts :
    (e : Entry) (s : Stats) → Posts s (post e s) (cost_of e, spent_by e, received_by e, buys_by e)
unfolding post overhead_wei
post-Posts (gas none) s = ground arith
post-Posts (gas (some r)) s = ground arith
post-Posts _ s = ground arith

-- After any reports, the overhead is the sum of all gas and launch fees, and the ETH spent, the ETH
-- received and the number of buys are the sums over the confirmed buys and sells.
pub post_all_lem :
    (es : List Entry) (s : Stats)
    → (overhead_wei (post_all es s) ≡ overhead_wei s + total cost_of es)
      × ((post_all es s).eth_spent_wei ≡ s.eth_spent_wei + total spent_by es)
      × ((post_all es s).eth_received_wei ≡ s.eth_received_wei + total received_by es)
      × ((post_all es s).buy_count ≡ s.buy_count + total buys_by es)
unfolding post_all
post_all_lem [] s = omega arith
post_all_lem (e ∷ es) s = omega (arith, post-Posts e s, post_all_lem es (post e s))
