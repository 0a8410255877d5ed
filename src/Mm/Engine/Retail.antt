-- ===== src/Mm/Engine/Retail.antt =====
-- `onRetail` of internal/ponsmm/engine.go, with `startTargetResponse` of internal/ponsmm/target.go.
use pons_mm_desktop.Prelude.{ℕ, Bool, true, false, ◌&&◌, none, some, if◌then◌else◌}
use pons_mm_desktop.Mm.Decide.{
  State, launching, accumulating, distributing, clear_all, done, retail_buy_response,
}
use pons_mm_desktop.Mm.Stats.{total_cost_wei}
use pons_mm_desktop.Mm.Engine.{
  Engine, Config, Chain, interrupt_buys, is_distributing, start_distribution_round,
}
use pons_mm_desktop.Mm.Engine.Exit.{quote_sell_all, clear_all_step_with_quote}

-- The state afterwards, and whether this is the start of a response.
unfoldable pub begin_retail_distribution : Engine → Engine × Bool
begin_retail_distribution e =
    if e.retail_response_active
    then (record e { state = distributing }, false)
    else (record e { retail_response_active = true; batch_size = 0; state = distributing }, true)

unfoldable pub resume_after_retail_sell : Engine → Engine
resume_after_retail_sell e = record e { retail_response_active = false; state = accumulating }

unfoldable pub start_target_response : Chain → Engine → Engine
start_target_response chain e =
    if e.round_running
    then e
    else elim chain.plan [ none ↦ e | some b ↦ record e { round_running = true; batch = some b } ]

-- The decision on a retail buy, from the quote for all tokens that the monitor counts as ours.
unfoldable pub retail_decision : Chain → Engine → State
unfolding retail_buy_response
retail_decision chain e =
    let m = e.monitor in
    let cost = total_cost_wei m.our_weth_spent e.stats in
    retail_buy_response (quote_sell_all chain m.our_tokens) cost m.cost_basis_known

-- The case `Distributing` of the switch in `onRetail`; only the start of a response sells at once.
unfoldable pub distribute_response : Chain → ℕ → Engine → Engine
unfolding begin_retail_distribution start_distribution_round
distribute_response chain proceeds e =
    let (begun, first) = begin_retail_distribution e in
    let sold = start_distribution_round chain.draw proceeds e.monitor.our_tokens begun in
    if first then sold else begun

-- The case `ClearAll`.
unfoldable pub exit_response : Chain → ℕ → Engine → Engine
unfolding clear_all_step_with_quote
exit_response chain proceeds e =
    let leaving : Engine = record e { state = clear_all; retail_response_active = false } in
    (clear_all_step_with_quote chain proceeds leaving).0

unfoldable pub on_retail_buy : Config → Chain → Engine → Engine
unfolding interrupt_buys start_target_response distribute_response exit_response
on_retail_buy cfg chain e0 =
    let e = interrupt_buys e0 in
    let proceeds = quote_sell_all chain e.monitor.our_tokens in
    let next = retail_decision chain e in
    if is_distributing next && cfg.target_mode then start_target_response chain e else elim next [
      | clear_all ↦ exit_response chain proceeds e
      | distributing ↦ distribute_response chain proceeds e
      | launching ↦ record e { state = launching }
      | accumulating ↦ record e { state = accumulating }
      | done ↦ record e { state = done }
    ]

unfoldable pub on_retail_sell : Engine → Engine
unfolding resume_after_retail_sell
on_retail_sell e =
    if e.retail_response_active && is_distributing e.state then resume_after_retail_sell e else e

-- `onRetail`, by the direction of the trade.
unfoldable pub on_retail : Config → Chain → Bool → Engine → Engine
unfolding on_retail_buy on_retail_sell
on_retail cfg chain is_buy e = if is_buy then on_retail_buy cfg chain e else on_retail_sell e
