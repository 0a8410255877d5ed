-- ===== src/Mm/Engine/Loop.antt =====
-- `Run` of internal/ponsmm/engine.go: the event loop, and the goroutines beside it. One event is one
-- case of the loop's `select`, or one step of a goroutine; any order of events is possible here, so
-- the priority that the loop gives to retail trades is a restriction of what is shown.
use pons_mm_desktop.Prelude.{ℕ, Bool, ◌&&◌, Option, none, some, List, [], ◌∷◌, ◌==◌, if◌then◌else◌}
use pons_mm_desktop.Mm.Decide.{State, clear_all, done}
use pons_mm_desktop.Mm.Wallets.{wallet_addrs}
use pons_mm_desktop.Mm.Monitor.{
  PoolTrade, RetailEvent, consume_trade, refresh_curve_reserves, refresh_pool_reserves,
}
use pons_mm_desktop.Mm.Stats.{Entry, post}
use pons_mm_desktop.Mm.Engine.{
  Engine, Config, Chain, add_pending_buy, apply_distribution_result, buy_marked,
  end_accumulation_round, execute_batch, interrupt_buys, is_accumulating, is_clear_all,
  is_distributing, is_done, start_accumulation_round, start_distribution_round,
}
use pons_mm_desktop.Mm.Engine.Exit.{Settlement, apply_buy_settlement, clear_all_step, exit_all_step}
use pons_mm_desktop.Mm.Engine.Retail.{on_retail}

-- The events up to `reserve_tick` are the cases of the loop. A `reserve_tick` has the clock, whether
-- the curve has graduated (`false` also for a failed read) and the reserves. The others are steps of
-- the goroutines: the monitor consumes a trade, a buy is marked and sent, and later counted as pending, a round of buys ends, a batch is
-- executed, an entry of the statistics is posted (gas, or the mark to market of the reserve tick).
pub data Event : Type 0 where
  context_done : Event
  retail_event : Event
  buy_settled : Settlement → Event
  batch_result : Event
  exit_request : Event
  accumulate_tick sell_tick : Event
  reserve_tick : ℕ → Bool → Option (ℕ × ℕ) → Event
  trade_seen : ℕ → PoolTrade → Event
  buy_sent : ℕ → Event
  buy_counted : Event
  round_ended : Event
  batch_executed : Event
  cost_posted : Entry → Event

pub data Outcome : Type 0 where
  running returned failed : Outcome

abbrev pub after_retail : Config → Chain → List RetailEvent → Engine → Engine
after_retail cfg chain [] e = e
after_retail cfg chain (ev ∷ rest) e =
    on_retail cfg chain ev.is_buy (record e { monitor = record e.monitor { retail = rest } })

unfoldable pub on_exit_request : Chain → Engine → Engine × Outcome
unfolding interrupt_buys exit_all_step
on_exit_request chain e =
    let (e', no_error) = exit_all_step chain (record (interrupt_buys e) { state = clear_all }) in
    (e', if no_error then running else failed)

unfoldable pub on_sell_tick : Chain → Engine → Engine
unfolding start_distribution_round clear_all_step
on_sell_tick chain e =
    let distributed = start_distribution_round chain.draw 0 0 e in
    if is_distributing e.state
    then distributed
    else if is_clear_all e.state
    then (clear_all_step chain e).0
    else e

unfoldable pub on_reserve_tick : Config → ℕ → Bool → Option (ℕ × ℕ) → Engine → Engine
on_reserve_tick cfg now graduated reserves e =
    let token_only : Option ℕ = elim reserves [ none ↦ none | some (quote, token) ↦ some token ] in
    if cfg.v2 && graduated then record e { state = done } else record e {
      monitor =
          if cfg.v2
          then refresh_curve_reserves now reserves e.monitor
          else refresh_pool_reserves token_only e.monitor;
    }

-- The body of one event.
unfoldable pub step : Config → Chain → Event → Engine → Engine × Outcome
unfolding on_retail apply_buy_settlement apply_distribution_result on_exit_request
    start_accumulation_round on_sell_tick on_reserve_tick buy_marked add_pending_buy
    end_accumulation_round execute_batch
step cfg chain context_done e = (interrupt_buys e, returned)
step cfg chain retail_event e = (after_retail cfg chain e.monitor.retail e, running)
step cfg chain (buy_settled s) e = (apply_buy_settlement chain s e, running)
step cfg chain batch_result e = (if e.results == 0 then e else apply_distribution_result e, running)
step cfg chain exit_request e = on_exit_request chain e
step cfg chain accumulate_tick e =
    (if is_accumulating e.state then start_accumulation_round cfg e else e, running)
step cfg chain sell_tick e = (on_sell_tick chain e, running)
step cfg chain (reserve_tick now graduated reserves) e =
    (on_reserve_tick cfg now graduated reserves e, running)
step cfg chain (trade_seen now t) e =
    (record e { monitor = (consume_trade (wallet_addrs e.wallets) now t e.monitor).0 }, running)
step cfg chain (buy_sent tx) e = (buy_marked tx e, running)
step cfg chain buy_counted e = (add_pending_buy e, running)
step cfg chain round_ended e = (end_accumulation_round e, running)
step cfg chain batch_executed e = (execute_batch chain e, running)
step cfg chain (cost_posted entry) e = (record e { stats = post entry e.stats }, running)

abbrev pub or_returned : State → Outcome → Outcome
or_returned state running = if is_done state then returned else running
or_returned state outcome = outcome

-- The events up to the return of `Run`, which `Done` brings about.
unfoldable pub run : Config → List (Chain × Event) → Engine → Engine × Outcome
unfolding step
run cfg [] e = (e, running)
run cfg ((chain, event) ∷ rest) e =
    let (e', outcome) = step cfg chain event e in
    let more = run cfg rest e' in
    elim (or_returned e'.state outcome) [
      | running ↦ more
      | returned ↦ (e', returned)
      | failed ↦ (e', failed)
    ]
