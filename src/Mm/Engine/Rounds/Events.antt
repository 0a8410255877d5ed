-- ===== src/Mm/Engine/Rounds/Events.antt =====
-- The batches in flight over the events of the loop (`Run` in internal/ponsmm/engine.go).
use pons_mm_desktop.Prelude.{List, [], ◌∷◌, arith}
use pons_mm_desktop.Mm.Monitor.{RetailEvent}
use pons_mm_desktop.Mm.Engine.{
  Engine, Config, Chain, interrupt_buys, start_accumulation_round, add_pending_buy, buy_marked,
  end_accumulation_round,
}
use pons_mm_desktop.Mm.Engine.Exit.{quote_sell_all}
use pons_mm_desktop.Mm.Engine.Retail.{
  on_retail, on_retail_buy, on_retail_sell, resume_after_retail_sell,
}
use pons_mm_desktop.Mm.Engine.Stopping.{retail_decision-cases}
use pons_mm_desktop.Mm.Engine.Loop.{
  Event, context_done, reserve_tick, retail_event, buy_settled, batch_result, exit_request,
  accumulate_tick, sell_tick, trade_seen, buy_sent, buy_counted, round_ended, batch_executed,
  cost_posted, step, run, on_reserve_tick, after_retail,
}
use pons_mm_desktop.Mm.Engine.Rounds.{
  OneRound, SameRound, start_target_response-OneRound, apply_distribution_result-OneRound,
  execute_batch-OneRound, interrupt_buys-SameRound, on_exit_request-SameRound,
  on_sell_tick-OneRound, apply_buy_settlement-OneRound, exit_response-SameRound,
  distribute_response-OneRound,
}

on_retail_buy-OneRound :
    (cfg : Config) (chain : Chain) (e : Engine) → OneRound e → OneRound (on_retail_buy cfg chain e)
unfolding on_retail_buy
on_retail_buy-OneRound cfg chain e v =
    let e1 = interrupt_buys e in
    let quote = quote_sell_all chain e1.monitor.our_tokens in
    let v1 : OneRound e1 = ground (arith, interrupt_buys-SameRound e) in
    ground (
      arith,
      retail_decision-cases chain e1,
      start_target_response-OneRound chain e1 v1,
      exit_response-SameRound chain quote e1,
      distribute_response-OneRound chain quote e1 v1,
    )

on_retail_sell-SameRound : (e : Engine) → SameRound e (on_retail_sell e)
unfolding on_retail_sell resume_after_retail_sell
on_retail_sell-SameRound e = ground arith

after_retail-OneRound :
    (cfg : Config) (chain : Chain) (queue : List RetailEvent) (e : Engine)
    → OneRound e
    → OneRound (after_retail cfg chain queue e)
unfolding on_retail
after_retail-OneRound cfg chain [] e v = v
after_retail-OneRound cfg chain (ev ∷ rest) e v =
    let popped : Engine = record e { monitor = record e.monitor { retail = rest } } in
    ground (arith, on_retail_buy-OneRound cfg chain popped v, on_retail_sell-SameRound popped)

start_accumulation_round-SameRound :
    (cfg : Config) (e : Engine) → SameRound e (start_accumulation_round cfg e)
unfolding start_accumulation_round
start_accumulation_round-SameRound cfg e = ground arith

step-OneRound :
    (cfg : Config) (chain : Chain) (event : Event) (e : Engine)
    → OneRound e
    → OneRound (step cfg chain event e).0
unfolding step on_reserve_tick buy_marked add_pending_buy end_accumulation_round
step-OneRound cfg chain context_done e v = ground (arith, interrupt_buys-SameRound e)
step-OneRound cfg chain retail_event e v = after_retail-OneRound cfg chain e.monitor.retail e v
step-OneRound cfg chain (buy_settled s) e v = apply_buy_settlement-OneRound chain s e v
step-OneRound cfg chain batch_result e v = ground (arith, apply_distribution_result-OneRound e v)
step-OneRound cfg chain exit_request e v = ground (arith, on_exit_request-SameRound chain e)
step-OneRound cfg chain accumulate_tick e v =
    ground (arith, start_accumulation_round-SameRound cfg e)
step-OneRound cfg chain sell_tick e v = on_sell_tick-OneRound chain e v
step-OneRound cfg chain (reserve_tick now graduated reserves) e v = ground arith
step-OneRound cfg chain (trade_seen now t) e v = v
step-OneRound cfg chain (buy_sent tx) e v = v
step-OneRound cfg chain buy_counted e v = v
step-OneRound cfg chain round_ended e v = v
step-OneRound cfg chain batch_executed e v = execute_batch-OneRound chain e v
step-OneRound cfg chain (cost_posted entry) e v = v

-- In every order of events, distribution batches and price-target responses never overlap: if
-- the batch that is being executed and the results that wait for the loop are together one where the
-- round guard is set and none where it is not, then this still holds after the events.
pub run-OneRound :
    (cfg : Config) (events : List (Chain × Event)) (e : Engine)
    → OneRound e
    → OneRound (run cfg events e).0
unfolding run
run-OneRound cfg [] e v = v
run-OneRound cfg ((chain, event) ∷ rest) e v =
    let e' = (step cfg chain event e).0 in
    ground (arith, step-OneRound cfg chain event e v, run-OneRound cfg rest e')
