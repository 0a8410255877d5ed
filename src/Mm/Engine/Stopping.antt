-- ===== src/Mm/Engine/Stopping.antt =====
-- When `Run` of internal/ponsmm/engine.go returns.
use pons_mm_desktop.Prelude.{
  ℕ, ◌≡◌, ◌⊎◌, refl, inl, inr, Bool, true, false, ◌&&◌, ◌||◌, Bool-cases, Option-cases, List, [],
  ◌∷◌, arith,
}
use pons_mm_desktop.Mm.Decide.{distributing, clear_all, retail_buy_response}
use pons_mm_desktop.Mm.Monitor.{RetailEvent}
use pons_mm_desktop.Mm.Monitor.Retail.{bought}
use pons_mm_desktop.Mm.Sale.{total_held}
use pons_mm_desktop.Mm.Engine.{
  Engine, Config, Chain, book, drained, interrupt_buys, apply_distribution_result, execute_batch,
  start_distribution_round, distribution_wallet_batch, start_accumulation_round, is_done,
  finish_pending_buy, add_pending_buy, buy_marked, end_accumulation_round,
}
use pons_mm_desktop.Mm.Engine.Exit.{
  Settlement, apply_buy_settlement, settled_wallet, at_wallet, clear_all_step,
  clear_all_step_with_quote, exit_all_step, finish_drain_if_empty, refresh_tokens_for_exit,
  quote_sell_all, sell_residual,
}
use pons_mm_desktop.Mm.Engine.Retail.{
  on_retail, on_retail_buy, on_retail_sell, retail_decision, start_target_response,
  begin_retail_distribution, resume_after_retail_sell, distribute_response, exit_response,
}
use pons_mm_desktop.Mm.Engine.Loop.{
  Event, running, returned, failed, context_done, reserve_tick, retail_event, buy_settled,
  batch_result, exit_request, accumulate_tick, sell_tick, trade_seen, buy_sent, buy_counted,
  round_ended, batch_executed, cost_posted, step, run, on_exit_request, on_reserve_tick,
  on_sell_tick, after_retail,
}

-- From `e` to `e'`, the machine is stopped only with nothing pending and nothing held.
abbrev pub StopsDrained : Engine → Engine → Type 0
StopsDrained e e' = (is_done e'.state ≡ false) ⊎ (is_done e.state ≡ true) ⊎ (drained e' ≡ true)

finish_drain_if_empty-StopsDrained : (e : Engine) → StopsDrained e (finish_drain_if_empty e)
unfolding finish_drain_if_empty
finish_drain_if_empty-StopsDrained e = ground arith

start_distribution_round-StopsDrained :
    (draw quote quoted : ℕ) (e : Engine)
    → StopsDrained e (start_distribution_round draw quote quoted e)
unfolding start_distribution_round distribution_wallet_batch
start_distribution_round-StopsDrained draw quote quoted e = ground arith

clear_all_step_with_quote-StopsDrained :
    (chain : Chain) (quote : ℕ) (e : Engine)
    → StopsDrained e (clear_all_step_with_quote chain quote e).0
unfolding clear_all_step_with_quote book finish_drain_if_empty
clear_all_step_with_quote-StopsDrained chain quote e = ground arith

clear_all_step-StopsDrained :
    (chain : Chain) (e : Engine) → StopsDrained e (clear_all_step chain e).0
unfolding clear_all_step refresh_tokens_for_exit
clear_all_step-StopsDrained chain e = elim (Option-cases chain.balances) [
  | inl q ↦ ground (
    arith,
    clear_all_step_with_quote-StopsDrained chain (quote_sell_all chain (total_held e.wallets)) e,
  )
  | inr (balances, q) ↦
      let e' = refresh_tokens_for_exit chain e in
      ground (
        arith,
        clear_all_step_with_quote-StopsDrained chain (quote_sell_all chain (total_held e'.wallets))
            e',
      )
]

on_exit_request-StopsDrained :
    (chain : Chain) (e : Engine) → StopsDrained e (on_exit_request chain e).0
unfolding on_exit_request exit_all_step refresh_tokens_for_exit interrupt_buys
on_exit_request-StopsDrained chain e =
    let left : Engine = record (interrupt_buys e) { state = clear_all } in
    let e' = refresh_tokens_for_exit chain left in
    let quote = quote_sell_all chain (total_held e'.wallets) in
    elim (Option-cases chain.balances) [
      | inl q ↦ ground (arith, clear_all_step_with_quote-StopsDrained chain quote e')
      | inr (balances, q) ↦ ground (arith, clear_all_step_with_quote-StopsDrained chain quote e')
    ]

on_sell_tick-StopsDrained : (chain : Chain) (e : Engine) → StopsDrained e (on_sell_tick chain e)
unfolding on_sell_tick
on_sell_tick-StopsDrained chain e = ground (
  arith,
  start_distribution_round-StopsDrained chain.draw 0 0 e,
  clear_all_step-StopsDrained chain e,
)

sell_residual-state :
    (chain : Chain) (a : ℕ) (e : Engine) → (sell_residual chain a e).state ≡ e.state
unfolding sell_residual book
sell_residual-state chain a e = refl

apply_buy_settlement-StopsDrained :
    (chain : Chain) (s : Settlement) (e : Engine) → StopsDrained e (apply_buy_settlement chain s e)
unfolding apply_buy_settlement finish_pending_buy book
apply_buy_settlement-StopsDrained chain s e =
    let paid = finish_pending_buy e in
    let credited =
      book (bought s.weth_in s.tokens_got ∷ [])
        (record paid { wallets = at_wallet (settled_wallet chain s) s.wallet paid.wallets }) in
    let sold_off = sell_residual chain s.wallet credited in
    ground (
      arith,
      sell_residual-state chain s.wallet credited,
      finish_drain_if_empty-StopsDrained paid,
      finish_drain_if_empty-StopsDrained sold_off,
      start_distribution_round-StopsDrained chain.draw 0 0 credited,
    )

interrupt_buys-state : (e : Engine) → (interrupt_buys e).state ≡ e.state
unfolding interrupt_buys
interrupt_buys-state e = ground arith

-- The decision on a retail buy is one of two.
pub retail_decision-cases :
    (chain : Chain) (e : Engine)
    → (retail_decision chain e ≡ clear_all) ⊎ (retail_decision chain e ≡ distributing)
unfolding retail_decision retail_buy_response
retail_decision-cases chain e = ground arith

exit_response-StopsDrained :
    (chain : Chain) (quote : ℕ) (e : Engine) → StopsDrained e (exit_response chain quote e)
unfolding exit_response
exit_response-StopsDrained chain quote e =
    let leaving : Engine = record e { state = clear_all; retail_response_active = false } in
    ground (arith, clear_all_step_with_quote-StopsDrained chain quote leaving)

distribute_response-StopsDrained :
    (chain : Chain) (quote : ℕ) (e : Engine) → StopsDrained e (distribute_response chain quote e)
unfolding distribute_response begin_retail_distribution
distribute_response-StopsDrained chain quote e =
    let tokens = e.monitor.our_tokens in
    let begun = (begin_retail_distribution e).0 in
    elim (Bool-cases e.retail_response_active) [
      | inl q ↦ ground arith
      | inr q ↦
          ground (arith, q, start_distribution_round-StopsDrained chain.draw quote tokens begun)
    ]

start_target_response-state :
    (chain : Chain) (e : Engine) → (start_target_response chain e).state ≡ e.state
unfolding start_target_response
start_target_response-state chain e = ground arith

on_retail_buy-StopsDrained :
    (cfg : Config) (chain : Chain) (e : Engine) → StopsDrained e (on_retail_buy cfg chain e)
unfolding on_retail_buy
on_retail_buy-StopsDrained cfg chain e =
    let e1 = interrupt_buys e in
    let quote = quote_sell_all chain e1.monitor.our_tokens in
    ground (
      arith,
      retail_decision-cases chain e1,
      interrupt_buys-state e,
      start_target_response-state chain e1,
      exit_response-StopsDrained chain quote e1,
      distribute_response-StopsDrained chain quote e1,
    )

on_retail_sell-StopsDrained : (e : Engine) → StopsDrained e (on_retail_sell e)
unfolding on_retail_sell resume_after_retail_sell
on_retail_sell-StopsDrained e = ground arith

after_retail-StopsDrained :
    (cfg : Config) (chain : Chain) (queue : List RetailEvent) (e : Engine)
    → StopsDrained e (after_retail cfg chain queue e)
unfolding on_retail
after_retail-StopsDrained cfg chain [] e = ground arith
after_retail-StopsDrained cfg chain (ev ∷ rest) e =
    let popped : Engine = record e { monitor = record e.monitor { retail = rest } } in
    ground (arith, on_retail_buy-StopsDrained cfg chain popped, on_retail_sell-StopsDrained popped)

apply_distribution_result-StopsDrained : (e : Engine) → StopsDrained e (apply_distribution_result e)
unfolding apply_distribution_result
apply_distribution_result-StopsDrained e = ground arith

execute_batch-state : (chain : Chain) (e : Engine) → (execute_batch chain e).state ≡ e.state
unfolding execute_batch book
execute_batch-state chain e = ground arith

start_accumulation_round-state :
    (cfg : Config) (e : Engine) → (start_accumulation_round cfg e).state ≡ e.state
unfolding start_accumulation_round
start_accumulation_round-state cfg e = ground arith

-- The curve has graduated, so that trading on it is closed.
abbrev pub graduates : Config → Event → Bool
graduates cfg (reserve_tick now graduated reserves) = cfg.v2 && graduated
graduates cfg _ = false

step-StopsDrained :
    (cfg : Config) (chain : Chain) (event : Event) (e : Engine)
    → graduates cfg event ≡ false
    → StopsDrained e (step cfg chain event e).0
unfolding step on_reserve_tick buy_marked add_pending_buy end_accumulation_round
step-StopsDrained cfg chain context_done e g = ground (arith, interrupt_buys-state e)
step-StopsDrained cfg chain retail_event e g =
    after_retail-StopsDrained cfg chain e.monitor.retail e
step-StopsDrained cfg chain (buy_settled s) e g = apply_buy_settlement-StopsDrained chain s e
step-StopsDrained cfg chain batch_result e g =
    ground (arith, apply_distribution_result-StopsDrained e)
step-StopsDrained cfg chain exit_request e g = on_exit_request-StopsDrained chain e
step-StopsDrained cfg chain accumulate_tick e g =
    ground (arith, start_accumulation_round-state cfg e)
step-StopsDrained cfg chain sell_tick e g = on_sell_tick-StopsDrained chain e
step-StopsDrained cfg chain (reserve_tick now graduated reserves) e g = ground arith
step-StopsDrained cfg chain (trade_seen now t) e g = ground arith
step-StopsDrained cfg chain (buy_sent tx) e g = ground arith
step-StopsDrained cfg chain buy_counted e g = ground arith
step-StopsDrained cfg chain round_ended e g = ground arith
step-StopsDrained cfg chain batch_executed e g = ground (arith, execute_batch-state chain e)
step-StopsDrained cfg chain (cost_posted entry) e g = ground arith

abbrev is_context_done : Event → Bool
is_context_done context_done = true
is_context_done _ = false

-- The application stops, or the curve graduates.
abbrev pub stopped_outside : Config → List (Chain × Event) → Bool
stopped_outside cfg [] = false
stopped_outside cfg ((chain, event) ∷ rest) =
    is_context_done event || (graduates cfg event || stopped_outside cfg rest)

step-outcome :
    (cfg : Config) (chain : Chain) (event : Event) (e : Engine)
    → is_context_done event ≡ false
    → ((step cfg chain event e).1 ≡ running) ⊎ ((step cfg chain event e).1 ≡ failed)
unfolding step on_exit_request
step-outcome cfg chain context_done e h = cc
step-outcome cfg chain exit_request e h = ground arith
step-outcome cfg chain _ e h = inl refl

-- If `Run` returns without an error although the application did not stop and the curve did not
-- graduate, then no buy that was counted as pending is unsettled and no wallet's cache holds tokens.
-- Whatever the answers of the chain and the order of the events, from a machine that was not `Done`.
-- A buy that is sent but not yet counted is not covered: the source counts it in a later step.
pub run-drained :
    (cfg : Config) (events : List (Chain × Event)) (e : Engine)
    → is_done e.state ≡ false
    → stopped_outside cfg events ≡ false
    → (run cfg events e).1 ≡ returned
    → drained (run cfg events e).0 ≡ true
unfolding run
run-drained cfg [] e n o h = ground arith
run-drained cfg ((chain, event) ∷ rest) e n o h =
    let e' = (step cfg chain event e).0 in
    ground (
      arith,
      step-StopsDrained cfg chain event e,
      step-outcome cfg chain event e,
      run-drained cfg rest e',
    )
