-- ===== src/Mm/Engine/Rounds.antt =====
-- The batches in flight, and what each operation does to them (`distributionRoundRunning` and
-- `distributionResults` in internal/ponsmm/engine.go).
pub mod Events
use pons_mm_desktop.Prelude.{
  ℕ, ◌+◌, ◌-◌, ◌≡◌, refl, inl, inr, Bool, true, false, Bool-cases, Option, none, some, Option-cases,
  List, [], ◌∷◌, ◌==◌, if◌then◌else◌, arith,
}
use pons_mm_desktop.Mm.Monitor.{RetailEvent}
use pons_mm_desktop.Mm.Monitor.Retail.{bought}
use pons_mm_desktop.Mm.Decide.{clear_all}
use pons_mm_desktop.Mm.Sale.{total_held}
use pons_mm_desktop.Mm.Engine.{
  Engine, Config, Chain, Batch, sales, spends, book, interrupt_buys, apply_distribution_result,
  execute_batch, start_distribution_round, distribution_wallet_batch, start_accumulation_round,
  finish_pending_buy, add_pending_buy, buy_marked, end_accumulation_round,
}
use pons_mm_desktop.Mm.Engine.Exit.{
  Settlement, apply_buy_settlement, settled_wallet, at_wallet, clear_all_step,
  clear_all_step_with_quote, exit_all_step, finish_drain_if_empty, refresh_tokens_for_exit,
  quote_sell_all, sell_residual,
}
use pons_mm_desktop.Mm.Engine.Retail.{
  on_retail, on_retail_buy, on_retail_sell, start_target_response, retail_decision,
  begin_retail_distribution, resume_after_retail_sell, distribute_response, exit_response,
}
use pons_mm_desktop.Mm.Engine.Stopping.{retail_decision-cases}
use pons_mm_desktop.Mm.Engine.Loop.{
  Event, context_done, reserve_tick, retail_event, buy_settled, batch_result, exit_request,
  accumulate_tick, sell_tick, trade_seen, buy_sent, round_ended, batch_executed, cost_posted, step,
  run, running, returned, failed, or_returned, on_exit_request, on_reserve_tick, on_sell_tick,
  after_retail,
}

abbrev pub in_flight : Option Batch → ℕ
in_flight none = 0
in_flight (some b) = 1

-- The goroutines and the results that wait: one if a round runs, else none.
abbrev pub OneRound : Engine → Type 0
OneRound e = in_flight e.batch + e.results ≡ (if e.round_running then 1 else 0)

-- An operation that touches none of these.
abbrev pub SameRound : Engine → Engine → Type 0
SameRound e e' =
    (e'.batch ≡ e.batch) × (e'.results ≡ e.results) × (e'.round_running ≡ e.round_running)

pub start_distribution_round-OneRound :
    (draw quote quoted : ℕ) (e : Engine)
    → OneRound e
    → OneRound (start_distribution_round draw quote quoted e)
unfolding start_distribution_round distribution_wallet_batch
start_distribution_round-OneRound draw quote quoted e v = ground arith

pub start_target_response-OneRound :
    (chain : Chain) (e : Engine) → OneRound e → OneRound (start_target_response chain e)
unfolding start_target_response
start_target_response-OneRound chain e v = ground arith

pub apply_distribution_result-OneRound :
    (e : Engine) → OneRound e → (e.results == 0) ≡ false → OneRound (apply_distribution_result e)
unfolding apply_distribution_result
apply_distribution_result-OneRound e v h = ground arith

pub execute_batch-OneRound :
    (chain : Chain) (e : Engine) → OneRound e → OneRound (execute_batch chain e)
unfolding execute_batch book
execute_batch-OneRound chain e v = ground arith

clear_all_step_with_quote-SameRound :
    (chain : Chain) (quote : ℕ) (e : Engine)
    → SameRound e (clear_all_step_with_quote chain quote e).0
unfolding clear_all_step_with_quote book finish_drain_if_empty
clear_all_step_with_quote-SameRound chain quote e = ground arith

refresh_tokens_for_exit-SameRound :
    (chain : Chain) (e : Engine) → SameRound e (refresh_tokens_for_exit chain e)
unfolding refresh_tokens_for_exit
refresh_tokens_for_exit-SameRound chain e = ground arith

pub interrupt_buys-SameRound : (e : Engine) → SameRound e (interrupt_buys e)
unfolding interrupt_buys
interrupt_buys-SameRound e = ground arith

finish_drain_if_empty-SameRound : (e : Engine) → SameRound e (finish_drain_if_empty e)
unfolding finish_drain_if_empty
finish_drain_if_empty-SameRound e = ground arith

clear_all_step-SameRound : (chain : Chain) (e : Engine) → SameRound e (clear_all_step chain e).0
unfolding clear_all_step
clear_all_step-SameRound chain e =
    let e' = refresh_tokens_for_exit chain e in
    let quote = quote_sell_all chain (total_held e'.wallets) in
    ground (
      arith,
      refresh_tokens_for_exit-SameRound chain e,
      clear_all_step_with_quote-SameRound chain quote e',
    )

pub on_exit_request-SameRound :
    (chain : Chain) (e : Engine) → SameRound e (on_exit_request chain e).0
unfolding on_exit_request exit_all_step
on_exit_request-SameRound chain e =
    let left : Engine = record (interrupt_buys e) { state = clear_all } in
    let e' = refresh_tokens_for_exit chain left in
    let quote = quote_sell_all chain (total_held e'.wallets) in
    ground (
      arith,
      interrupt_buys-SameRound e,
      refresh_tokens_for_exit-SameRound chain left,
      clear_all_step_with_quote-SameRound chain quote e',
    )

pub on_sell_tick-OneRound :
    (chain : Chain) (e : Engine) → OneRound e → OneRound (on_sell_tick chain e)
unfolding on_sell_tick
on_sell_tick-OneRound chain e v =
    ground (
      arith,
      start_distribution_round-OneRound chain.draw 0 0 e v,
      clear_all_step-SameRound chain e,
    )

pub apply_buy_settlement-OneRound :
    (chain : Chain) (s : Settlement) (e : Engine)
    → OneRound e
    → OneRound (apply_buy_settlement chain s e)
unfolding apply_buy_settlement finish_pending_buy book sell_residual
apply_buy_settlement-OneRound chain s e v =
    let paid = finish_pending_buy e in
    let credited =
      book (bought s.weth_in s.tokens_got ∷ [])
        (record paid { wallets = at_wallet (settled_wallet chain s) s.wallet paid.wallets }) in
    ground (
      arith,
      finish_drain_if_empty-SameRound paid,
      finish_drain_if_empty-SameRound (sell_residual chain s.wallet credited),
      start_distribution_round-OneRound chain.draw 0 0 credited v,
    )

pub exit_response-SameRound :
    (chain : Chain) (quote : ℕ) (e : Engine) → SameRound e (exit_response chain quote e)
unfolding exit_response
exit_response-SameRound chain quote e =
    let leaving : Engine = record e { state = clear_all; retail_response_active = false } in
    ground (arith, clear_all_step_with_quote-SameRound chain quote leaving)

pub distribute_response-OneRound :
    (chain : Chain) (quote : ℕ) (e : Engine)
    → OneRound e
    → OneRound (distribute_response chain quote e)
unfolding distribute_response begin_retail_distribution
distribute_response-OneRound chain quote e v =
    let tokens = e.monitor.our_tokens in
    let begun = (begin_retail_distribution e).0 in
    elim (Bool-cases e.retail_response_active) [
      | inl q ↦ ground arith
      | inr q ↦ ground (arith, q, start_distribution_round-OneRound chain.draw quote tokens begun)
    ]
