-- ===== src/Mm/Engine/FullExit.antt =====
-- A full exit and the retail trades after it (`Run`, `onRetail` and `ExitAll` in
-- internal/ponsmm/engine.go).
use pons_mm_desktop.Prelude.{ℕ, ◌≡◌, ◌<◌, refl, true, false, ◌==◌, if◌then◌else◌, arith}
use pons_mm_desktop.Mm.Decide.{accumulating, distributing, clear_all, done}
use pons_mm_desktop.Mm.Sale.{sell_wallets_fast, total_held}
use pons_mm_desktop.Mm.Sale.Clearing.{ReadsZero, sell_wallets_fast-gone}
use pons_mm_desktop.Mm.Engine.{
  Engine, Config, Chain, book, interrupt_buys, start_distribution_round, distribution_wallet_batch,
}
use pons_mm_desktop.Mm.Engine.Exit.{
  clear_all_step_with_quote, finish_drain_if_empty, quote_sell_all,
}
use pons_mm_desktop.Mm.Engine.Retail.{
  on_retail, on_retail_buy, on_retail_sell, retail_decision, exit_response, distribute_response,
  begin_retail_distribution, resume_after_retail_sell,
}

exit_response-gone :
    (chain : Chain) (quote : ℕ) (e : Engine)
    → ((a : ℕ) → ReadsZero (chain.sale a))
    → (sell_wallets_fast chain.sale chain.fresh quote 0 e.wallets).2 ≡ true
    → let e' = exit_response chain quote e in
      (total_held e'.wallets ≡ 0)
      × (e'.retail_response_active ≡ false)
      × (e'.state ≡ (if e.pending_buys == 0 then done else clear_all))
unfolding exit_response clear_all_step_with_quote finish_drain_if_empty book
exit_response-gone chain quote e z ok =
    let gone = sell_wallets_fast-gone chain.sale chain.fresh quote 0 e.wallets z ok in
    ground (arith, gone, ok)

interrupt_buys-kept :
    (e : Engine)
    → ((interrupt_buys e).wallets ≡ e.wallets)
      × ((interrupt_buys e).pending_buys ≡ e.pending_buys)
      × ((interrupt_buys e).state ≡ e.state)
unfolding interrupt_buys
interrupt_buys-kept e = ground arith

-- The profitable exit: if the decision on a retail buy is to exit, all sales of the sweep succeed and
-- every balance read afterwards is 0, then no wallet holds anything, and the machine is `Done` if no
-- buy is pending and waits in `ClearAll` if one is.
pub on_retail_buy-exits :
    (cfg : Config) (chain : Chain) (e : Engine)
    → retail_decision chain (interrupt_buys e) ≡ clear_all
    → ((a : ℕ) → ReadsZero (chain.sale a))
    → (sell_wallets_fast chain.sale chain.fresh
        (quote_sell_all chain (interrupt_buys e).monitor.our_tokens)
        0
        e.wallets).2
      ≡ true
    → let e' = on_retail cfg chain true e in
      (total_held e'.wallets ≡ 0)
      × (e'.retail_response_active ≡ false)
      × (e'.state ≡ (if e.pending_buys == 0 then done else clear_all))
unfolding on_retail on_retail_buy
on_retail_buy-exits cfg chain e d z ok =
    let e1 = interrupt_buys e in
    let quote = quote_sell_all chain e1.monitor.our_tokens in
    let (same, pending, state) = interrupt_buys-kept e in
    rw d (rw pending at (exit_response-gone chain quote e1 z (rw same ok)))

distribute_response-state :
    (chain : Chain) (quote : ℕ) (e : Engine)
    → 0 < e.pending_buys
    → ((distribute_response chain quote e).state ≡ distributing)
      × ((distribute_response chain quote e).retail_response_active ≡ true)
unfolding distribute_response begin_retail_distribution start_distribution_round
    distribution_wallet_batch
distribute_response-state chain quote e p = ground arith

-- While a full exit waits for a pending buy (the state is `ClearAll`), a retail buy that is
-- decided as `Distributing` outside the price-target mode, and then a retail sell, bring the machine back to `Accumulating`: the exit is forgotten.
pub on_retail-resumes :
    (cfg : Config) (bought sold : Chain) (e : Engine)
    → e.state ≡ clear_all
    → 0 < e.pending_buys
    → cfg.target_mode ≡ false
    → retail_decision bought (interrupt_buys e) ≡ distributing
    → (on_retail cfg sold false (on_retail cfg bought true e)).state ≡ accumulating
unfolding on_retail on_retail_buy on_retail_sell resume_after_retail_sell
on_retail-resumes cfg bought sold e c p t d =
    let e1 = interrupt_buys e in
    let quote = quote_sell_all bought e1.monitor.our_tokens in
    let (same, pending, state) = interrupt_buys-kept e in
    let (now, active) = distribute_response-state bought quote e1 (rw pending p) in
    rw (d, t) (rw (active, now) refl)
