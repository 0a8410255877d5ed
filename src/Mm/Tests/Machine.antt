-- ===== src/Mm/Tests/Machine.antt =====
-- The state machine at a concrete state: two wallets hold tokens.
use pons_mm_desktop.Prelude.{
  ℕ, ◌≡◌, refl, true, false, none, some, List, [], ◌∷◌, ◌==◌, if◌then◌else◌, arith,
}
use pons_mm_desktop.Prelude.Int.{pos, ◌+ℤ◌}
use pons_mm_desktop.Mm.Wallets.{Wallet, wallet_addrs}
use pons_mm_desktop.Mm.Decide.{accumulating, distributing, clear_all, done, retail_buy_response}
use pons_mm_desktop.Mm.Monitor.{RetailEvent, new_monitor}
use pons_mm_desktop.Mm.Stats.{new_stats, total_cost_wei, overhead_wei}
use pons_mm_desktop.Mm.Sale.{receipt, total_held, sell_wallets_fast}
use pons_mm_desktop.Mm.Engine.{Engine, Config, Chain, drained, interrupt_buys, is_done}
use pons_mm_desktop.Mm.Engine.Exit.{quote_sell_all}
use pons_mm_desktop.Mm.Engine.Retail.{on_retail, retail_decision}
use pons_mm_desktop.Mm.Engine.Loop.{
  Event, retail_event, batch_executed, batch_result, run, returned,
}
use pons_mm_desktop.Mm.Engine.Stopping.{run-drained}
use pons_mm_desktop.Mm.Engine.Rounds.{OneRound}
use pons_mm_desktop.Mm.Engine.Rounds.Events.{run-OneRound}
use pons_mm_desktop.Mm.Engine.Batches.Draining.{rounds, rounds-Done}
use pons_mm_desktop.Mm.Engine.FullExit.{on_retail_buy-exits, on_retail-resumes}

abbrev wallet : ℕ → ℕ → Wallet
wallet addr tokens = record { addr = addr; eth_wei = 5; token_raw = tokens; nonce = 0 }

abbrev bought_by_retail : RetailEvent
bought_by_retail = record {
  is_buy = true;
  token_amount = 10;
  weth_amount = 1;
  price = none;
  trader = 9;
  at = 1;
}

abbrev machine : Engine
machine = record {
  state = accumulating;
  retail_response_active = false;
  round_running = false;
  batch = none;
  results = 0;
  batch_size = 0;
  pending_buys = 0;
  buy_round_running = false;
  buy_round_cancelled = false;
  retail_hold_logged = false;
  wallets = wallet 1 0 ∷ wallet 2 40 ∷ wallet 3 60 ∷ [];
  monitor = record new_monitor {
    our_weth_spent = pos 50;
    our_tokens = 100;
    retail = bought_by_retail ∷ [];
  };
  stats = new_stats;
}

abbrev config : Config
config = record { target_mode = false; ratio = pos 0; v2 = true }

-- Quotes give a fixed price for all tokens, and every sale clears its wallet.
abbrev chain : ℕ → Chain
chain price = record {
  sale = λ a. receipt true (some 0) none;
  fresh = λ tokens. some price;
  balances = none;
  draw = 7;
  plan = none;
}

abbrev events : List (Chain × Event)
events = (chain 40, retail_event) ∷ (chain 40, batch_executed) ∷ (chain 40, batch_result) ∷ []

run_returns : (run config events machine).1 ≡ returned
unfolding run retail_decision retail_buy_response quote_sell_all total_cost_wei overhead_wei ◌+ℤ◌
    new_monitor total_held sell_wallets_fast wallet_addrs
run_returns = refl

run-drained_example : drained (run config events machine).0 ≡ true
run-drained_example = run-drained config events machine refl refl run_returns

run-OneRound_example : OneRound (run config events machine).0
run-OneRound_example = run-OneRound config events machine refl

abbrev distributing_machine : Engine
distributing_machine = record machine { state = distributing }

rounds-Done_example :
    is_done (rounds (λ a. none) (λ tokens. 40) 7 none 2 distributing_machine).state ≡ true
rounds-Done_example =
    rounds-Done (λ a. none) (λ tokens. 40) 7 none 1 distributing_machine (refl, refl, refl, refl)
      (omega arith)

profitable : retail_decision (chain 90) (interrupt_buys machine) ≡ clear_all
unfolding retail_decision interrupt_buys retail_buy_response quote_sell_all total_cost_wei
    overhead_wei ◌+ℤ◌ new_monitor
profitable = refl

sweep_succeeds :
    (sell_wallets_fast
      (chain 90).sale
      (chain 90).fresh
      (quote_sell_all (chain 90) (interrupt_buys machine).monitor.our_tokens)
      0
      machine.wallets).2
    ≡ true
unfolding sell_wallets_fast quote_sell_all interrupt_buys
sweep_succeeds = refl

on_retail_buy-exits_example :
    let e' = on_retail config (chain 90) true machine in
    (total_held e'.wallets ≡ 0)
    × (e'.retail_response_active ≡ false)
    × (e'.state ≡ (if machine.pending_buys == 0 then done else clear_all))
on_retail_buy-exits_example =
    on_retail_buy-exits config (chain 90) machine profitable (λ a. refl) sweep_succeeds

abbrev exiting : Engine
exiting = record machine { state = clear_all; pending_buys = 1 }

unprofitable : retail_decision (chain 40) (interrupt_buys exiting) ≡ distributing
unfolding retail_decision interrupt_buys retail_buy_response quote_sell_all total_cost_wei
    overhead_wei ◌+ℤ◌ new_monitor
unprofitable = refl

on_retail-resumes_example :
    (on_retail config (chain 1) false (on_retail config (chain 40) true exiting)).state
    ≡ accumulating
on_retail-resumes_example =
    on_retail-resumes config (chain 40) (chain 1) exiting refl (omega arith) refl unprofitable
