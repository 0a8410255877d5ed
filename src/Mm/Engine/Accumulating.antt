-- ===== src/Mm/Engine/Accumulating.antt =====
-- When a round of buys starts (`startAccumulationRound` and `pumpPausedForRetailHold` in
-- internal/ponsmm/engine.go).
use pons_mm_desktop.Prelude.{◌≡◌, ◌↔◌, ◌<◌, true, false, arith}
use pons_mm_desktop.Prelude.Int.{pos, ◌≤ℤ◌}
use pons_mm_desktop.Mm.Engine.{
  Engine, Config, start_accumulation_round, pump_paused_for_retail_hold,
}

-- From a machine without a running round, a tick starts one exactly if no buy is pending and it is not
-- the case that the price-target mode has a ratio of at most 0 while retail holds tokens.
pub start_accumulation_round_iff :
    (cfg : Config) (e : Engine)
    → e.buy_round_running ≡ false
    → ((start_accumulation_round cfg e).buy_round_running ≡ true) ↔ (
        (e.pending_buys ≡ 0)
        × (¬ ((cfg.target_mode ≡ true) × (cfg.ratio ≤ℤ pos 0) × (0 < e.monitor.retail_net_tokens))))
unfolding start_accumulation_round pump_paused_for_retail_hold
start_accumulation_round_iff cfg e h =
    (λ s. (ground arith, λ held. ground (arith, held)), λ s. ground (arith, s.0, s.1))
