-- ===== src/Mm/Buying.antt =====
-- One round of buys in internal/ponsmm/engine.go: `accumulateStep` with `fundedMakers`,
-- `buyEligibleMakers`, `ensureMakerFunds` and `clampBuyToWalletCap`. Which makers buy, and how much
-- at most. Comparisons of floats and the answers of the chain are arguments.
pub mod Eligible
use pons_mm_desktop.Prelude.{
  ℕ, ◌+◌, ◌-◌, ◌*◌, ◌/◌, ◌%◌, Bool, true, false, ◌&&◌, ◌||◌, not, Option, none, some, List, [], map,
  ◌==◌, if◌then◌else◌, ltb, leb, length, take, drop, keep,
}
use pons_mm_desktop.Mm.Wallets.{Wallet, spendable_wei, set_eth_balance}
use pons_mm_desktop.Mm.SnipeExempt.{filter_snipe_exempt}

unfoldable pub funded_makers : ℕ → List Wallet → List Wallet
unfolding spendable_wei
funded_makers gas_reserve makers = keep (λ (w : Wallet). ltb 0 (spendable_wei gas_reserve w)) makers

unfoldable pub buy_eligible_makers : ℕ → List Wallet → List Wallet
unfolding funded_makers
buy_eligible_makers gas_reserve makers =
    keep (λ (w : Wallet). w.token_raw == 0) (funded_makers gas_reserve makers)

-- What a round reads. `due` tells whether the last refresh of the balances is old enough, `balances`
-- what it answers; `held_enough` whether our share has reached the target.
pub record RoundInput : Type 0 where
  pub v2 : Bool
  pub graduated : Bool
  pub held_enough : Bool
  pub wants_graduation : Bool
  pub concurrent : Bool
  pub gas_reserve : ℕ
  pub due : Bool
  pub balances : Option (ℕ → ℕ)
  pub tax_cleared : Bool
  pub exempt : Option (List ℕ)

-- The makers afterwards; there are funds if any of them is funded.
unfoldable pub ensure_maker_funds : RoundInput → List Wallet → List Wallet
unfolding funded_makers
ensure_maker_funds input makers =
    if length (funded_makers input.gas_reserve makers) == 0 && input.due
    then elim input.balances [
      | none ↦ makers
      | some balances ↦ map (λ (w : Wallet). set_eth_balance (balances w.addr) w) makers
    ]
    else makers

-- The makers that may buy in this round, after the filter of the opening tax.
unfoldable pub round_makers : RoundInput → List Wallet → List Wallet
unfolding buy_eligible_makers filter_snipe_exempt
round_makers input makers =
    let eligible = buy_eligible_makers input.gas_reserve makers in
    if input.tax_cleared then eligible else filter_snipe_exempt input.exempt eligible

-- `accumulateStep`: the makers that buy, and the counter `rr` afterwards.
unfoldable pub accumulate_step : RoundInput → ℕ → List Wallet → List Wallet × ℕ
unfolding ensure_maker_funds round_makers
accumulate_step input rr makers =
    let funded = ensure_maker_funds input makers in
    let eligible = round_makers input funded in
    if input.v2 && input.graduated
    then ([], rr)
    else if input.held_enough && (not input.wants_graduation || input.graduated)
    then ([], rr)
    else if length (funded_makers input.gas_reserve funded) == 0
    then ([], rr)
    else if length eligible == 0
    then ([], rr)
    else if input.concurrent
    then (eligible, rr)
    else (take 1 (drop (rr % length eligible) eligible), rr + 1)

-- `clampBuyToWalletCap`: `restricted` tells whether the cap of a v1 launch is still in force; `want`
-- is the quote for the whole spend.
unfoldable pub clamp_buy_to_wallet_cap : Bool → ℕ → ℕ → ℕ → Option ℕ → ℕ → ℕ
clamp_buy_to_wallet_cap restricted supply max_wallet_bps held want spend =
    let room = supply * max_wallet_bps / 10000 - held in
    if not restricted || max_wallet_bps == 0 then spend else if room == 0 then 0 else elim want [
      | none ↦ spend
      | some tokens ↦ if leb tokens room then spend else spend * room / tokens
    ]
