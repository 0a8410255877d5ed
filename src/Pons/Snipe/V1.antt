-- ===== src/Pons/Snipe/V1.antt =====
-- internal/pons/v1_snipe.go: what the sniper of v1 launches does differently. A v1 pool trades in place
-- forever, values come from a quoter contract, and the proceeds are WETH.
pub mod Entry
pub mod Baseline
use pons_mm_desktop.Prelude.{
  ℕ, ◌+◌, ◌-◌, ◌*◌, ◌%◌, ◌^◌, Bool, true, false, ◌&&◌, ◌||◌, not, Option, none, some, List, [], ◌∷◌,
  ◌==◌, leb, ltb, if◌then◌else◌,
}
use pons_mm_desktop.Prelude.Int.{ℤ}
use pons_mm_desktop.Prelude.Result.{Result, ok, err}
use pons_mm_desktop.Pons.Curve.{apply_slippage_down}
use pons_mm_desktop.Pons.Snipe.{
  SnipeError, block_unread, block_too_low, cancelled, quote_unread, Look, Order, Sniped, Settings,
  BuyAnswers, buy_expected, scale_frac, Receipt,
}
use pons_mm_desktop.Pons.Snipe.Exit.{
  Reason, shutdown, hold_timeout, dev_dump, Watch, judge, dumped, dev_trip_of, one_million,
  ensure_approval, ExitError, holding_unread, not_approved, reserves_unread, not_sent, confirm_sale,
}

pub record V1Launch : Type 0 where
  pub token : ℕ
  pub deployer : ℕ
  pub pair_token : ℕ
  pub initial_buy_wei : Option ℕ
  pub restrictions_end_block : ℕ

pub record V1LaunchInfo : Type 0 where
  pub name : ℕ
  pub symbol : ℕ

-- A creator that bought less than the minimum, where there is one.
abbrev pub bought_too_little : Option ℕ → Option ℕ → Bool
bought_too_little none initial = false
bought_too_little (some minimum) none = true
bought_too_little (some minimum) (some initial) = ltb initial minimum

-- The guards of `Run` on a launch: a pair with ETH or `weth`, the creator's buy, the filter.
unfoldable pub wanted_v1 :
    ℕ → Option ℕ → Option (V1Launch → V1LaunchInfo → Bool) → V1Launch → V1LaunchInfo → Bool
wanted_v1 weth minimum filter l info =
    if not (l.pair_token == 0) && not (l.pair_token == weth)
    then false
    else if bought_too_little minimum l.initial_buy_wei
    then false
    else elim filter [ none ↦ true | some accepts ↦ accepts l info ]

-- The block that the launch stands in, two before the last restricted one, on uint64.
abbrev pub launch_block : ℕ → ℕ
launch_block end_block = (end_block + (2 ^ 64 - 2)) % 2 ^ 64

unfoldable pub await_block : ℕ → List (Look ℕ) → Option (Result SnipeError (Unit {0}))
await_block launch [] = none
await_block launch (look ∷ looks) =
    let rest = await_block launch looks in
    elim look.reading [
      | none ↦ some (err block_unread)
      | some block ↦
          if ltb launch block
          then some (ok tt)
          else if look.late
          then some (err block_too_low)
          else if look.done
          then some (err cancelled)
          else rest
    ]

-- `waitRestrictions` on what its rounds see; `none` while it still waits at the end of the list.
unfoldable pub wait_restrictions : ℕ → List (Look ℕ) → Option (Result SnipeError (Unit {0}))
unfolding await_block
wait_restrictions end_block looks =
    if end_block == 0 then some (ok tt) else await_block (launch_block end_block) looks

-- `snipeOne` of v1. The nonce and the gas are read during the wait, but their error counts where the
-- transaction is built, after the quote and the dry run: it is part of `build`.
unfoldable pub snipe_one_v1 :
    Settings
    → ℕ
    → List (Look ℕ)
    → Option ℕ
    → BuyAnswers
    → Option (Option Order × Result SnipeError Sniped)
unfolding wait_restrictions buy_expected
snipe_one_v1 cfg end_block looks quote answers = elim (wait_restrictions end_block looks) [
  | none ↦ none
  | some (err e) ↦ some (none, err e)
  | some (ok u) ↦ elim quote [
    | none ↦ some (none, err quote_unread)
    | some expected ↦ some (buy_expected cfg answers expected)
  ]
]

-- The base of the stop: the value at entry where it is read, positive and below the cost.
unfoldable pub stop_base : ℕ → Option ℕ → ℕ
stop_base cost none = cost
stop_base cost (some value) = if ltb 0 value && ltb value cost then value else cost

-- What `autoExitV1` fixes at its start.
unfoldable pub watch_position_v1 : ℕ → ℕ → ℕ → ℕ → ℕ → Option ℕ → Option ℕ → Watch
unfolding stop_base
watch_position_v1 tokens cost profit_target stop_frac follow value dev_balance = record {
  tokens_out = tokens;
  target = scale_frac cost (one_million + profit_target);
  stop =
      if stop_frac == 0
      then none
      else some (scale_frac (stop_base cost value) (one_million - stop_frac));
  dev_trip = dev_trip_of follow dev_balance;
}

-- `evaluate` on the quote for the position.
unfoldable pub evaluate_v1 : Watch → Option ℕ → Option Reason
unfolding judge
evaluate_v1 w none = none
evaluate_v1 w (some value) = judge w value

pub data V1Signal : Type 0 where
  ctx_done deadline : V1Signal
  traded : Option ℕ → V1Signal
  polled : Option ℕ → Option ℕ → V1Signal

unfoldable pub on_signal_v1 : Watch → V1Signal → Option Reason
unfolding evaluate_v1
on_signal_v1 w ctx_done = some shutdown
on_signal_v1 w deadline = some hold_timeout
on_signal_v1 w (traded value) = evaluate_v1 w value
on_signal_v1 w (polled balance value) =
    if dumped w.dev_trip balance then some dev_dump else evaluate_v1 w value

-- The loop of `autoExitV1`; `none` while the position is held at the end of the signals.
unfoldable pub hold_v1 : Watch → List V1Signal → Option Reason
unfolding on_signal_v1
hold_v1 w [] = none
hold_v1 w (signal ∷ signals) =
    let rest = hold_v1 w signals in
    elim (on_signal_v1 w signal) [ some reason ↦ some reason | none ↦ rest ]

pub record V1SaleAnswers : Type 0 where
  pub held : Option ℕ
  pub allowance : Option ℕ
  pub approved : Bool
  pub quote : Option ℕ
  pub sent : Bool
  pub receipt : Receipt
  pub weth : Option ℕ
  pub unwrap_sent : Bool

-- `unwrapWeth`: the WETH whose withdrawal is broadcast.
unfoldable pub unwrap_weth : Option ℕ → Bool → Option ℕ
unwrap_weth none sent = none
unwrap_weth (some balance) sent = if balance == 0 then none else if sent then some balance else none

-- A sale that is accepted: the order, the WETH that is unwrapped after a success, and the error.
abbrev pub settled_v1 :
    V1SaleAnswers
    → Order
    → Result ExitError (Unit {0})
    → Option Order × Option ℕ × Result ExitError (Unit {0})
settled_v1 answers order (ok u) = (some order, unwrap_weth answers.weth answers.unwrap_sent, ok u)
settled_v1 answers order (err e) = (some order, none, err e)

unfoldable pub sell_held_v1 :
    ℤ → V1SaleAnswers → ℕ → Option Order × Option ℕ × Result ExitError (Unit {0})
unfolding ensure_approval unwrap_weth
sell_held_v1 slippage_bps answers held =
    if held == 0
    then (none, none, ok tt)
    else if ensure_approval answers.allowance answers.approved held
    then elim answers.quote [
      | none ↦ (none, none, err reserves_unread)
      | some expected ↦
          let order : Order = record {
            amount = held;
            min_out = apply_slippage_down expected slippage_bps;
          } in
          if answers.sent
          then settled_v1 answers order (confirm_sale answers.receipt)
          else (none, none, err not_sent)
    ]
    else (none, none, err not_approved)

-- `sellAllV1`.
unfoldable pub sell_all_v1 :
    ℤ → V1SaleAnswers → Option Order × Option ℕ × Result ExitError (Unit {0})
unfolding sell_held_v1
sell_all_v1 slippage_bps answers = elim answers.held [
  | none ↦ (none, none, err holding_unread)
  | some held ↦ sell_held_v1 slippage_bps answers held
]
