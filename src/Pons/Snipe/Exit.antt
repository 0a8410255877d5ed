-- ===== src/Pons/Snipe/Exit.antt =====
-- internal/pons/monitor.go: the exit monitor of a v2 position. What the node answers is an argument.
pub mod Triggers
pub mod Selling
use pons_mm_desktop.Prelude.{
  ℕ, ◌+◌, ◌-◌, ◌*◌, ◌/◌, Bool, true, false, Option, none, some, List, [], ◌∷◌, ◌==◌, leb, ltb,
  if◌then◌else◌,
}
use pons_mm_desktop.Prelude.Int.{ℤ}
use pons_mm_desktop.Prelude.Result.{Result, ok, err}
use pons_mm_desktop.Pons.Curve.{quote_out_for_tokens, apply_slippage_down}
use pons_mm_desktop.Pons.Snipe.{LaunchInfo, Order, Receipt, missing, mined, scale_frac}

pub data Reason : Type 0 where
  graduated target_reached stop_loss dev_dump hold_timeout shutdown : Reason

-- What `autoExit` fixes at its start. The fractions are in millionths; the stop is off at 0, and the
-- watch on the creator is off at 0 or when the creator holds nothing.
pub record Watch : Type 0 where
  pub tokens_out : ℕ
  pub target : ℕ
  pub stop : Option ℕ
  pub dev_trip : Option ℕ

abbrev pub one_million : ℕ
one_million = 1000000

abbrev pub dev_trip_of : ℕ → Option ℕ → Option ℕ
dev_trip_of follow none = none
dev_trip_of follow (some held) =
    if follow == 0
    then none
    else if held == 0
    then none
    else some (scale_frac held (one_million - follow))

unfoldable pub watch_position : ℕ → ℕ → ℕ → ℕ → ℕ → Option ℕ → Watch
watch_position tokens cost profit_target stop_frac follow dev_balance = record {
  tokens_out = tokens;
  target = scale_frac cost (one_million + profit_target);
  stop = if stop_frac == 0 then none else some (scale_frac cost (one_million - stop_frac));
  dev_trip = dev_trip_of follow dev_balance;
}

-- What one valuation reads: the graduation, then the reserves.
pub record View : Type 0 where
  pub has_graduated : Option Bool
  pub reserves : Option (ℕ × ℕ)

-- The value against the target and the stop.
unfoldable pub judge : Watch → ℕ → Option Reason
judge w value =
    if leb w.target value
    then some target_reached
    else elim w.stop [ none ↦ none | some stop ↦ if leb value stop then some stop_loss else none ]

unfoldable pub valued : Watch → LaunchInfo → Option (ℕ × ℕ) → Option Reason
unfolding judge
valued w info none = none
valued w info (some (quote, token)) =
    judge w (quote_out_for_tokens quote token w.tokens_out info.fee_bps info.creator_tax_bps)

-- `evaluate`.
unfoldable pub evaluate : Watch → LaunchInfo → View → Option Reason
unfolding valued
evaluate w info view = elim view.has_graduated [
  | some true ↦ some graduated
  | some false ↦ valued w info view.reserves
  | none ↦ valued w info view.reserves
]

-- What the select of the monitor receives: the end of the context, the deadline, a trade, or a tick with
-- the creator's balance, `none` if the read fails.
pub data Signal : Type 0 where
  ctx_done deadline : Signal
  traded : View → Signal
  polled : Option ℕ → View → Signal

-- The creator's holding at or below the trip, when the watch is armed.
abbrev pub dumped : Option ℕ → Option ℕ → Bool
dumped none balance = false
dumped (some trip) none = false
dumped (some trip) (some balance) = leb balance trip

unfoldable pub on_signal : Watch → LaunchInfo → Signal → Option Reason
unfolding evaluate
on_signal w info ctx_done = some shutdown
on_signal w info deadline = some hold_timeout
on_signal w info (traded view) = evaluate w info view
on_signal w info (polled balance view) =
    if dumped w.dev_trip balance then some dev_dump else evaluate w info view

-- The loop of `autoExit`; `none` while the position is held at the end of the signals.
unfoldable pub hold : Watch → LaunchInfo → List Signal → Option Reason
unfolding on_signal
hold w info [] = none
hold w info (signal ∷ signals) =
    let rest = hold w info signals in
    elim (on_signal w info signal) [ some reason ↦ some reason | none ↦ rest ]

-- What the node answers to a sale. `allowance` is what the curve may take, and `approved` and `sent`
-- say whether an approval is confirmed and the sale is accepted, nonce, gas and encoding included.
pub record SaleAnswers : Type 0 where
  pub held : Option ℕ
  pub allowance : Option ℕ
  pub approved : Bool
  pub reserves : Option (ℕ × ℕ)
  pub sent : Bool
  pub receipt : Receipt

pub data ExitError : Type 0 where
  holding_unread not_approved reserves_unread not_sent not_confirmed sale_reverted : ExitError

-- `ensureApproval`: an approval is sent unless the allowance is read and covers the amount. The
-- status of its receipt is not read.
unfoldable pub ensure_approval : Option ℕ → Bool → ℕ → Bool
ensure_approval none approved amount = approved
ensure_approval (some allowance) approved amount = if leb amount allowance then true else approved

abbrev pub confirm_sale : Receipt → Result ExitError (Unit {0})
confirm_sale missing = err not_confirmed
confirm_sale (mined status gas price) = if status then ok tt else err sale_reverted

-- `sellAll` of a holding that is read: the sale that is broadcast, and the error.
unfoldable pub sell_held :
    LaunchInfo → ℤ → SaleAnswers → ℕ → Option Order × Result ExitError (Unit {0})
unfolding ensure_approval
sell_held info slippage_bps answers held =
    if held == 0
    then (none, ok tt)
    else if ensure_approval answers.allowance answers.approved held
    then elim answers.reserves [
      | none ↦ (none, err reserves_unread)
      | some (quote, token) ↦
          let expected = quote_out_for_tokens quote token held info.fee_bps info.creator_tax_bps in
          let order : Order = record {
            amount = held;
            min_out = apply_slippage_down expected slippage_bps;
          } in
          if answers.sent then (some order, confirm_sale answers.receipt) else (none, err not_sent)
    ]
    else (none, err not_approved)

unfoldable pub sell_all : LaunchInfo → ℤ → SaleAnswers → Option Order × Result ExitError (Unit {0})
unfolding sell_held
sell_all info slippage_bps answers = elim answers.held [
  | none ↦ (none, err holding_unread)
  | some held ↦ sell_held info slippage_bps answers held
]

-- `finishExit`, which `autoExit` also follows for the deadline and the shutdown.
unfoldable pub finish_exit :
    LaunchInfo → ℤ → SaleAnswers → Reason → Option Order × Result ExitError (Unit {0})
unfolding sell_all
finish_exit info slippage_bps answers graduated = (none, ok tt)
finish_exit info slippage_bps answers _ = sell_all info slippage_bps answers

unfoldable pub after_hold :
    LaunchInfo
    → ℤ
    → SaleAnswers
    → Option Reason
    → Option (Reason × Option Order × Result ExitError (Unit {0}))
unfolding finish_exit
after_hold info slippage_bps answers none = none
after_hold info slippage_bps answers (some reason) =
    let (order, result) = finish_exit info slippage_bps answers reason in
    some (reason, order, result)

-- `autoExit`: none while it holds. (An approval ahead of the sale only changes the allowance.)
unfoldable pub auto_exit :
    Watch
    → LaunchInfo
    → ℤ
    → List Signal
    → SaleAnswers
    → Option (Reason × Option Order × Result ExitError (Unit {0}))
unfolding hold after_hold
auto_exit w info slippage_bps signals answers =
    after_hold info slippage_bps answers (hold w info signals)
