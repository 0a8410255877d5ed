-- ===== src/Pons/Snipe.antt =====
-- internal/pons/snipe.go: the sniper of v2 launches up to its confirmed buy. What the node answers is an
-- argument: `none` for an error, which carries no more than whether its text speaks of funds.
pub mod Slots
pub mod Entry
pub mod Exit
pub mod V1
mod Tests
use pons_mm_desktop.Prelude.{
  ℕ, ◌+◌, ◌*◌, ◌/◌, Bool, true, false, not, Option, none, some, List, [], ◌∷◌, ◌==◌, leb,
  if◌then◌else◌,
}
use pons_mm_desktop.Prelude.Int.{ℤ, pos, ◌+ℤ◌, leb_ℤ}
use pons_mm_desktop.Prelude.Result.{Result, ok, err}
use pons_mm_desktop.Pons.Curve.{tokens_out_for_quote, apply_slippage_down}

pub record Launch : Type 0 where
  pub token : ℕ
  pub curve : ℕ
  pub deployer : ℕ
  pub pair_token : ℕ

pub record LaunchInfo : Type 0 where
  pub name : ℕ
  pub symbol : ℕ
  pub native_quote : Bool
  pub fee_bps : ℤ
  pub creator_tax_bps : ℤ

-- The guards of `Run` on a launch: native ETH only, readable, and past the filter, if there is one.
unfoldable pub wanted : Option (Launch → LaunchInfo → Bool) → Launch → Option LaunchInfo → Bool
wanted filter l info = if not (l.pair_token == 0) then false else elim info [
  | none ↦ false
  | some i ↦ elim filter [ none ↦ true | some accepts ↦ accepts l i ]
]

-- `scaleFrac` for a factor that is a whole number of millionths, which the source gets by rounding a
-- float; factors that the rounding changes, such as those below half a millionth, are not modelled.
unfoldable pub scale_frac : ℕ → ℕ → ℕ
scale_frac x millionths = x * millionths / 1000000

unfoldable pub max_snipe_tax_bps : ℤ → ℤ
max_snipe_tax_bps configured = if leb_ℤ configured (pos 0) then pos 100 else configured

pub data SnipeError : Type 0 where
  tax_unread tax_too_high cancelled reserves_unread priced_zero reverted no_holding : SnipeError
  block_unread block_too_low quote_unread : SnipeError
  build_error send_error : Bool → SnipeError

-- `isInsufficientFunds`, for the errors whose text comes from the node.
unfoldable pub is_insufficient_funds : SnipeError → Bool
is_insufficient_funds (build_error funds) = funds
is_insufficient_funds (send_error funds) = funds
is_insufficient_funds _ = false

-- What one round of a wait sees: the reading, and then whether the deadline has passed and whether the
-- context is done.
pub record Look {ℓ} (A : Type ℓ) : Type ℓ where
  pub reading : Option A
  pub late : Bool
  pub done : Bool

-- `waitSnipeTaxDecay` on what its rounds see; `none` while it still waits at the end of the list.
unfoldable pub wait_snipe_tax_decay : ℤ → List (Look ℤ) → Option (Result SnipeError ℤ)
wait_snipe_tax_decay limit [] = none
wait_snipe_tax_decay limit (look ∷ looks) =
    let rest = wait_snipe_tax_decay limit looks in
    elim look.reading [
      | none ↦ some (err tax_unread)
      | some tax ↦
          if leb_ℤ tax limit
          then some (ok tax)
          else if look.late
          then some (err tax_too_high)
          else if look.done
          then some (err cancelled)
          else rest
    ]

-- `waitReceipt`: no receipt in time, or one with its status, its gas and the price of the gas.
pub data Receipt : Type 0 where
  missing : Receipt
  mined : Bool → ℕ → ℕ → Receipt

-- What the sniper broadcasts and the node accepts.
pub record Order : Type 0 where
  pub amount : ℕ
  pub min_out : ℕ

-- A result of `snipeOne`, without the launch and the hash. The cost is 0 for the nil pointer.
pub record Sniped : Type 0 where
  pub tokens_out : ℕ
  pub cost_wei : ℕ
  pub confirmed : Bool

pub record Settings : Type 0 where
  pub buy_wei : ℕ
  pub slippage_bps : ℤ
  pub dry_run : Bool

-- The node during one buy. An error of `build` (nonce, gas, encoding) or of `broadcast` is `some`, with
-- whether it speaks of funds.
pub record BuyAnswers : Type 0 where
  pub reserves : Option (ℕ × ℕ)
  pub build : Option Bool
  pub broadcast : Option Bool
  pub receipt : Receipt
  pub held : Option ℕ

-- The end of `snipeOne`, after the broadcast.
unfoldable pub confirm_buy : Receipt → Option ℕ → ℕ → Result SnipeError Sniped
confirm_buy missing held quote_in = ok (record { tokens_out = 0; cost_wei = 0; confirmed = false })
confirm_buy (mined status gas price) held quote_in =
    if not status then err reverted else elim held [
      | none ↦ err no_holding
      | some tokens ↦
          if tokens == 0
          then err no_holding
          else ok
              (record { tokens_out = tokens; cost_wei = quote_in + gas * price; confirmed = true })
    ]

-- `snipeOne` once it has the tokens it expects: what it broadcasts, and what it returns.
unfoldable pub buy_expected : Settings → BuyAnswers → ℕ → Option Order × Result SnipeError Sniped
unfolding confirm_buy
buy_expected cfg answers expected =
    let order : Order = record {
      amount = cfg.buy_wei;
      min_out = apply_slippage_down expected cfg.slippage_bps;
    } in
    if expected == 0
    then (none, err priced_zero)
    else if cfg.dry_run
    then (none, ok (record { tokens_out = expected; cost_wei = 0; confirmed = false }))
    else elim answers.build [
      | some funds ↦ (none, err (build_error funds))
      | none ↦ elim answers.broadcast [
        | some funds ↦ (none, err (send_error funds))
        | none ↦ (some order, confirm_buy answers.receipt answers.held cfg.buy_wei)
      ]
    ]

-- `snipeOne` after the wait for the tax; the residual tax comes off the input like the other fees.
unfoldable pub buy_at_tax :
    Settings → LaunchInfo → BuyAnswers → ℤ → Option Order × Result SnipeError Sniped
unfolding buy_expected
buy_at_tax cfg info answers tax = elim answers.reserves [
  | none ↦ (none, err reserves_unread)
  | some (quote, token) ↦
      buy_expected cfg answers
        (tokens_out_for_quote quote token cfg.buy_wei info.fee_bps (info.creator_tax_bps +ℤ tax))
]

-- `snipeOne`; `none` while it waits for the tax.
unfoldable pub snipe_one :
    Settings
    → ℤ
    → LaunchInfo
    → List (Look ℤ)
    → BuyAnswers
    → Option (Option Order × Result SnipeError Sniped)
unfolding wait_snipe_tax_decay max_snipe_tax_bps buy_at_tax
snipe_one cfg max_tax info looks answers =
    elim (wait_snipe_tax_decay (max_snipe_tax_bps max_tax) looks) [
      | none ↦ none
      | some (err e) ↦ some (none, err e)
      | some (ok tax) ↦ some (buy_at_tax cfg info answers tax)
    ]
