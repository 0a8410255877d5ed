-- ===== src/Mm/Launch.antt =====
-- The launch of a v2 token: `launchV2`, `launchGasLimit`, `ensureLaunchFunds` and `launchBuyBurst` in
-- internal/ponsmm/engine.go. What the node answers is an argument, `none` for an error.
pub mod Preflight
pub mod Confirming
use pons_mm_desktop.Prelude.{
  ℕ, ◌+◌, ◌*◌, ◌/◌, ◌%◌, ◌^◌, Bool, true, false, ◌&&◌, not, Option, none, some, List, [], ◌∷◌, ◌==◌,
  ltb, if◌then◌else◌, length, take,
}
use pons_mm_desktop.Prelude.Result.{Result, ok, err, ◌>>=◌, ◌>>◌}
use pons_mm_desktop.Pons.Client.{Waited}
use pons_mm_desktop.Pons.Events.{
  Log, Abi, LaunchEvent, decode_launch, first_of, curve_trades_from_receipt, CurveTrade, address_of,
}
use pons_mm_desktop.Mm.Wallets.{Wallet, SendAnswer, send, spendable_wei, set_token_balance}
use pons_mm_desktop.Mm.Monitor.Retail.{Fill, bought}
use pons_mm_desktop.Mm.SnipeExempt.{filter_snipe_exempt}
use pons_mm_desktop.Mm.Buying.{funded_makers}
use pons_mm_desktop.Mm.Bundle.{
  BundleMode, window, atomic, BundleBuy, Fraction, scale_wei, launch_gas, DepositError,
}

pub data LaunchError : Type 0 where
  can_unread not_allowed fee_unread config_unread config_disabled no_economics : LaunchError
  not_refreshed not_prepared no_buys not_built : LaunchError
  balance_unread gas_unread underfunded : LaunchError
  no_params not_sent not_confirmed launch_reverted no_event : LaunchError
  not_parked : DepositError → LaunchError

abbrev pub launch_v2_gas_limit : ℕ
launch_v2_gas_limit = 6000000

abbrev pub buy_gas_limit : ℕ
buy_gas_limit = 500000

-- `launchGasLimit`, on 64 bits, for a transaction with a recipient.
unfoldable pub launch_gas_limit : Option ℕ → ℕ → ℕ
launch_gas_limit none fallback = fallback
launch_gas_limit (some estimate) fallback = (estimate + estimate * 15 % 2 ^ 64 / 100) % 2 ^ 64

abbrev pub read : {A : Type 0} → Option A → LaunchError → Result LaunchError A
read none e = err e
read (some a) e = ok a

abbrev pub demand : Bool → LaunchError → Result LaunchError (Unit {0})
demand true e = ok tt
demand false e = err e

-- `ensureLaunchFunds`: the treasury's balance against the value and the gas at the fee cap.
unfoldable pub ensure_launch_funds : Option ℕ → Option ℕ → ℕ → ℕ → Result LaunchError (Unit {0})
ensure_launch_funds balance fee_cap value gas_limit = read balance balance_unread >>= λ held.
    read fee_cap gas_unread >>= λ cap. demand (not (ltb held (cap * gas_limit + value))) underfunded

-- What the engine is configured with: the creator's own buy, and the bundle, if there is one.
pub record LaunchSettings : Type 0 where
  pub dev_buy : ℕ
  pub bundle : Option BundleMode
  pub dry_run : Bool

-- The node before the launch. `prepared` is the outcome of `prepareLaunchBundle`.
pub record PreflightAnswers : Type 0 where
  pub can_launch : Option Bool
  pub launch_fee : Option ℕ
  pub enabled : Option Bool
  pub economics : Bool
  pub refreshed : Bool
  pub prepared : Option (List BundleBuy)
  pub builds : Bool
  pub estimate : Option ℕ
  pub balance : Option ℕ
  pub fee_cap : Option ℕ

pub record LaunchPlan : Type 0 where
  pub fee : ℕ
  pub value : ℕ
  pub gas_limit : ℕ
  pub buys : List BundleBuy

abbrev pub base_gas : ℕ → ℕ
base_gas dev_buy =
    if ltb 0 dev_buy then launch_v2_gas_limit + buy_gas_limit else launch_v2_gas_limit

-- The buys of the bundle, at least one where there is a bundle.
unfoldable pub bundled_buys :
    Option BundleMode → PreflightAnswers → Result LaunchError (List BundleBuy)
bundled_buys none a = ok []
bundled_buys (some mode) a =
    demand a.refreshed not_refreshed
    >> (read a.prepared not_prepared >>= λ buys. demand (not (length buys == 0)) no_buys >> ok buys)

abbrev pub budget : Option BundleMode → ℕ → List BundleBuy → ℕ
budget none base buys = base
budget (some mode) base buys = launch_gas mode base buys

-- An atomic launch cannot be estimated before its deposits exist.
abbrev pub first_gas : Option BundleMode → Option ℕ → ℕ → ℕ
first_gas (some atomic) estimate fallback = fallback
first_gas _ estimate fallback = launch_gas_limit estimate fallback

abbrev pub plan_of : LaunchSettings → PreflightAnswers → ℕ → List BundleBuy → LaunchPlan
plan_of c a fee buys = record {
  fee = fee;
  value = fee + c.dev_buy;
  gas_limit = first_gas c.bundle a.estimate (budget c.bundle (base_gas c.dev_buy) buys);
  buys = buys;
}

-- `launchV2` up to the dry run.
unfoldable pub preflight : LaunchSettings → PreflightAnswers → Result LaunchError LaunchPlan
unfolding bundled_buys ensure_launch_funds launch_gas_limit
preflight c a = read a.can_launch can_unread >>= λ can.
    demand can not_allowed
    >> (read a.launch_fee fee_unread >>= λ fee. read a.enabled config_unread >>= λ enabled.
        demand enabled config_disabled
        >> (demand a.economics no_economics
            >> (bundled_buys c.bundle a >>= λ buys.
                let plan = plan_of c a fee buys in
                demand a.builds not_built
                >> (ensure_launch_funds a.balance a.fee_cap plan.value plan.gas_limit >> ok plan))))

-- The node from the dry run to the broadcast. `deposits` is the outcome of `ensureDeposits`, and `sent`
-- that of `sendWindow` or of the pool's `send`.
pub record SendAnswers : Type 0 where
  pub refreshed : Bool
  pub deposits : Result DepositError (List BundleBuy)
  pub builds : Bool
  pub params : Bool
  pub sent : Bool

abbrev pub parked :
    Option BundleMode
    → Result DepositError (List BundleBuy)
    → List BundleBuy
    → Result LaunchError (List BundleBuy)
parked (some atomic) (ok buys) old = ok buys
parked (some atomic) (err e) old = err (not_parked e)
parked _ deposits old = ok old

-- The buys of the launch that is broadcast, or the error that stops it; `none` for a dry run.
unfoldable pub broadcast_launch :
    LaunchSettings → LaunchPlan → SendAnswers → Option (Result LaunchError (List BundleBuy))
broadcast_launch c plan a =
    if c.dry_run
    then none
    else some (
        demand a.refreshed not_refreshed
        >> (parked c.bundle a.deposits plan.buys >>= λ buys.
            demand a.params no_params
            >> (demand a.builds not_built >> (demand a.sent not_sent >> ok buys))))

-- The end of a launch that was broadcast: whether the withdrawal of the deposits is started, here or at
-- the end of `settleAtomicBuys`, and the launch or the error.
pub record LaunchEnd : Type 0 where
  pub withdraws : Bool
  pub result : Result LaunchError LaunchEvent

abbrev pub has_event : {A : Type 0} → Option A → Bool
has_event none = false
has_event (some a) = true

abbrev pub is_atomic : Option BundleMode → Bool
is_atomic (some atomic) = true
is_atomic _ = false

-- `launchV2` on the receipt it waits for and the launch event that the receipt carries.
unfoldable pub confirm_launch : Option BundleMode → Waited → Option LaunchEvent → LaunchEnd
confirm_launch mode waited event = elim waited.error [
  | some e ↦ record { withdraws = false; result = err not_confirmed }
  | none ↦ elim waited.status [
    | some true ↦ record {
      withdraws = has_event event && is_atomic mode;
      result = read event no_event;
    }
    | _ ↦ record { withdraws = is_atomic mode; result = err launch_reverted }
  ]
]

-- `V2LaunchedFromReceipt` and `V2AtomicBuyFromReceipt`.
unfoldable pub v2_launched_from_receipt : Abi → ℕ → List Log → Option LaunchEvent
v2_launched_from_receipt abi factory logs =
    first_of (λ (lg : Log). if lg.address == factory then decode_launch abi lg else none) logs

abbrev pub bought_for : Abi → ℕ → ℕ → Log → List ℕ → Option ℕ
bought_for abi curve recipient lg (topic ∷ trader ∷ to ∷ more) =
    if lg.address == curve && (topic == abi.curve_buy_topic && address_of to == recipient)
    then elim (abi.unpack_curve_buy lg.contents) [
      | none ↦ none
      | some (quote, tokens) ↦ some tokens
    ]
    else none
bought_for abi curve recipient lg _ = none

unfoldable pub v2_atomic_buy_from_receipt : Abi → ℕ → ℕ → List Log → Option ℕ
v2_atomic_buy_from_receipt abi curve recipient logs =
    first_of (λ lg. bought_for abi curve recipient lg lg.topics) logs

-- The creator's own buy in the launch transaction: the treasury's wallet, and the fill that is recorded.
unfoldable pub book_dev_buy : ℕ → Option ℕ → Wallet → Wallet × List Fill
book_dev_buy dev_buy none w = (w, [])
book_dev_buy dev_buy (some tokens) w =
    if dev_buy == 0 then (w, []) else (set_token_balance tokens w, bought dev_buy tokens ∷ [])

-- The makers of the burst: all that are funded and exempt, or only the first.
unfoldable pub burst_makers : ℕ → Bool → Option (List ℕ) → List Wallet → List Wallet
burst_makers gas_reserve concurrent exempt makers =
    let eligible = filter_snipe_exempt exempt (funded_makers gas_reserve makers) in
    if concurrent then eligible else take 1 eligible

abbrev pub after_send : ℕ → Wallet × Bool → Wallet × Option ℕ
after_send spend (w, sent) = (w, if sent then some spend else none)

-- One buy of the burst: the wallet after the send, and what it spends if it is sent.
unfoldable pub burst_buy : ℕ → Fraction → Bool → SendAnswer → Wallet → Wallet × Option ℕ
burst_buy gas_reserve fraction builds answer w =
    let spend = scale_wei fraction (spendable_wei gas_reserve w) in
    if spend == 0 then (w, none) else if builds then after_send spend (send answer w) else (w, none)
