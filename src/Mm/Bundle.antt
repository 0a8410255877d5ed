-- ===== src/Mm/Bundle.antt =====
-- internal/ponsmm/bundle.go, with `scaleWei` of internal/ponsmm/decide.go: the maker buys that belong to
-- a launch. Answers of the chain, fees and the product of big.Float are arguments; negative differences
-- are dropped by the code's sign tests, which is where `-` stops.
pub mod Sizing
pub mod Sending
pub mod Deposits
pub mod Settling
use pons_mm_desktop.Prelude.{
  ℕ, suc, zero, ◌+◌, ◌-◌, ◌*◌, ◌%◌, ◌^◌, Bool, true, false, ◌&&◌, ◌||◌, not, Option, none, some,
  List, [], ◌∷◌, ◌++◌, map, ◌==◌, if◌then◌else◌, ltb, leb, length, take,
}
use pons_mm_desktop.Prelude.Result.{Result, ok, err}
use pons_mm_desktop.Mm.Wallets.{Wallet, spendable_wei}
use pons_mm_desktop.Mm.SnipeExempt.{filter_snipe_exempt}
use pons_mm_desktop.Mm.Buying.{funded_makers}

pub data BundleMode : Type 0 where
  window atomic : BundleMode

pub record BundleBuy : Type 0 where
  pub wallet : Wallet
  pub spend : ℕ

abbrev pub bundle_gas_limit : ℕ
bundle_gas_limit = 400000

abbrev pub router_launch_gas : ℕ
router_launch_gas = 150000

abbrev pub atomic_buy_gas : ℕ
atomic_buy_gas = 250000

abbrev pub deposit_gas_limit : ℕ
deposit_gas_limit = 120000

-- `launchGas`, on 64 bits.
unfoldable pub launch_gas : BundleMode → ℕ → List BundleBuy → ℕ
launch_gas window base buys = (base + router_launch_gas) % 2 ^ 64
launch_gas atomic base buys = (base + router_launch_gas + length buys * atomic_buy_gas) % 2 ^ 64

-- A float fraction: at most 0, at least 1, or in between, with what the product of floats truncates to.
pub data Fraction : Type 0 where
  nothing everything : Fraction
  part : (ℕ → ℕ) → Fraction

unfoldable pub scale_wei : Fraction → ℕ → ℕ
scale_wei nothing amount = 0
scale_wei everything amount = amount
scale_wei (part product) amount = product amount

-- `bundleBuySpend`; `none` is a nil fee cap.
unfoldable pub bundle_buy_spend : Fraction → ℕ → Option ℕ → ℕ → Wallet → ℕ
unfolding scale_wei spendable_wei
bundle_buy_spend fraction gas_reserve none gas_limit w = 0
bundle_buy_spend fraction gas_reserve (some fee_cap) gas_limit w =
    scale_wei fraction (spendable_wei gas_reserve w - fee_cap * gas_limit)

-- `refreshWindowBuys`, and the sizing of an atomic bundle in `prepareLaunchBundle`.
unfoldable pub size_buys : Fraction → ℕ → Option ℕ → ℕ → List Wallet → List BundleBuy
unfolding bundle_buy_spend
size_buys fraction gas_reserve fee_cap gas_limit [] = []
size_buys fraction gas_reserve fee_cap gas_limit (w ∷ ws) =
    let rest = size_buys fraction gas_reserve fee_cap gas_limit ws in
    let spend = bundle_buy_spend fraction gas_reserve fee_cap gas_limit w in
    if spend == 0 then rest else record { wallet = w; spend = spend } ∷ rest

-- The makers of a bundle in `prepareLaunchBundle`. `count` is the configured number of buys.
unfoldable pub bundle_makers :
    BundleMode → Option (List ℕ) → ℕ → Bool → ℕ → List Wallet → List Wallet
unfolding funded_makers filter_snipe_exempt
bundle_makers window exempt gas_reserve concurrent count makers =
    take count (filter_snipe_exempt exempt makers)
bundle_makers atomic exempt gas_reserve concurrent count makers =
    let eligible = filter_snipe_exempt exempt (funded_makers gas_reserve makers) in
    if concurrent then eligible else take 1 eligible

-- The pool's answer to one broadcast of a signed transaction.
pub data Reply : Type 0 where
  accepted already_known : Reply
  refused : ℕ → Reply

pub data Sent : Type 0 where
  sent : Sent
  send_failed : ℕ → Sent
  cancelled : Sent

-- The loop of `sendUntilAccepted` with `left` attempts to go; `last` is the last error. `alive` tells
-- whether the context lives before the attempt, `pause` whether it does through the pause.
unfoldable pub send_attempts : (ℕ → Reply) → (ℕ → Bool) → (ℕ → Bool) → ℕ → ℕ → ℕ → Sent
send_attempts reply alive pause zero attempt last = send_failed last
send_attempts reply alive pause (suc left) attempt last =
    if not (alive attempt) then cancelled else elim (reply attempt) [
      | accepted ↦ sent
      | already_known ↦ sent
      | refused e ↦
          let later = send_attempts reply alive pause left (attempt + 1) e in
          if pause attempt then later else cancelled
    ]

unfoldable pub send_until_accepted : (ℕ → Reply) → (ℕ → Bool) → (ℕ → Bool) → Sent
unfolding send_attempts
send_until_accepted reply alive pause = send_attempts reply alive pause 8 0 0

-- A signed buy: the nonce in the transaction, and the wallet afterwards.
pub record SignedBuy : Type 0 where
  pub buy : BundleBuy
  pub nonce : ℕ

abbrev pub next_nonce : Wallet → Wallet
next_nonce w = record w { nonce = w.nonce + 1 }

-- The signing loop of `sendWindow`; `builds` tells whether the wallet's transaction can be built.
unfoldable pub sign_buys : (ℕ → Bool) → List BundleBuy → List SignedBuy
sign_buys builds [] = []
sign_buys builds (b ∷ bs) =
    let rest = sign_buys builds bs in
    if builds b.wallet.addr
    then record { buy = record b { wallet = next_nonce b.wallet }; nonce = b.wallet.nonce } ∷ rest
    else rest

pub data WindowResult : Type 0 where
  none_affordable none_built : WindowResult
  launch_failed launched : Wallet → List SignedBuy → WindowResult

abbrev pub resynced : Option ℕ → Wallet → Wallet
resynced none w = w
resynced (some n) w = record w { nonce = n }

abbrev pub after_launch : Sent → Option ℕ → Wallet → List SignedBuy → WindowResult
after_launch sent pending treasury signed = launched (next_nonce treasury) signed
after_launch (send_failed e) pending treasury signed =
    launch_failed (resynced pending treasury) signed
after_launch cancelled pending treasury signed = launch_failed (resynced pending treasury) signed

-- `sendWindow`, up to the resubmissions: the treasury and the signed buys afterwards. `pending` is the
-- treasury's pending nonce, if it can be read.
unfoldable pub send_window :
    Fraction → ℕ → ℕ → ℕ → (ℕ → Bool) → Sent → Option ℕ → Wallet → List Wallet → WindowResult
unfolding size_buys sign_buys
send_window fraction gas_reserve fee_cap count builds reply pending treasury makers =
    let buys = take count (size_buys fraction gas_reserve (some fee_cap) bundle_gas_limit makers) in
    let signed = sign_buys builds buys in
    if length buys == 0
    then none_affordable
    else if length signed == 0
    then none_built
    else after_launch reply pending treasury signed

-- What the chain answers about one maker's deposit in `ensureDeposits`: the deposit and its operator,
-- or an error; the quoted fee cap; whether the transaction is built and sent; whether it is mined
-- successfully.
pub record DepositAnswers : Type 0 where
  pub deposit : Option (ℕ × ℕ)
  pub fee_cap : Option ℕ
  pub sends : Bool
  pub confirms : Bool

pub data DepositOutcome : Type 0 where
  unreadable excluded : DepositOutcome
  parked : ℕ → DepositOutcome
  -- The spend afterwards and the amount that is sent.
  topped_up : ℕ → ℕ → DepositOutcome

-- One maker's action, with its confirmation.
unfoldable pub ensure_deposit : ℕ → DepositAnswers → ℕ → DepositOutcome
ensure_deposit operator a spend = elim a.deposit [
  | none ↦ unreadable
  | some (have, op) ↦
      if ltb 0 have && not (op == operator)
      then excluded
      else if leb spend have
      then parked spend
      else elim a.fee_cap [
        | none ↦ excluded
        | some fee_cap ↦
            let need = spend - have - fee_cap * deposit_gas_limit in
            if need == 0
            then (if ltb 0 have then parked have else excluded)
            else if a.sends && a.confirms
            then topped_up (have + need) need
            else excluded
      ]
]

abbrev pub unreadable_outcome : DepositOutcome → Bool
unreadable_outcome unreadable = true
unreadable_outcome _ = false

abbrev pub with_spend : BundleBuy → DepositOutcome → List BundleBuy → List BundleBuy
with_spend b unreadable rest = rest
with_spend b excluded rest = rest
with_spend b (parked spend) rest = record b { spend = spend } ∷ rest
with_spend b (topped_up spend need) rest = record b { spend = spend } ∷ rest

unfoldable pub some_unreadable : ℕ → (ℕ → DepositAnswers) → List BundleBuy → Bool
unfolding ensure_deposit
some_unreadable operator answers [] = false
some_unreadable operator answers (b ∷ bs) =
    unreadable_outcome (ensure_deposit operator (answers b.wallet.addr) b.spend)
    || some_unreadable operator answers bs

-- The kept buys, in the order of the pool, which the code restores after its concurrent actions.
unfoldable pub kept_buys : ℕ → (ℕ → DepositAnswers) → List BundleBuy → List BundleBuy
unfolding ensure_deposit
kept_buys operator answers [] = []
kept_buys operator answers (b ∷ bs) =
    with_spend b (ensure_deposit operator (answers b.wallet.addr) b.spend)
      (kept_buys operator answers bs)

pub data DepositError : Type 0 where
  read_failed no_deposit : DepositError

-- `ensureDeposits`.
unfoldable pub ensure_deposits :
    ℕ → (ℕ → DepositAnswers) → List BundleBuy → Result DepositError (List BundleBuy)
unfolding some_unreadable kept_buys
ensure_deposits operator answers buys =
    let kept = kept_buys operator answers buys in
    if some_unreadable operator answers buys
    then err read_failed
    else if length kept == 0
    then err no_deposit
    else ok kept
