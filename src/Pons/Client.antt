-- ===== src/Pons/Client.antt =====
-- internal/pons/client.go with the receipts of internal/pons/v1_launch.go and the batch of
-- internal/pons/mmrouter.go. What the node answers is an argument, `none` for an error; times are in
-- milliseconds.
pub mod Gas
pub mod Receipts
use pons_mm_desktop.Prelude.{
  ℕ, ◌+◌, ◌-◌, ◌*◌, Bool, true, false, not, Option, none, some, List, [], ◌∷◌, ◌==◌, ltb,
  if◌then◌else◌, map,
}
use pons_mm_desktop.Prelude.Int.{ℤ}
use pons_mm_desktop.Prelude.Result.{Result, ok, err}
use pons_mm_desktop.Pons.Snipe.{Look}

-- The cache of the base fee and the tip; `none` for the nil pointers.
pub record GasCache : Type 0 where
  pub gas_base : Option ℕ
  pub gas_tip : Option ℕ
  pub gas_fetched : ℕ

abbrev pub freshness : ℕ
freshness = 6000

abbrev pub both : Option ℕ → Option ℕ → Option (ℕ × ℕ)
both (some base) (some tip) = some (base, tip)
both _ _ = none

unfoldable pub cached_gas : ℕ → GasCache → Option (ℕ × ℕ)
cached_gas now c = if ltb freshness (now - c.gas_fetched) then none else both c.gas_base c.gas_tip

abbrev pub or_else : ℕ → Option ℕ → ℕ
or_else fallback none = fallback
or_else fallback (some x) = x

-- `fetchGas`: the header has a base fee or none; without a suggested tip it is 1 gwei.
unfoldable pub fetch_gas : Option (Option ℕ) → Option ℕ → Option (ℕ × ℕ)
fetch_gas none tip = none
fetch_gas (some base) tip = some (or_else 0 base, or_else 1000000000 tip)

unfoldable pub store_gas : ℕ → ℕ → ℕ → GasCache
store_gas now base tip = record { gas_base = some base; gas_tip = some tip; gas_fetched = now }

abbrev pub priced : ℕ → ℕ × ℕ → ℕ × ℕ
priced extra (base, tip) = (tip + extra, base * 2 + (tip + extra))

-- `SuggestGas`: the cache and the tip with the fee cap, or the error of the header. An extra tip of nil
-- is 0.
unfoldable pub suggest_gas :
    ℕ → Option (Option ℕ) → Option ℕ → ℕ → GasCache → GasCache × Option (ℕ × ℕ)
unfolding cached_gas fetch_gas store_gas
suggest_gas now header tip extra c = elim (cached_gas now c) [
  | some gas ↦ (c, some (priced extra gas))
  | none ↦ elim (fetch_gas header tip) [
    | none ↦ (c, none)
    | some gas ↦ (store_gas now gas.0 gas.1, some (priced extra gas))
  ]
]

-- One refresh of `WarmGas`.
unfoldable pub warm_gas : ℕ → Option (Option ℕ) → Option ℕ → GasCache → GasCache
unfolding fetch_gas store_gas
warm_gas now header tip c = elim (fetch_gas header tip) [
  | none ↦ c
  | some gas ↦ store_gas now gas.0 gas.1
]

pub data ReceiptError : Type 0 where
  reverted not_found cancelled : ReceiptError

-- The two values that `WaitReceiptEvery` returns: the status of the receipt, if it has one, and the error.
pub record Waited : Type 0 where
  pub status : Option Bool
  pub error : Option ReceiptError

abbrev pub gives_up : ReceiptError → Waited
gives_up e = record { status = none; error = some e }

abbrev pub mined_with : Bool → Waited
mined_with true = record { status = some true; error = none }
mined_with false = record { status = some false; error = some reverted }

abbrev pub round : Option Bool → Bool → Bool → Option Waited → Option Waited
round (some status) late done rest = some (mined_with status)
round none late done rest =
    if late then some (gives_up not_found) else if done then some (gives_up cancelled) else rest

-- `WaitReceiptEvery` on what its rounds see: no receipt, or one with its status; `none` while it still
-- waits at the end of the list.
unfoldable pub wait_receipt_every : List (Look Bool) → Option Waited
wait_receipt_every [] = none
wait_receipt_every (look ∷ looks) =
    let rest = wait_receipt_every looks in round look.reading look.late look.done rest

-- One transaction of a batch: whether it is encoded, and the node's error for it, with a number for its text.
pub record BatchElement : Type 0 where
  pub encodes : Bool
  pub refusal : Option ℕ

pub data BatchError : Type 0 where
  encode_error batch_error : BatchError
  refused : ℕ → BatchError

abbrev pub refusal_of : Option ℕ → Option BatchError
refusal_of none = none
refusal_of (some text) = some (refused text)

abbrev pub element_error : Bool → BatchElement → Option BatchError
element_error sent x =
    if not x.encodes
    then some encode_error
    else if sent
    then refusal_of x.refusal
    else some batch_error

-- `SendRawBatch`: the error of each transaction, in order. `sent` says that the request itself succeeds.
unfoldable pub send_raw_batch : Bool → List BatchElement → List (Option BatchError)
send_raw_batch sent xs = map (element_error sent) xs

-- What `LoadLaunchInfo` reads: the fees or an error, then the decimals, 18 without an answer.
unfoldable pub load_launch_info : Option ℤ → Option ℤ → Option ℕ → Option (ℤ × ℤ × ℕ)
load_launch_info none tax decimals = none
load_launch_info (some fee) none decimals = none
load_launch_info (some fee) (some tax) decimals = some (fee, tax, or_else 18 decimals)
