-- ===== src/Control/Funding/Transfers.antt =====
-- internal/control/funding_engine.go: one hop of a task (`execFundingHop`, `randomNearEvenSplit`). A
-- sender acts on what the chain answers it, which is an argument; senders do not share anything but
-- the counters, so the order in which they run is left out. Receipts are one answer for a hop.
use pons_mm_desktop.Prelude.{
  ℕ, suc, zero, ◌+◌, ◌-◌, ◌*◌, ◌/◌, ◌%◌, ◌^◌, Bool, true, false, not, ◌&&◌, Option, none, some,
  List, [], ◌∷◌, ◌==◌, if◌then◌else◌, ltb, length, sum,
}
use pons_mm_desktop.Control.Funding.Route.{Split, Sweep, Hop}

-- The floor for estimates and the limit without one.
abbrev pub gas_floor : ℕ
gas_floor = 60000

abbrev pub gas_fallback : ℕ
gas_fallback = 300000

-- `estimateGas`: `none` is a failed call.
unfoldable pub estimate_gas : Option ℕ → ℕ
estimate_gas none = gas_fallback
estimate_gas (some est) =
    let limit = (est + est / 2) % 2 ^ 64 in
    if est == 0 then gas_fallback else if ltb limit gas_floor then gas_floor else limit

-- The slots of `randomNearEvenSplit` but the last, which takes the rest.
unfoldable pub split_parts : ℕ → ℕ → ℕ → List ℕ → List ℕ
split_parts total total_weight rest [] = []
split_parts total total_weight rest (w ∷ []) = rest ∷ []
split_parts total total_weight rest (w ∷ v ∷ ws) =
    let part = total * w / total_weight in
    part ∷ split_parts total total_weight (rest - part) (v ∷ ws)

-- The weights, where `random` are the numbers below 301 that `rand.Int63n` gives.
unfoldable pub draw : (ℕ → ℕ) → ℕ → List ℕ
draw random zero = []
draw random (suc n) = (850 + random n) ∷ draw random n

-- `randomNearEvenSplit` of `total` into `n` amounts.
unfoldable pub random_near_even_split : ℕ → ℕ → (ℕ → ℕ) → List ℕ
unfolding split_parts draw
random_near_even_split total n random =
    let weights = draw random n in split_parts total (sum weights) total weights

-- What the chain answers one sender; `none` is an error that outlasts the retries. `accepted i` tells
-- whether the pool takes the sender's i-th transfer, or says that it has it already.
pub record Answers : Type 0 where
  pub balance : Option ℕ
  pub estimate : Option ℕ
  pub nonce : Option ℕ
  pub accepted : ℕ → Bool
  pub random : ℕ → ℕ

pub record Payment : Type 0 where
  pub to : ℕ
  pub amount : ℕ
  pub gas_limit : ℕ
  pub nonce : ℕ

-- A sender's calls of `bump`, the transfers whose hash is kept, and whether it called `fail`.
pub record Outcome : Type 0 where
  pub bumps : ℕ
  pub payments : List Payment
  pub broken : Bool

abbrev pub skipped : ℕ → Outcome
skipped n = record { bumps = n; payments = []; broken = false }

abbrev pub gave_up : Outcome
gave_up = record { bumps = 0; payments = []; broken = true }

abbrev pub paid_first : Payment → Outcome → Outcome
paid_first p o = record { bumps = suc o.bumps; payments = p ∷ o.payments; broken = o.broken }

-- The loop over the recipients, from the i-th on.
unfoldable pub send_all : (ℕ → Bool) → ℕ → ℕ → ℕ → List ℕ → List ℕ → Outcome
send_all accepted limit nonce i [] amounts = skipped 0
send_all accepted limit nonce i (to ∷ tos) [] = gave_up
send_all accepted limit nonce i (to ∷ tos) (amount ∷ amounts) =
    let later = send_all accepted limit (nonce + 1) (i + 1) tos amounts in
    if accepted i
    then paid_first record { to = to; amount = amount; gas_limit = limit; nonce = nonce } later
    else gave_up

-- The sender of a split. A subtraction that would be negative or zero is the same to the code.
unfoldable pub exec_split : ℕ → Answers → Split → Outcome
unfolding estimate_gas random_near_even_split send_all
exec_split fee_cap a s = elim a.balance [
  | none ↦ gave_up
  | some balance ↦
      let n = length s.to in
      let limit = estimate_gas a.estimate in
      let spendable = balance - fee_cap * limit * n in
      if balance == 0 then skipped n else if spendable == 0 then skipped n else elim a.nonce [
        | none ↦ gave_up
        | some nonce ↦
            send_all a.accepted limit nonce 0 s.to (random_near_even_split spendable n a.random)
      ]
]

unfoldable pub exec_sweep : ℕ → Answers → Sweep → Outcome
unfolding estimate_gas
exec_sweep fee_cap a s = elim a.balance [
  | none ↦ gave_up
  | some balance ↦
      let limit = estimate_gas a.estimate in
      let amount = balance - fee_cap * limit in
      if balance == 0 then skipped 1 else if amount == 0 then skipped 1 else elim a.nonce [
        | none ↦ gave_up
        | some nonce ↦
            if a.accepted 0
            then paid_first record { to = s.to; amount = amount; gas_limit = limit; nonce = nonce }
                (skipped 0)
            else gave_up
      ]
]

-- All senders of a hop: the transfers that were counted and whether none failed.
unfoldable pub exec_splits : ℕ → (ℕ → Answers) → List Split → ℕ × Bool
unfolding exec_split
exec_splits fee_cap answer [] = (0, true)
exec_splits fee_cap answer (s ∷ ss) =
    let o = exec_split fee_cap (answer s.from) s in
    let (bumps, clean) = exec_splits fee_cap answer ss in (o.bumps + bumps, not o.broken && clean)

unfoldable pub exec_sweeps : ℕ → (ℕ → Answers) → List Sweep → ℕ × Bool
unfolding exec_sweep
exec_sweeps fee_cap answer [] = (0, true)
exec_sweeps fee_cap answer (s ∷ ss) =
    let o = exec_sweep fee_cap (answer s.from) s in
    let (bumps, clean) = exec_sweeps fee_cap answer ss in (o.bumps + bumps, not o.broken && clean)

-- What the chain answers a hop: the fee cap, or no gas price; the senders; and whether every transfer
-- was confirmed in time.
pub record HopAnswers : Type 0 where
  pub fee_cap : Option ℕ
  pub answer : ℕ → Answers
  pub confirmed : Bool

-- `execFundingHop`: the counted transfers, and whether it returns no error.
unfoldable pub exec_funding_hop : HopAnswers → Hop → ℕ × Bool
unfolding exec_splits exec_sweeps
exec_funding_hop a hop = elim a.fee_cap [
  | none ↦ (0, false)
  | some fee_cap ↦
      let (split_bumps, split_clean) = exec_splits fee_cap a.answer hop.splits in
      let (sweep_bumps, sweep_clean) = exec_sweeps fee_cap a.answer hop.sweeps in
      (split_bumps + sweep_bumps, split_clean && (sweep_clean && a.confirmed))
]
