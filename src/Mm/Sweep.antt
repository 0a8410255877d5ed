-- ===== src/Mm/Sweep.antt =====
-- `Fund` and `CollectETH` of internal/ponsmm/wallets.go: transfers between the treasury and the
-- makers. Balances are those of the `RefreshETH` that both begin with.
pub mod Funding
pub mod Collecting
use pons_mm_desktop.Prelude.{
  ℕ, ◌+◌, ◌-◌, ◌*◌, Bool, true, false, ◌||◌, List, [], ◌∷◌, ◌++◌, ◌==◌, if◌then◌else◌, leb,
}
use pons_mm_desktop.Mm.Wallets.{Wallet, SendAnswer, accepted, refused, send}

-- A transfer that was broadcast: its sender's nonce, its recipient and its value.
pub record Transfer : Type 0 where
  pub nonce : ℕ
  pub to : ℕ
  pub value : ℕ

-- What happens to one transfer: an error before the broadcast, or the node's answer and, for `Fund`,
-- whether the receipt arrived.
pub data Answer : Type 0 where
  not_built : Answer
  answered : SendAnswer → Bool → Answer

-- One transfer of `Fund`: the treasury afterwards, what was broadcast, and whether the loop goes on.
unfoldable pub fund_one : Answer → ℕ → ℕ → Wallet → Wallet × List Transfer × Bool
unfolding send
fund_one not_built to value treasury = (treasury, [], false)
fund_one (answered (refused n) confirmed) to value treasury =
    ((send (refused n) treasury).0, [], false)
fund_one (answered accepted confirmed) to value treasury = (
  (send accepted treasury).0,
  record { nonce = treasury.nonce; to = to; value = value } ∷ [],
  confirmed,
)

-- The loop of `Fund` over the makers: the treasury tops each up to `per_wallet`, one transfer after
-- the other. `answers` tells what happens to the transfer to an address. The flag is the absence of
-- an error.
unfoldable pub fund : (ℕ → Answer) → ℕ → Wallet → List Wallet → Wallet × List Transfer × Bool
unfolding fund_one
fund answers per_wallet treasury [] = (treasury, [], true)
fund answers per_wallet treasury (w ∷ ws) =
    let skipped = fund answers per_wallet treasury ws in
    let one = fund_one (answers w.addr) w.addr (per_wallet - w.eth_wei) treasury in
    let rest = fund answers per_wallet one.0 ws in
    if leb per_wallet w.eth_wei
    then skipped
    else if one.2
    then (rest.0, one.1 ++ rest.1, rest.2)
    else (one.0, one.1, false)

abbrev pub transfer_gas : ℕ
transfer_gas = 21000

-- The loop of `CollectETH`: the makers afterwards, what was broadcast, and the absence of an error.
-- It does not wait for receipts.
unfoldable pub collect : (ℕ → Answer) → ℕ → ℕ → ℕ → List Wallet → List Wallet × List Transfer × Bool
unfolding send
collect answers treasury gas_reserve fee_cap [] = ([], [], true)
collect answers treasury gas_reserve fee_cap (w ∷ ws) =
    let keep = gas_reserve + fee_cap * transfer_gas in
    let rest = collect answers treasury gas_reserve fee_cap ws in
    let sent : Transfer = record { nonce = w.nonce; to = treasury; value = w.eth_wei - keep } in
    if w.eth_wei == 0 || leb w.eth_wei keep
    then (w ∷ rest.0, rest.1, rest.2)
    else elim (answers w.addr) [
      | not_built ↦ (w ∷ ws, [], false)
      | answered a confirmed ↦ elim a [
        | accepted ↦ ((send accepted w).0 ∷ rest.0, sent ∷ rest.1, rest.2)
        | refused n ↦ ((send (refused n) w).0 ∷ ws, [], false)
      ]
    ]
