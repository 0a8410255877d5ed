-- ===== src/Mm/Sweep/Collecting.antt =====
-- What `CollectETH` of internal/ponsmm/wallets.go broadcasts.
use pons_mm_desktop.Prelude.{
  ℕ, ◌+◌, ◌-◌, ◌*◌, ◌≡◌, refl, inr, List, [], ◌∷◌, leb, if◌then◌else◌, arith,
}
use pons_mm_desktop.Mm.Wallets.{Wallet, accepted, refused}
use pons_mm_desktop.Mm.Sweep.{Transfer, Answer, answered, not_built, collect, transfer_gas}
use pons_mm_desktop.Mm.Sweep.Funding.{IsPart}

-- What should be sent: every maker with more than `keep` sends all but `keep` to the treasury.
abbrev pub sweeps : ℕ → ℕ → List Wallet → List Transfer
sweeps treasury keep [] = []
sweeps treasury keep (w ∷ ws) =
    let rest = sweeps treasury keep ws in
    if leb w.eth_wei keep
    then rest
    else record { nonce = w.nonce; to = treasury; value = w.eth_wei - keep } ∷ rest

module _ (answers : ℕ → Answer) (treasury gas_reserve fee_cap : ℕ) where
  abbrev Part : List Wallet → Type 0
  Part makers =
      let (after, sent, done) = collect answers treasury gas_reserve fee_cap makers in
      IsPart sent (sweeps treasury (gas_reserve + fee_cap * transfer_gas) makers) done

  collect_step :
      (w : Wallet) (ws : List Wallet) (a : Answer) → answers w.addr ≡ a → Part ws → Part (w ∷ ws)
  unfolding collect
  collect_step w ws not_built e rest = ground arith
  collect_step w ws (answered (refused n) confirmed) e rest = ground arith
  collect_step w ws (answered accepted confirmed) e rest = ground arith

  -- What `CollectETH` broadcasts is an initial part of the sweeps, in order, and all of them if it
  -- returns no error: a maker sends exactly what it has beyond the gas reserve and the cost of its
  -- own transfer, and a maker that has no more than these sends nothing.
  pub collect-IsPart :
      (makers : List Wallet)
      → let (after, sent, done) = collect answers treasury gas_reserve fee_cap makers in
        IsPart sent (sweeps treasury (gas_reserve + fee_cap * transfer_gas) makers) done
  unfolding collect
  collect-IsPart [] = inr refl
  collect-IsPart (w ∷ ws) = collect_step w ws (answers w.addr) refl (collect-IsPart ws)
