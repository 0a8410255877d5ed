-- ===== src/Mm/Sweep/Funding.antt =====
-- What `Fund` of internal/ponsmm/wallets.go broadcasts.
use pons_mm_desktop.Prelude.{
  ℕ, ◌+◌, ◌-◌, ◌≡◌, refl, ◌⊎◌, inr, Bool, true, false, List, [], ◌∷◌, leb, if◌then◌else◌, arith,
}
use pons_mm_desktop.Mm.Wallets.{Wallet, accepted, refused}
use pons_mm_desktop.Mm.Sweep.{Transfer, Answer, answered, not_built, fund, fund_one}

-- What should be sent: every maker below the target gets its shortfall, under consecutive nonces.
abbrev pub topups : ℕ → ℕ → List Wallet → List Transfer
topups per_wallet nonce [] = []
topups per_wallet nonce (w ∷ ws) =
    let skipped = topups per_wallet nonce ws in
    let rest = topups per_wallet (nonce + 1) ws in
    if leb per_wallet w.eth_wei
    then skipped
    else record { nonce = nonce; to = w.addr; value = per_wallet - w.eth_wei } ∷ rest

-- The transfers that were sent are an initial part of those that should be, and all if `done`.
abbrev pub IsPart : List Transfer → List Transfer → Bool → Type 0
IsPart [] all done = (done ≡ false) ⊎ (all ≡ [])
IsPart (x ∷ sent) [] done = ⊥
IsPart (x ∷ sent) (y ∷ all) done = (x ≡ y) × IsPart sent all done

-- One round of the loop, by what happens to its transfer.
module _ (answers : ℕ → Answer) (per_wallet : ℕ) (treasury w : Wallet) (ws : List Wallet) where
  abbrev Part : Wallet → List Wallet → Type 0
  Part t makers =
      let (last, sent, done) = fund answers per_wallet t makers in
      IsPart sent (topups per_wallet t.nonce makers) done

  fund_step :
      (a : Answer)
      → answers w.addr ≡ a
      → Part treasury ws
      → Part (fund_one a w.addr (per_wallet - w.eth_wei) treasury).0 ws
      → Part treasury (w ∷ ws)
  unfolding fund
  fund_step not_built e skip more = ground arith
  fund_step (answered (refused n) confirmed) e skip more = ground arith
  fund_step (answered accepted true) e skip more = ground arith
  fund_step (answered accepted false) e skip more = ground arith

-- What `Fund` broadcasts is an initial part of the top-ups, in order, each maker below the target
-- being sent exactly its shortfall and the nonces counting up from the treasury's; it is all of them
-- if `Fund` returns no error.
pub fund-IsPart :
    (answers : ℕ → Answer) (per_wallet : ℕ) (treasury : Wallet) (makers : List Wallet)
    → let (last, sent, done) = fund answers per_wallet treasury makers in
      IsPart sent (topups per_wallet treasury.nonce makers) done
unfolding fund
fund-IsPart answers per_wallet treasury [] = inr refl
fund-IsPart answers per_wallet treasury (w ∷ ws) =
    let next = (fund_one (answers w.addr) w.addr (per_wallet - w.eth_wei) treasury).0 in
    fund_step answers per_wallet treasury w ws (answers w.addr) refl
      (fund-IsPart answers per_wallet treasury ws) (fund-IsPart answers per_wallet next ws)
