-- ===== src/Mm/Bundle/Deposits.antt =====
-- internal/ponsmm/bundle.go: the deposits behind an atomic launch (`ensureDeposits`).
use pons_mm_desktop.Prelude.{
  ℕ, ◌+◌, ◌-◌, ◌≤◌, ◌≡◌, ◌⊎◌, true, false, not, ◌&&◌, some, List, [], ◌∷◌, ◌==◌, ltb,
}
use pons_mm_desktop.Mm.Bundle.{
  BundleBuy, DepositAnswers, DepositOutcome, unreadable, excluded, parked, topped_up,
}

-- What the router holds for the launch covers a buy of `after` that was sized at `before`: a readable
-- deposit, with nothing of it promised to another operator, and `sent`, which is what the deposit
-- lacked or less, and 0 unless a top-up was broadcast and its receipt came without an error.
pub record Backed (operator : ℕ) (a : DepositAnswers) (before after : ℕ) : Type 0 where
  pub have : ℕ
  pub op : ℕ
  pub sent : ℕ
  pub readable : a.deposit ≡ some (have, op)
  pub ours : (ltb 0 have && not (op == operator)) ≡ false
  pub covered : after ≤ have + sent
  pub smaller : after ≤ before
  pub worth : sent ≤ before - have
  pub paid : (sent ≡ 0) ⊎ ((a.sends && a.confirms) ≡ true)

pub OutcomeBacked : ℕ → DepositAnswers → ℕ → DepositOutcome → Type 0
OutcomeBacked operator a before unreadable = Unit {0}
OutcomeBacked operator a before excluded = Unit {0}
OutcomeBacked operator a before (parked after) = Backed operator a before after
OutcomeBacked operator a before (topped_up after need) = Backed operator a before after

-- The kept buys, in the order of the prepared ones, each with its own backing.
pub data KeptFrom (operator : ℕ) (answers : ℕ → DepositAnswers)
    : List BundleBuy → List BundleBuy → Type 0 where
  no_more : KeptFrom operator answers [] []
  dropped :
      (b : BundleBuy) (bs kept : List BundleBuy)
      → KeptFrom operator answers bs kept
      → KeptFrom operator answers (b ∷ bs) kept
  backed :
      (b : BundleBuy) (after : ℕ) (bs kept : List BundleBuy)
      → Backed operator (answers b.wallet.addr) b.spend after
      → KeptFrom operator answers bs kept
      → KeptFrom operator answers (b ∷ bs) (record b { spend = after } ∷ kept)
