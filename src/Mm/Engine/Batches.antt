-- ===== src/Mm/Engine/Batches.antt =====
-- The batches of a distribution (`distributionWalletBatch` and the rounds around it in
-- internal/ponsmm/engine.go).
pub mod Draining
use native.Mathlib.Nat.{mod-lt}
use pons_mm_desktop.Prelude.{
  ℕ, suc, zero, ◌+◌, ◌-◌, ◌%◌, ◌≤◌, ◌<◌, ◌≡◌, ◌⊎◌, refl, inl, inr, Bool, true, false, not,
  Bool-cases, Option, none, some, List, [], ◌∷◌, ◌++◌, ◌==◌, if◌then◌else◌, length, take, drop,
  elem, keep, map, arith,
}
use pons_mm_desktop.Mm.Wallets.{Wallet}
use pons_mm_desktop.Mm.Engine.{Engine, distribution_wallet_batch, holding, drawn_size}

-- No batch was drawn yet, or its size is within the limits.
abbrev pub IsSized : Engine → Type 0
IsSized e = (e.batch_size ≡ 0) ⊎ ((4 ≤ e.batch_size) × (e.batch_size ≤ 6))

-- A prefix has the length that is asked for, or is the whole list.
take-cases :
    (n : ℕ) (ws : List Wallet) → (length (take n ws) ≡ n) ⊎ ((take n ws ≡ ws) × (length ws ≤ n))
take-cases zero ws = inl refl
take-cases (suc n) [] = inr (refl, omega arith)
take-cases (suc n) (w ∷ ws) = ground (arith, take-cases n ws)

take-length : (n : ℕ) (ws : List Wallet) → take (length (take n ws)) ws ≡ take n ws
take-length zero ws = refl
take-length (suc n) [] = refl
take-length (suc n) (w ∷ ws) = cc (take-length n ws)

-- A batch is the first wallets of those that hold something, in order: from 4 to 6 of them, or all of
-- them if there are fewer; and the size that was drawn stays for the next batch.
pub distribution_wallet_batch_lem :
    (draw : ℕ) (e : Engine)
    → IsSized e
    → let (chosen, e') = distribution_wallet_batch draw e in
      (take (length chosen) (holding e.wallets) ≡ chosen)
      × (length chosen ≤ 6)
      × ((4 ≤ length chosen) ⊎ (chosen ≡ holding e.wallets))
      × IsSized e'
      × ((e.batch_size ≡ 0) ⊎ (e'.batch_size ≡ e.batch_size))
unfolding distribution_wallet_batch
distribution_wallet_batch_lem draw e v =
    let held = holding e.wallets in
    let size = drawn_size draw e.batch_size in
    ground (arith, take-cases size held, take-length size held, mod-lt draw {m = 3} (omega arith))
