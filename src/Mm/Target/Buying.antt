-- ===== src/Mm/Target/Buying.antt =====
-- The buy support of the price-target response (`planTargetResponse` in internal/ponsmm/target.go).
use pons_mm_desktop.Prelude.{
  ℕ, ◌+◌, ◌-◌, ◌≤◌, ◌≡◌, false, List, [], ◌∷◌, ◌==◌, if◌then◌else◌, sum, arith,
}
use pons_mm_desktop.Mm.Target.{plan_spends}

abbrev pub total_spend : List (ℕ × ℕ) → ℕ
total_spend [] = 0
total_spend ((i, s) ∷ ss) = s + total_spend ss

-- Every planned spend is positive and within what its wallet may spend: the wallet at position `i`
-- of the list, whose first wallet has position `first`.
abbrev pub spendable_at : ℕ → ℕ → List ℕ → ℕ
spendable_at i first [] = 0
spendable_at i first (s ∷ ss) = if i == first then s else spendable_at i (first + 1) ss

-- The planned spends and what remains add up to what was needed: no overshoot.
spends-conserve :
    (i remaining : ℕ) (ss : List ℕ)
    → total_spend (plan_spends i remaining ss).0 + (plan_spends i remaining ss).1 ≡ remaining
unfolding plan_spends
spends-conserve i remaining [] = omega arith
spends-conserve i remaining (s ∷ ss) =
    ground (arith, spends-conserve (i + 1) remaining ss, spends-conserve (i + 1) (remaining - s) ss)

-- What remains is exactly what the makers together cannot cover.
spends-rest : (i remaining : ℕ) (ss : List ℕ) → (plan_spends i remaining ss).1 ≡ remaining - sum ss
unfolding plan_spends
spends-rest i remaining [] = omega arith
spends-rest i remaining (s ∷ ss) =
    ground (arith, spends-rest (i + 1) remaining ss, spends-rest (i + 1) (remaining - s) ss)

abbrev pub AllWithin : ℕ → List ℕ → List (ℕ × ℕ) → Type 0
AllWithin first ss [] = Unit
AllWithin first ss ((i, s) ∷ rest) =
    (first ≤ i) × (s ≤ spendable_at i first ss) × AllWithin first ss rest

AllWithin-later :
    (first s : ℕ) (ss : List ℕ) (plan : List (ℕ × ℕ))
    → AllWithin (first + 1) ss plan
    → AllWithin first (s ∷ ss) plan
AllWithin-later first s ss [] h = tt
AllWithin-later first s ss ((i, x) ∷ rest) h =
    let other : (i == first) ≡ false = ground arith in
    (omega arith, rw other h.1, AllWithin-later first s ss rest h.2)

plan-AllWithin : (i remaining : ℕ) (ss : List ℕ) → AllWithin i ss (plan_spends i remaining ss).0
unfolding plan_spends
plan-AllWithin i remaining [] = tt
plan-AllWithin i remaining (s ∷ ss) = ground (
  arith,
  AllWithin-later i s ss (plan_spends (i + 1) remaining ss).0 (plan-AllWithin (i + 1) remaining ss),
  AllWithin-later i s ss (plan_spends (i + 1) (remaining - s) ss).0
      (plan-AllWithin (i + 1) (remaining - s) ss),
)

-- The buy support never overshoots: the spends add up to the needed amount, or to all that the makers
-- may spend if that is less; and no wallet is planned to spend more than it may.
pub plan_spends_lem :
    (needed : ℕ) (spendable : List ℕ)
    → let (plan, rest) = plan_spends 0 needed spendable in
      (total_spend plan + rest ≡ needed)
      × (rest ≡ needed - sum spendable)
      × AllWithin 0 spendable plan
plan_spends_lem needed spendable = (
  spends-conserve 0 needed spendable,
  spends-rest 0 needed spendable,
  plan-AllWithin 0 needed spendable,
)
