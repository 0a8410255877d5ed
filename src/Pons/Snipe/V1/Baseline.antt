-- ===== src/Pons/Snipe/V1/Baseline.antt =====
-- The stop of a v1 position against its value at entry (`autoExitV1` in internal/pons/v1_snipe.go).
use pons_mm_desktop.Prelude.{
  ℕ, ◌-◌, ◌≤◌, ◌<◌, ◌≢◌, inl, inr, Option, some, arith, ◌==◌, Bool-cases, mul-div-lt_self,
}
use pons_mm_desktop.Pons.Snipe.{scale_frac}
use pons_mm_desktop.Pons.Snipe.Exit.{stop_loss, judge, one_million}
use pons_mm_desktop.Pons.Snipe.V1.{stop_base, watch_position_v1, evaluate_v1}

scale_frac-lt :
    (x stop_frac : ℕ) → 0 < x → 0 < stop_frac → scale_frac x (one_million - stop_frac) < x
unfolding scale_frac
scale_frac-lt x stop_frac p q =
    mul-div-lt_self x (one_million - stop_frac) one_million (omega arith) p

stop_base-bounds :
    (cost value : ℕ)
    → 0 < cost
    → 0 < value
    → (stop_base cost (some value) ≤ value) × (0 < stop_base cost (some value))
unfolding stop_base
stop_base-bounds cost value p q = ground arith

-- A position whose value is read as positive at its entry, with a positive cost, is not sold by the stop
-- at that value or above, whatever the fraction in whole millionths and however far the value lies below
-- the cost.
pub evaluate_v1-held :
    (tokens cost profit_target stop_frac follow entry value : ℕ) (dev_balance : Option ℕ)
    → 0 < cost
    → 0 < entry
    → entry ≤ value
    → evaluate_v1
        (watch_position_v1 tokens cost profit_target stop_frac follow (some entry) dev_balance)
        (some value)
      ≢ some stop_loss
unfolding evaluate_v1 watch_position_v1 judge
evaluate_v1-held tokens cost profit_target stop_frac follow entry value dev_balance p q r h =
    let base = stop_base cost (some entry) in
    let (low, positive) = stop_base-bounds cost entry p q in
    elim (Bool-cases (stop_frac == 0)) [
      | inl z ↦ ground arith
      | inr z ↦ let below = scale_frac-lt base stop_frac positive (ground arith) in ground arith
    ]
