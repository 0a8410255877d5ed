-- ===== src/Mm/Target/Selling.antt =====
-- How many wallets a price-target sale takes (`planTargetSellCount` in internal/ponsmm/target.go).
use pons_mm_desktop.Prelude.{
  ℕ, zero, suc, ◌+◌, ◌≤◌, ◌<◌, ◌≡◌, ◌⊎◌, inl, inr, Bool, true, false, Bool-cases, List, [], ◌∷◌,
  ◌==◌, sum, take, arith,
}
use native.Mathlib.Nat.{add-zero, zero-add}
use native.Mathlib.Decide.{dec_lt}
use pons_mm_desktop.Mm.Target.{plan_from, plan_target_sell_count, reserves_after_sell}

module _ (meets : ℕ → ℕ → Bool) (q t : ℕ) where
  -- Whether the price is at or below the target after `tokens` are sold.
  abbrev pub reached_by : ℕ → Bool
  reached_by tokens = let after = reserves_after_sell q t tokens in meets after.0 after.1

  plan_from-reached :
      (i count total : ℕ) (bs : List ℕ)
      → (plan_from meets q t i count total bs).2 ≡ true
      → (k : ℕ) × ((plan_from meets q t i count total bs).0 ≡ i + suc k)
        × ((plan_from meets q t i count total bs).1 ≡ total + sum (take (suc k) bs))
        × (reached_by (plan_from meets q t i count total bs).1 ≡ true)
  unfolding plan_from
  plan_from-reached i count total [] h = cc
  plan_from-reached i count total (b ∷ bs) h = elim (Bool-cases (b == 0)) [
    | inl z ↦
        let (k, c, s, r) = plan_from-reached (i + 1) count total bs (ground arith) in
        (suc k, ground arith, ground arith, rw z r)
    | inr p ↦ elim (Bool-cases (reached_by (total + b))) [
      | inl m ↦ (0, ground arith, ground arith, rw (p, m) m)
      | inr n ↦
          let (k, c, s, r) = plan_from-reached (i + 1) (i + 1) (total + b) bs (ground arith) in
          (suc k, ground arith, ground arith, rw (p, n) r)
    ]
  ]

  plan_from-unreached :
      (i count total : ℕ) (bs : List ℕ)
      → (plan_from meets q t i count total bs).2 ≡ false
      → (plan_from meets q t i count total bs).1 ≡ total + sum bs
  unfolding plan_from
  plan_from-unreached i count total [] h = omega arith
  plan_from-unreached i count total (b ∷ bs) h = ground (
    arith,
    plan_from-unreached (i + 1) count total bs,
    plan_from-unreached (i + 1) (i + 1) (total + b) bs,
  )

  plan_from-minimal :
      (i count total : ℕ) (bs : List ℕ) (j : ℕ)
      → (0 < total → reached_by total ≡ false)
      → ((plan_from meets q t i count total bs).2 ≡ false)
        ⊎ (i + j < (plan_from meets q t i count total bs).0)
      → 0 < total + sum (take j bs)
      → reached_by (total + sum (take j bs)) ≡ false
  unfolding plan_from
  plan_from-minimal i count total bs zero u h p = rw add-zero (u (omega arith))
  plan_from-minimal i count total [] (suc j) u h p = rw add-zero (u (omega arith))
  plan_from-minimal i count total (b ∷ bs) (suc j) u h p = elim (Bool-cases (b == 0)) [
    | inl z ↦
        let none_added : total + (b + sum (take j bs)) ≡ total + sum (take j bs) = ground arith in
        rw none_added (plan_from-minimal (i + 1) count total bs j u (ground arith) (omega arith))
    | inr n ↦ elim (Bool-cases (reached_by (total + b))) [
      | inl m ↦ absurd (ground arith)
      | inr m ↦
          let regroup : total + (b + sum (take j bs)) ≡ total + b + sum (take j bs) = omega arith in
          rw regroup (
            plan_from-minimal (i + 1) (i + 1) (total + b) bs j (λ e. m) (ground arith)
              (omega arith))
    ]
  ]

  -- If the plan reaches the target, it sells the whole balances of the first `count` wallets, this
  -- total reaches the target, and no smaller number of wallets that holds something does.
  pub plan_target_sell_count-reached :
      (bs : List ℕ) (fewer : ℕ)
      → (plan_target_sell_count meets q t bs).2 ≡ true
      → let (count, sold, reached) = plan_target_sell_count meets q t bs in
        (sold ≡ sum (take count bs))
        × (reached_by sold ≡ true)
        × ((count ≤ fewer) ⊎ (sum (take fewer bs) ≡ 0) ⊎ (reached_by (sum (take fewer bs)) ≡ false))
  unfolding plan_target_sell_count
  plan_target_sell_count-reached bs fewer h =
      let (k, c, s, r) = plan_from-reached 0 0 0 bs h in
      let same : (plan_from meets q t 0 0 0 bs).0 ≡ suc k = omega arith in
      (
        rw (same, s) (omega arith),
        r,
        elim (dec_lt fewer (plan_from meets q t 0 0 0 bs).0) [
          | no more ↦ inl (omega arith)
          | yes less ↦ elim (dec_lt 0 (sum (take fewer bs))) [
            | no empty ↦ inr (inl (omega arith))
            | yes some_held ↦ inr (
                inr (
                  rw zero-add at (
                    plan_from-minimal 0 0 0 bs fewer (λ e. absurd (omega arith)) (inr (omega arith))
                      (omega arith))))
          ]
        ],
      )

  -- If the plan does not reach the target, it sells everything, and no number of wallets that holds
  -- something reaches the target.
  pub plan_target_sell_count-unreached :
      (bs : List ℕ) (fewer : ℕ)
      → (plan_target_sell_count meets q t bs).2 ≡ false
      → 0 < sum (take fewer bs)
      → ((plan_target_sell_count meets q t bs).1 ≡ sum bs)
        × (reached_by (sum (take fewer bs)) ≡ false)
  unfolding plan_target_sell_count
  plan_target_sell_count-unreached bs fewer h p = (
    omega (arith, plan_from-unreached 0 0 0 bs h),
    rw zero-add at
        (plan_from-minimal 0 0 0 bs fewer (λ e. absurd (omega arith)) (inl h) (omega arith)),
  )
