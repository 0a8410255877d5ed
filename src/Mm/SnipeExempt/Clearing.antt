-- ===== src/Mm/SnipeExempt/Clearing.antt =====
-- When the wallets that pay the opening tax may buy (`snipeTaxCleared` and `filterSnipeExempt` in
-- internal/ponsmm/snipe_exempt.go).
use pons_mm_desktop.Prelude.{
  ℕ, ◌≡◌, ◌≢◌, refl, inl, inr, ◌⊎◌, Bool, true, false, Option, none, some, Bool-cases, Option-cases,
  List, [], ◌∷◌, ◌==◌, if◌then◌else◌, ==_iff, arith,
}
use pons_mm_desktop.Prelude.Int.{ℤ, pos, ◌≤ℤ◌}
use pons_mm_desktop.Mm.Wallets.{Wallet}
use pons_mm_desktop.Mm.SnipeExempt.{
  is_snipe_exempt, filter_snipe_exempt, sample, snipe_tax_cleared, snipe_tax_buy_limit_bps,
}

-- The buyers that `accumulateStep` is left with.
abbrev pub buyers : Option (List ℕ) → Bool → List Wallet → List Wallet
buyers exempt cleared eligible = if cleared then eligible else filter_snipe_exempt exempt eligible

abbrev pub AllExempt : Option (List ℕ) → List Wallet → Type 0
AllExempt exempt [] = Unit
AllExempt exempt (w ∷ ws) = (is_snipe_exempt exempt w.addr ≡ true) × AllExempt exempt ws

filter_snipe_exempt-AllExempt :
    (exempt : List ℕ) (ws : List Wallet)
    → AllExempt (some exempt) (filter_snipe_exempt (some exempt) ws)
unfolding filter_snipe_exempt
filter_snipe_exempt-AllExempt exempt [] = tt
filter_snipe_exempt-AllExempt exempt (w ∷ ws) =
    ground (arith, filter_snipe_exempt-AllExempt exempt ws)

-- No address in use is the zero address.
abbrev pub Addressed : List Wallet → Type 0
Addressed [] = Unit
Addressed (w ∷ ws) = (w.addr ≢ 0) × Addressed ws

sample-AllExempt :
    (exempt : Option (List ℕ)) (ws : List Wallet)
    → Addressed ws
    → sample exempt ws ≡ 0
    → AllExempt exempt ws
unfolding sample
sample-AllExempt exempt [] a h = tt
sample-AllExempt exempt (w ∷ ws) a h = ground (arith, sample-AllExempt exempt ws)

-- While the flag was not yet open, makers that pay the tax get to buy only if there are no such
-- makers, or the chain reported a tax of at most 1% for one of them; otherwise every buyer of the
-- round is tax-free.
pub snipe_tax_cleared-AllExempt :
    (exempt : List ℕ) (makers eligible : List Wallet) (pool_addr : ℕ) (tax : ℕ → Option ℤ)
    → Addressed makers
    → let (cleared, tax_open) = snipe_tax_cleared (some exempt) false makers pool_addr tax in
      AllExempt (some exempt) (buyers (some exempt) cleared eligible)
      ⊎ AllExempt (some exempt) makers
      ⊎ ((bps : ℤ) × (tax (sample (some exempt) makers) ≡ some bps)
          × (bps ≤ℤ pos snipe_tax_buy_limit_bps))
unfolding snipe_tax_cleared
snipe_tax_cleared-AllExempt exempt makers eligible pool_addr tax a =
    let who = sample (some exempt) makers in
    elim (Bool-cases (snipe_tax_cleared (some exempt) false makers pool_addr tax).0) [
      | inr refused ↦ inl (rw refused (filter_snipe_exempt-AllExempt exempt eligible))
      | inl cleared ↦ elim (Bool-cases (who == 0)) [
        | inl nobody ↦ inr (inl (sample-AllExempt (some exempt) makers a ((==_iff who 0).0 nobody)))
        | inr somebody ↦ elim (Option-cases (tax who)) [
          | inl e ↦ absurd (ground arith)
          | inr (bps, e) ↦ inr (inr (bps, e, ground arith))
        ]
      ]
    ]

-- Once the tax is cleared the flag stays open and the chain is not asked again: every later call
-- answers yes.
pub snipe_tax_cleared-stays :
    (exempt : Option (List ℕ)) (tax_open : Bool) (makers later : List Wallet) (pool_addr pool' : ℕ)
    (tax tax' : ℕ → Option ℤ)
    → (snipe_tax_cleared exempt tax_open makers pool_addr tax).0 ≡ true
    → (snipe_tax_cleared exempt
        (snipe_tax_cleared exempt tax_open makers pool_addr tax).1
        later
        pool'
        tax').0
      ≡ true
unfolding snipe_tax_cleared
snipe_tax_cleared-stays none tax_open makers later pool_addr pool' tax tax' h = refl
snipe_tax_cleared-stays (some exempt) tax_open makers later pool_addr pool' tax tax' h =
    ground arith
