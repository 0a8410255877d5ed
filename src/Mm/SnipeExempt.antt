-- ===== src/Mm/SnipeExempt.antt =====
-- internal/ponsmm/snipe_exempt.go: which makers are registered as free of the opening snipe tax, and
-- when the others may buy. The map `exempt` is the list of its keys.
pub mod Selection
pub mod Clearing
use pons_mm_desktop.Prelude.{
  ℕ, Bool, true, false, ◌||◌, not, Option, none, some, List, [], ◌∷◌, ◌++◌, ◌==◌, if◌then◌else◌,
  leb, length, elem, keep,
}
use pons_mm_desktop.Prelude.Int.{ℤ, pos, leb_ℤ}
use pons_mm_desktop.Mm.Wallets.{Wallet}

abbrev pub max_factory_snipe_exemptions : ℕ
max_factory_snipe_exemptions = 32

abbrev pub snipe_tax_buy_limit_bps : ℕ
snipe_tax_buy_limit_bps = 100

abbrev pub snipe_exemption_cap : Bool → ℕ
snipe_exemption_cap initial_buy = if initial_buy then 31 else max_factory_snipe_exemptions

-- The loop over the makers, with the list and the exempt set so far.
unfoldable pub select_makers : ℕ → List ℕ → List ℕ → List ℕ → List ℕ × List ℕ
select_makers cap list exempt [] = (list, exempt)
select_makers cap list exempt (a ∷ rest) =
    let passed = select_makers cap list exempt rest in
    let taken = select_makers cap (list ++ a ∷ []) (a ∷ exempt) rest in
    if leb cap (length list) then passed else taken

unfoldable pub select_snipe_exemptions : ℕ → ℕ → List ℕ → Bool → List ℕ × List ℕ
unfolding select_makers
select_snipe_exemptions treasury deployer makers initial_buy =
    select_makers (snipe_exemption_cap initial_buy)
      (if deployer == treasury then [] else treasury ∷ []) (treasury ∷ []) makers

-- `none` is the nil map of an engine that bound an existing token: every wallet may buy.
unfoldable pub is_snipe_exempt : Option (List ℕ) → ℕ → Bool
is_snipe_exempt none addr = true
is_snipe_exempt (some exempt) addr = elem addr exempt

unfoldable pub filter_snipe_exempt : Option (List ℕ) → List Wallet → List Wallet
unfolding is_snipe_exempt
filter_snipe_exempt none wallets = wallets
filter_snipe_exempt (some exempt) wallets =
    keep (λ (w : Wallet). is_snipe_exempt (some exempt) w.addr) wallets

-- The first maker that is not exempt, or address 0.
unfoldable pub sample : Option (List ℕ) → List Wallet → ℕ
sample exempt [] = 0
sample exempt (w ∷ ws) =
    let rest = sample exempt ws in if is_snipe_exempt exempt w.addr then rest else w.addr

-- `snipeTaxCleared`: the answer, and the flag `snipeTaxOpen` afterwards. `tax` is the answer of the
-- chain for the sampled wallet, `none` an error.
unfoldable pub snipe_tax_cleared :
    Option (List ℕ) → Bool → List Wallet → ℕ → (ℕ → Option ℤ) → Bool × Bool
unfolding sample
snipe_tax_cleared none tax_open makers pool_addr tax = (true, tax_open)
snipe_tax_cleared (some exempt) tax_open makers pool_addr tax =
    let who = sample (some exempt) makers in
    if tax_open
    then (true, true)
    else if who == 0
    then (true, true)
    else if pool_addr == 0
    then (false, false)
    else elim (tax who) [
      | none ↦ (false, false)
      | some bps ↦ if leb_ℤ bps (pos snipe_tax_buy_limit_bps) then (true, true) else (false, false)
    ]
