-- ===== src/Mm/Bundle/Settling/Atomic.antt =====
-- What an atomic launch books (`settleAtomicBuys` in internal/ponsmm/bundle.go, with `RecordOurBuy` of
-- internal/ponsmm/monitor.go).
use pons_mm_desktop.Prelude.{
  ℕ, ◌+◌, ◌≤◌, ◌≡◌, false, Option, none, some, List, [], ◌∷◌, elem, if◌then◌else◌, map,
}
use pons_mm_desktop.Pons.Events.{RoutedBuy}
use pons_mm_desktop.Mm.Monitor.{Monitor}
use pons_mm_desktop.Mm.Bundle.{BundleBuy}
use pons_mm_desktop.Mm.Bundle.Settling.{fill_for}

abbrev pub Distinct : List ℕ → Type 0
Distinct [] = Unit
Distinct (a ∷ addrs) = (elem a addrs ≡ false) × Distinct addrs

abbrev pub maker_addrs : List BundleBuy → List ℕ
maker_addrs bs = map (λ b. b.wallet.addr) bs

abbrev pub held_by_makers : List BundleBuy → ℕ
held_by_makers [] = 0
held_by_makers (b ∷ bs) = b.wallet.token_raw + held_by_makers bs

abbrev pub recipients : List RoutedBuy → List ℕ
recipients rbs = map (λ rb. rb.recipient) rbs

abbrev pub AllRefundsWithin : List RoutedBuy → Type 0
AllRefundsWithin [] = Unit
AllRefundsWithin (rb ∷ rbs) = (rb.refunded ≤ rb.quote_in) × AllRefundsWithin rbs

-- The sum of an amount over the routed buys that are for one of these wallets.
abbrev pub sum_to : (RoutedBuy → ℕ) → List ℕ → List RoutedBuy → ℕ
sum_to amount addrs [] = 0
sum_to amount addrs (rb ∷ rbs) =
    (if elem rb.recipient addrs then amount rb else 0) + sum_to amount addrs rbs

abbrev amount_for : (RoutedBuy → ℕ) → Option RoutedBuy → ℕ
amount_for amount none = 0
amount_for amount (some rb) = amount rb

-- The same sum over the wallets, by the map `byWallet`.
abbrev booked_for : (RoutedBuy → ℕ) → List ℕ → List RoutedBuy → ℕ
booked_for amount [] rbs = 0
booked_for amount (a ∷ addrs) rbs = amount_for amount (fill_for a rbs) + booked_for amount addrs rbs
