-- ===== src/Mm/Launch/Preflight.antt =====
-- What a launch that is broadcast was checked against (`launchV2` in internal/ponsmm/engine.go).
use mathlib.Core.Path.{subst}
use pons_mm_desktop.Prelude.{
  ℕ, ◌+◌, ◌*◌, ◌≤◌, ◌<◌, ◌≡◌, refl, ap, ◌∙◌, Bool, true, false, not, Option, none, some, List, [],
  ◌==◌, ltb, length, arith,
}
use pons_mm_desktop.Prelude.Result.{Result, ok, err, ◌>>=◌, ◌>>◌}
use pons_mm_desktop.Mm.Bundle.{BundleMode, BundleBuy}
use pons_mm_desktop.Mm.Launch.{
  LaunchError, read, demand, ensure_launch_funds, LaunchSettings, PreflightAnswers, LaunchPlan,
  bundled_buys, plan_of, preflight, SendAnswers, broadcast_launch, underfunded, can_unread,
  not_allowed, fee_unread, config_unread, config_disabled, no_economics, not_built, not_refreshed,
  not_prepared, no_buys,
}

read-ok :
    {A B : Type 0} (o : Option A) (e : LaunchError) (k : A → Result LaunchError B) (b : B)
    → read o e >>= k ≡ ok b
    → (a : A) × (o ≡ some a) × (k a ≡ ok b)
read-ok none e k b h = absurd (ground (arith, h))
read-ok (some a) e k b h = (a, refl, h)

demand-ok :
    {B : Type 0} (t : Bool) (e : LaunchError) (k : Result LaunchError B) (b : B)
    → demand t e >> k ≡ ok b
    → (t ≡ true) × (k ≡ ok b)
demand-ok true e k b h = (refl, h)
demand-ok false e k b h = absurd (ground (arith, h))

-- The treasury covers the value and the gas at the fee cap.
abbrev pub Covered : PreflightAnswers → LaunchPlan → Type 0
Covered a plan =
    (held : ℕ) × (cap : ℕ) × (a.balance ≡ some held)
    × (a.fee_cap ≡ some cap)
    × (cap * plan.gas_limit + plan.value ≤ held)

then-ok_funds :
    (balance fee_cap : Option ℕ) (value gas_limit : ℕ) (k : Result LaunchError LaunchPlan)
    (plan : LaunchPlan)
    → ensure_launch_funds balance fee_cap value gas_limit >> k ≡ ok plan
    → ((held : ℕ) × (cap : ℕ) × (balance ≡ some held)
        × (fee_cap ≡ some cap)
        × (cap * gas_limit + value ≤ held))
      × (k ≡ ok plan)
unfolding ensure_launch_funds
then-ok_funds none fee_cap value gas_limit k plan h = absurd (ground (arith, h))
then-ok_funds (some held) none value gas_limit k plan h = absurd (ground (arith, h))
then-ok_funds (some held) (some cap) value gas_limit k plan h =
    let (enough, next) =
      demand-ok (not (ltb held (cap * gas_limit + value))) underfunded k plan h in
    ((held, cap, refl, refl, ground arith), next)

-- Without a bundle there are no buys; with one there is at least one.
abbrev pub Bundled : Option BundleMode → PreflightAnswers → List BundleBuy → Type 0
Bundled none a buys = buys ≡ []
Bundled (some mode) a buys = (a.prepared ≡ some buys) × (0 < length buys)

-- What the checks before the dry run establish.
abbrev pub Checked : LaunchSettings → PreflightAnswers → LaunchPlan → Type 0
Checked c a plan =
    (a.can_launch ≡ some true)
    × (a.enabled ≡ some true)
    × (a.launch_fee ≡ some plan.fee)
    × (plan.value ≡ plan.fee + c.dev_buy)
    × Bundled c.bundle a plan.buys
    × Covered a plan

bind-ok :
    {A B : Type 0} (m : Result LaunchError A) (k : A → Result LaunchError B) (b : B)
    → m >>= k ≡ ok b
    → (a : A) × (m ≡ ok a) × (k a ≡ ok b)
bind-ok (ok a) k b h = (a, refl, h)
bind-ok (err e) k b h = absurd (ground (arith, h))

bundled_buys-Bundled :
    (mode : Option BundleMode) (a : PreflightAnswers) (buys : List BundleBuy)
    → bundled_buys mode a ≡ ok buys
    → Bundled mode a buys
unfolding bundled_buys
bundled_buys-Bundled none a buys h = ground arith
bundled_buys-Bundled (some mode) a buys h =
    let (fresh, h1) = demand-ok a.refreshed not_refreshed _ buys h in
    let (found, e, h2) = read-ok a.prepared not_prepared _ buys h1 in
    let (many, h3) = demand-ok (not (length found == 0)) no_buys _ buys h2 in
    let same : found ≡ buys = ground (arith, h3) in
    subst (Bundled (some mode) a) same (e, ground (arith, many))

preflight-Checked :
    (c : LaunchSettings) (a : PreflightAnswers) (plan : LaunchPlan)
    → preflight c a ≡ ok plan
    → Checked c a plan
unfolding preflight
preflight-Checked c a plan h =
    let (can, e1, h1) = read-ok a.can_launch can_unread _ plan h in
    let (allowed, h2) = demand-ok can not_allowed _ plan h1 in
    let (fee, e2, h3) = read-ok a.launch_fee fee_unread _ plan h2 in
    let (enabled, e3, h4) = read-ok a.enabled config_unread _ plan h3 in
    let (on, h5) = demand-ok enabled config_disabled _ plan h4 in
    let (priced, h6) = demand-ok a.economics no_economics _ plan h5 in
    let (buys, e4, h7) = bind-ok (bundled_buys c.bundle a) _ plan h6 in
    let (built, h8) = demand-ok a.builds not_built _ plan h7 in
    let (covered, h9) = then-ok_funds a.balance a.fee_cap _ _ _ plan h8 in
    let same : plan_of c a fee buys ≡ plan = ground (arith, h9) in
    subst (Checked c a) same (
      e1 ∙ ap some allowed,
      e3 ∙ ap some on,
      e2,
      refl,
      bundled_buys-Bundled c.bundle a buys e4,
      covered,
    )

-- Where the checks before a launch pass and the launch is broadcast, it is no dry run; the protocol
-- lets the deployer launch and the configuration is enabled; the value is the fee that was read and the
-- creator's own buy; a bundle had at least one buy when it was prepared, and without a bundle there are
-- none; and the treasury's balance covers this value and the planned gas at the fee cap that was read.
pub broadcast_launch-Checked :
    (c : LaunchSettings) (a : PreflightAnswers) (plan : LaunchPlan) (s : SendAnswers)
    (buys : List BundleBuy)
    → preflight c a ≡ ok plan
    → broadcast_launch c plan s ≡ some (ok buys)
    → (c.dry_run ≡ false) × Checked c a plan
unfolding broadcast_launch
broadcast_launch-Checked c a plan s buys h b = (ground (arith, b), preflight-Checked c a plan h)
