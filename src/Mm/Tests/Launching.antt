-- ===== src/Mm/Tests/Launching.antt =====
-- The launch transaction and the sell approvals, at concrete inputs.
use pons_mm_desktop.Prelude.{
  ◌≡◌, ◌≢◌, ◌≤◌, ◌+◌, ◌⊎◌, refl, Bool, true, false, none, some, List, [], ◌∷◌,
}
use pons_mm_desktop.Prelude.Result.{ok}
use pons_mm_desktop.Pons.Snipe.{Look}
use pons_mm_desktop.Pons.Client.{wait_receipt_every, mined_with}
use pons_mm_desktop.Mm.Wallets.{Wallet}
use pons_mm_desktop.Mm.Bundle.{atomic, BundleBuy, launch_gas}
use pons_mm_desktop.Mm.Launch.{
  LaunchSettings, PreflightAnswers, SendAnswers, LaunchPlan, preflight, broadcast_launch,
  bundled_buys, ensure_launch_funds, confirm_launch,
}
use pons_mm_desktop.Mm.Launch.Preflight.{Checked, broadcast_launch-Checked}
use pons_mm_desktop.Mm.Launch.Confirming.{Ended, confirm_launch-Ended}
use pons_mm_desktop.Mm.Approvals.{
  Approval, building, published, no_approval, take_tx_mu, send_approval, Reach, start, step, takes,
  sends,
}
use pons_mm_desktop.Mm.Approvals.Single.{Reach-Single}

abbrev maker : Wallet
maker = record { addr = 11; eth_wei = 500; token_raw = 0; nonce = 3 }

abbrev buys : List BundleBuy
buys = record { wallet = maker; spend = 400 } ∷ []

abbrev settings : LaunchSettings
settings = record { dev_buy = 50; bundle = some atomic; dry_run = false }

abbrev answers : PreflightAnswers
answers = record {
  can_launch = some true;
  launch_fee = some 10;
  enabled = some true;
  economics = true;
  refreshed = true;
  prepared = some buys;
  builds = true;
  estimate = none;
  balance = some 20000000;
  fee_cap = some 2;
}

abbrev plan : LaunchPlan
plan = record { fee = 10; value = 60; gas_limit = 6900000; buys = buys }

planned : preflight settings answers ≡ ok plan
unfolding preflight bundled_buys ensure_launch_funds launch_gas
planned = refl

abbrev sending : SendAnswers
sending = record { refreshed = true; deposits = ok buys; builds = true; params = true; sent = true }

broadcast : broadcast_launch settings plan sending ≡ some (ok buys)
unfolding broadcast_launch
broadcast = refl

broadcast_launch-Checked_example : (settings.dry_run ≡ false) × Checked settings answers plan
broadcast_launch-Checked_example =
    broadcast_launch-Checked settings answers plan sending buys planned broadcast

-- The second round finds the receipt of a reverted launch.
abbrev looks : List (Look Bool)
looks =
    record { reading = none; late = false; done = false }
    ∷ record { reading = some false; late = false; done = false }
    ∷ []

waited : wait_receipt_every looks ≡ some (mined_with false)
unfolding wait_receipt_every
waited = refl

confirm_launch-Ended_example :
    Ended (some atomic) looks none (confirm_launch (some atomic) (mined_with false) none)
confirm_launch-Ended_example =
    confirm_launch-Ended (some atomic) looks (mined_with false) none waited

-- A first call is about to set the flag, while a second waits for the lock.
abbrev taken : Approval
taken = take_tx_mu no_approval

abbrev one_sent : Approval
one_sent = send_approval true taken

sent-Reach : Reach one_sent
unfolding take_tx_mu
sent-Reach = step taken one_sent (step no_approval taken start (takes refl)) (sends true refl)

Reach-Single_example :
    (one_sent.waiting ≤ 1)
    × ((one_sent.waiting ≡ 0)
        ⊎ ((one_sent.submitted ≡ true)
            × (one_sent.tx_mu ≢ building)
            × (one_sent.tx_mu ≢ published)))
    × (one_sent.sent ≤ one_sent.lost + 1)
Reach-Single_example = Reach-Single one_sent sent-Reach
