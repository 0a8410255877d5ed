-- ===== src/Control/Tests.antt =====
-- The theorems on the control plane, with two strategies of which one is started.
use pons_mm_desktop.Prelude.{
  ℕ, ◌≡◌, ◌≢◌, refl, true, none, some, List, [], ◌∷◌, lookup, insert, arith,
}
use pons_mm_desktop.Prelude.Result.{ok}
use pons_mm_desktop.Control.Store.{Strategy, Mode, Protocol, strategy}
use pons_mm_desktop.Control.Service.{
  Service, new_job, started, start, start_locked, first_owner, finish, stopped, strategy_stopped,
}
use pons_mm_desktop.Control.Service.Steps.{
  Reach, here, next, starts, edits, Reach-Inv, initial, initial-Inv, active_disjoint,
}
use pons_mm_desktop.Control.Locks.{LockRun}
use pons_mm_desktop.Control.Service.Refinement.{Reach-LockRun, start_locked-finish}
use pons_mm_desktop.Control.Admin.{reset_commit}
use pons_mm_desktop.Control.Admin.Reset.{reset_commit-leaks}

abbrev plan : ℕ → List ℕ → Strategy
plan id ws = record {
  id = id;
  name = 7;
  mode = Mode.launch;
  protocol = Protocol.v2;
  token_address = 0;
  pool_address = 0;
  wallet_ids = ws;
  token_name = 8;
  token_symbol = 9;
  tuning = 0;
  created_at = 1;
  updated_at = 1;
}

abbrev two_plans : List Strategy
two_plans = plan 1 (11 ∷ 12 ∷ []) ∷ plan 2 (12 ∷ 13 ∷ []) ∷ []

abbrev configured : Service
configured = record initial {
  strategies = two_plans;
  init = record { checked = true; passed = true };
}

abbrev running_one : Service
running_one = started configured 1 (11 ∷ 12 ∷ [])

one_starts : start (λ s. none) configured 1 true ≡ ok running_one
unfolding start strategy start_locked lookup first_owner
one_starts = refl

running_one-Reach : Reach initial running_one
running_one-Reach =
    next (next here (edits two_plans [] [] (record { checked = true; passed = true })))
      (starts (λ s. none) 1 true (ground arith) one_starts)

found_one : lookup 1 running_one.jobs ≡ some (new_job 1 (11 ∷ 12 ∷ []))
unfolding lookup insert
found_one = refl

active_disjoint_example : ◌≡◌ {A = ℕ} 1 1
active_disjoint_example =
    active_disjoint running_one 1 1 12 (new_job 1 (11 ∷ 12 ∷ [])) (new_job 1 (11 ∷ 12 ∷ []))
      running_one-Reach found_one found_one refl refl refl refl

reset_commit-leaks_example :
    let after = finish (reset_commit running_one 1) 1 stopped strategy_stopped 0 0 in
    (after.used_wallets 12 ≡ 1)
    × (lookup 1 after.jobs ≡ none)
    × (start_locked after 2 (12 ∷ 13 ∷ []) ≢ ok configured)
reset_commit-leaks_example =
    reset_commit-leaks running_one 1 12 (new_job 1 (11 ∷ 12 ∷ []))
      (Reach-Inv initial-Inv running_one-Reach) (ground arith) found_one refl refl stopped
      strategy_stopped 0 0 2 (12 ∷ 13 ∷ []) configured refl

Reach-LockRun_example : LockRun initial.used_wallets running_one.used_wallets
Reach-LockRun_example = Reach-LockRun running_one-Reach

start_locked-finish_example :
    let after = finish running_one 1 stopped strategy_stopped 0 0 in
    start_locked after 1 (11 ∷ 12 ∷ []) ≡ ok (started after 1 (11 ∷ 12 ∷ []))
start_locked-finish_example =
    start_locked-finish running_one 1 (new_job 1 (11 ∷ 12 ∷ [])) stopped strategy_stopped 0 0
      (Reach-Inv initial-Inv running_one-Reach) (ground arith) found_one refl
