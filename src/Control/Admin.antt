-- ===== src/Control/Admin.antt =====
-- internal/control/service.go and internal/control/features.go: the handlers that edit strategies,
-- the vault and the log beside the running jobs. As in Control/Service, each function is one section
-- under `s.mu` with the checks that precede it; what the vault and the chain answer is an argument.
pub mod Logs
pub mod Reset
use pons_mm_desktop.Prelude.{
  ℕ, ◌-◌, Bool, true, false, ◌||◌, not, Option, none, some, List, [], ◌∷◌, ◌++◌, map, ◌==◌,
  if◌then◌else◌, ltb, length, drop, elem, any, lookup, erase,
}
use pons_mm_desktop.Prelude.Result.{Result, ok, err, ◌>>=◌, ◌>>◌}
use pons_mm_desktop.Control.Store.{
  Strategy, launch, strategy, delete_strategy, clear_all_wallet_ids,
}
use pons_mm_desktop.Control.Service.{
  Service, RunningJob, Error, stop_first, stop_funding_first, not_found, missing_metadata,
  holdings_remain, guard, is_active,
}

-- `LockVault` goes on only if no job is active.
unfoldable pub any_active : List (ℕ × RunningJob) → Bool
any_active [] = false
any_active ((id, job) ∷ rest) = job.active || any_active rest

unfoldable pub lock_vault : Service → Result Error (Unit {0})
lock_vault s = guard (not (any_active s.jobs)) stop_first

-- `ClearWallets`: `retained` tells whether `vault.Retain` succeeded.
unfoldable pub clear_wallets : ℕ → (List ℕ → Option Error) → Service → List ℕ → Result Error Service
unfolding any_active
clear_wallets now retain s routing_ids =
    if any_active s.jobs
    then err stop_first
    else if ltb 0 (length s.funding_runs)
    then err stop_funding_first
    else elim (retain routing_ids) [
      | some e ↦ err e
      | none ↦ ok (record s { strategies = clear_all_wallet_ids now s.strategies })
    ]

-- `DeleteStrategy`.
unfoldable pub delete : Service → ℕ → Result Error Service
delete s id = do
  guard (not (is_active s id)) stop_first
  next ← elim (delete_strategy id s.strategies) [ none ↦ err not_found | some xs ↦ ok xs ]
  ok (record s { strategies = next })

-- The checks of `ResetStrategy`, up to the read of the chain; `holdings` is what
-- `ensureNoHoldings` found: the sum of the wallets' balances, or its error.
unfoldable pub reset_checks : Service → ℕ → Result Error ℕ → Result Error Strategy
reset_checks s id holdings = do
  guard (not (is_active s id)) stop_first
  found ← elim (strategy id s.strategies) [ none ↦ err not_found | some x ↦ ok x ]
  guard (not (found.token_name == 0 || found.token_symbol == 0)) missing_metadata
  total ← holdings
  guard (total == 0) holdings_remain
  ok found

-- What it then saves: the same strategy, to be launched anew.
abbrev pub relaunched : Strategy → Strategy
relaunched x = record x { mode = launch; token_address = 0; pool_address = 0 }

-- Its last section: the job is deleted. Nothing is checked again here.
unfoldable pub reset_commit : Service → ℕ → Service
reset_commit s id = record s { jobs = erase id s.jobs }

-- `appendLog` keeps the newest `max_logs` entries.
abbrev pub max_logs : ℕ
max_logs = 800

unfoldable pub append_log : List ℕ → ℕ → List ℕ
append_log logs entry =
    let all = logs ++ entry ∷ [] in
    if ltb max_logs (length all) then drop (length all - max_logs) all else all

-- `Shutdown` cancels the context of every active job.
unfoldable pub cancel_active : List (ℕ × RunningJob) → List (ℕ × RunningJob)
cancel_active [] = []
cancel_active ((id, job) ∷ rest) =
    (id, record job { cancelled = job.cancelled || job.active }) ∷ cancel_active rest

unfoldable pub shutdown : Service → Service
unfolding cancel_active
shutdown s = record s { jobs = cancel_active s.jobs }
