-- ===== src/Control/Service.antt =====
-- internal/control/service.go: the life cycle of strategy jobs and the reservation of wallets.
-- Each function below is one section under `s.mu` (or one RLock section) of the handler that is
-- named, so that handlers interleave as sequences of these steps. Clock values are left out.
-- `used_wallets` is the map of that name read by its zero value: 0 is "", the absent owner.
pub mod Reservation
pub mod Steps
pub mod Refinement
use pons_mm_desktop.Prelude.{
  ℕ, ◌+◌, ◌-◌, Bool, true, false, ◌&&◌, ◌||◌, not, Option, none, some, List, [], ◌∷◌, ◌++◌, ◌==◌,
  if◌then◌else◌, ltb, length, drop, elem, lookup, insert, erase,
}
use pons_mm_desktop.Prelude.Result.{Result, ok, err, ◌>>=◌, ◌>>◌}
use pons_mm_desktop.Control.Store.{Strategy, Mode, Protocol, strategy}

pub data JobState : Type 0 where
  starting running stopping exiting stopped error : JobState

pub data Message : Type 0 where
  connecting waiting_to_stop selling_balances market_maker_active : Message
  strategy_stopped exit_completed : Message
  failure : ℕ → Message

pub record JobStatus : Type 0 where
  pub strategy_id : ℕ
  pub state : JobState
  pub message : Message
  pub token : ℕ
  pub pool : ℕ

-- `cancelled` is the job's context, `engine` whether one is attached, `engine_ready` whether that
-- channel is closed.
pub record RunningJob : Type 0 where
  pub status : JobStatus
  pub cancelled : Bool
  pub wallet_ids : List ℕ
  pub active : Bool
  pub engine : Bool
  pub engine_ready : Bool
  pub exit_requested : Bool

pub record InitStatus : Type 0 where
  pub checked : Bool
  pub passed : Bool

pub record Service : Type 0 where
  pub strategies : List Strategy
  pub jobs : List (ℕ × RunningJob)
  pub funding_runs : List ℕ
  pub used_wallets : ℕ → ℕ
  pub logs : List ℕ
  pub init : InitStatus

pub data Error : Type 0 where
  confirmation_required init_incomplete init_failed not_found already_running : Error
  not_running exit_in_progress not_ready stopped_before_exit stop_first : Error
  stop_funding_first funding_wallet missing_metadata holdings_remain : Error
  wallet_in_use : ℕ → Error
  rejected : ℕ → Error

abbrev pub guard : Bool → Error → Result Error (Unit {0})
guard true e = ok tt
guard false e = err e

abbrev pub is_active_job : Option RunningJob → Bool
is_active_job none = false
is_active_job (some job) = job.active

unfoldable pub is_active : Service → ℕ → Bool
is_active s id = is_active_job (lookup id s.jobs)

-- The owner of the first wallet that is in use.
unfoldable pub first_owner : (ℕ → ℕ) → List ℕ → Option ℕ
first_owner used [] = none
first_owner used (w ∷ ws) =
    let rest = first_owner used ws in if used w == 0 then rest else some (used w)

unfoldable pub reserve : ℕ → List ℕ → (ℕ → ℕ) → ℕ → ℕ
reserve id ws used w = if elem w ws then id else used w

-- The deletions of `finish`: only where the strategy is still the owner.
unfoldable pub release : ℕ → List ℕ → (ℕ → ℕ) → ℕ → ℕ
release id ws used w = if elem w ws && used w == id then 0 else used w

abbrev pub new_job : ℕ → List ℕ → RunningJob
new_job id ws = record {
  status = record { strategy_id = id; state = starting; message = connecting; token = 0; pool = 0 };
  cancelled = false;
  wallet_ids = ws;
  active = true;
  engine = false;
  engine_ready = false;
  exit_requested = false;
}

-- The state that `Start` leaves: the job is there, and its wallets are marked.
abbrev pub started : Service → ℕ → List ℕ → Service
started s id ws = record s {
  jobs = insert id (new_job id ws) s.jobs;
  used_wallets = reserve id ws s.used_wallets;
}

-- The section of `Start` under the lock.
unfoldable pub start_locked : Service → ℕ → List ℕ → Result Error Service
start_locked s id ws =
    if is_active_job (lookup id s.jobs)
    then err already_running
    else elim (first_owner s.used_wallets ws) [
      | some owner ↦ err (wallet_in_use owner)
      | none ↦ ok (started s id ws)
    ]

-- `Start`. `check` stands for `strategy.validate`, `ensureTradingWalletIDs` and `vault.Keys`, which
-- read but change nothing: `none`, or the error of the first that fails.
unfoldable pub start : (Strategy → Option ℕ) → Service → ℕ → Bool → Result Error Service
start check s id confirmed = do
  guard confirmed confirmation_required
  guard s.init.passed (if s.init.checked then init_failed else init_incomplete)
  found ← elim (strategy id s.strategies) [ none ↦ err not_found | some x ↦ ok x ]
  elim (check found) [ none ↦ ok tt | some reason ↦ err (rejected reason) ]
  start_locked s id found.wallet_ids

abbrev pub put_job : Service → ℕ → RunningJob → Service
put_job s id job = record s { jobs = insert id job s.jobs }

abbrev pub with_state : JobStatus → JobState → Message → JobStatus
with_state st state message = record st { state = state; message = message }

-- `Stop`: mark the job and cancel its context; `finish` releases the wallets later.
unfoldable pub stop : Service → ℕ → Result Error Service
stop s id = elim (lookup id s.jobs) [
  | none ↦ err not_running
  | some job ↦
      if not job.active
      then err not_running
      else if job.exit_requested
      then err exit_in_progress
      else ok (
          put_job s id (record job {
            status = with_state job.status stopping waiting_to_stop;
            cancelled = true;
          }))
]

-- The first section of `ExitAll`.
unfoldable pub request_exit : Service → ℕ → Bool → Result Error Service
request_exit s id confirmed =
    if confirmed
    then elim (lookup id s.jobs) [
      | none ↦ err not_running
      | some job ↦
          if not job.active
          then err not_running
          else if job.exit_requested
          then err exit_in_progress
          else ok (
              put_job s id (record job {
                exit_requested = true;
                status = with_state job.status exiting selling_balances;
              }))
    ]
    else err confirmation_required

-- The second section of `ExitAll`. `ready` tells whether the wait for `engineReady` ended before its
-- 45 seconds; then the engine has to be there.
unfoldable pub exit_engine : Service → ℕ → Bool → Result Error (Unit {0})
exit_engine s id ready =
    if ready
    then elim (lookup id s.jobs) [
      | none ↦ err stopped_before_exit
      | some job ↦ if job.engine then ok tt else err stopped_before_exit
    ]
    else err not_ready

-- `attachEngine`: publish the engine, and report whether an exit was requested meanwhile.
unfoldable pub attach_engine : Service → ℕ → Service × Bool
attach_engine s id = elim (lookup id s.jobs) [
  | none ↦ (s, false)
  | some job ↦
      (put_job s id (record job { engine = true; engine_ready = true }), job.exit_requested)
]

unfoldable pub exit_was_requested : Service → ℕ → Bool
exit_was_requested s id = elim (lookup id s.jobs) [ none ↦ false | some job ↦ job.exit_requested ]

unfoldable pub update_job : Service → ℕ → JobState → Message → ℕ → ℕ → Service
update_job s id state message token pool = elim (lookup id s.jobs) [
  | none ↦ s
  | some job ↦ put_job s id (record job {
    status = record job.status { state = state; message = message; token = token; pool = pool };
  })
]

-- `finish`: the job ends, its engine channel is closed, and its wallets are given back.
abbrev pub ended : RunningJob → JobState → Message → ℕ → ℕ → RunningJob
ended job state message token pool = record job {
  status = record job.status { state = state; message = message; token = token; pool = pool };
  active = false;
  engine_ready = true;
}

unfoldable pub finish : Service → ℕ → JobState → Message → ℕ → ℕ → Service
finish s id state message token pool = elim (lookup id s.jobs) [
  | none ↦ s
  | some job ↦ record s {
    jobs = insert id (ended job state message token pool) s.jobs;
    used_wallets = release id job.wallet_ids s.used_wallets;
  }
]
