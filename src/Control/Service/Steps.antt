-- ===== src/Control/Service/Steps.antt =====
-- Interleavings of the handlers of internal/control/service.go: a step is one section under `s.mu`,
-- so any schedule of concurrent handlers is a sequence of these steps.
use pons_mm_desktop.Prelude.{
  ℕ, ◌≡◌, ◌≢◌, refl, sym, inl, inr, Bool, true, false, Option, some, Option-cases, List, [], elem,
  lookup, lookup-erase, arith,
}
use native.Mathlib.Decide.{ℕ_discrete}
use pons_mm_desktop.Prelude.Result.{ok}
use pons_mm_desktop.Control.Store.{Strategy, strategy}
use pons_mm_desktop.Control.Service.{
  Service, InitStatus, RunningJob, JobState, Message, start, stop, request_exit, attach_engine,
  update_job, finish, put_job, is_active, with_state, stopping, exiting, waiting_to_stop,
  selling_balances,
}
use pons_mm_desktop.Control.Admin.{reset_commit}
use pons_mm_desktop.Control.Service.Reservation.{
  Inv, put_job-Inv, start_locked-Inv, finish-Inv, disjoint,
}

-- Edits of the configuration, the log and the startup check leave jobs and reservations alone.
abbrev with_rest : Service → List Strategy → List ℕ → List ℕ → InitStatus → Service
with_rest s strategies funding_runs logs init = record s {
  strategies = strategies;
  funding_runs = funding_runs;
  logs = logs;
  init = init;
}

pub data Step : Service → Service → Type 0 where
  starts :
      {s t : Service} (check : Strategy → Option ℕ) (id : ℕ) (confirmed : Bool)
      → id ≢ 0
      → start check s id confirmed ≡ ok t
      → Step s t
  stops : {s t : Service} (id : ℕ) → stop s id ≡ ok t → Step s t
  requests_exit :
      {s t : Service} (id : ℕ) (confirmed : Bool) → request_exit s id confirmed ≡ ok t → Step s t
  attaches : {s : Service} (id : ℕ) → Step s (attach_engine s id).0
  updates :
      {s : Service} (id : ℕ) (state : JobState) (message : Message) (token pool : ℕ)
      → Step s (update_job s id state message token pool)
  finishes :
      {s : Service} (id : ℕ) (state : JobState) (message : Message) (token pool : ℕ)
      → id ≢ 0
      → Step s (finish s id state message token pool)
  resets : {s : Service} (id : ℕ) → is_active s id ≡ false → Step s (reset_commit s id)
  edits :
      {s : Service} (strategies : List Strategy) (funding_runs logs : List ℕ) (init : InitStatus)
      → Step s (with_rest s strategies funding_runs logs init)

pub data Reach (s : Service) : Service → Type 0 where
  here : Reach s s
  next : {t u : Service} → Reach s t → Step t u → Reach s u

start-Inv :
    (check : Strategy → Option ℕ) (s t : Service) (id : ℕ) (confirmed : Bool)
    → Inv s
    → id ≢ 0
    → start check s id confirmed ≡ ok t
    → Inv t
unfolding start
start-Inv check s t id confirmed v nz h = elim (Option-cases (strategy id s.strategies)) [
  | inl e ↦ ground arith
  | inr (x, e) ↦ start_locked-Inv s id v nz x.wallet_ids t (ground arith)
]

stop-Inv : (s t : Service) (id : ℕ) → Inv s → stop s id ≡ ok t → Inv t
unfolding stop
stop-Inv s t id v h = elim (Option-cases (lookup id s.jobs)) [
  | inl e ↦ ground arith
  | inr (job, e) ↦
      let halted = record job {
        status = with_state job.status stopping waiting_to_stop;
        cancelled = true;
      } in
      let same : put_job s id halted ≡ t = ground arith in
      rw (← same) (put_job-Inv s id job halted v e refl refl)
]

request_exit-Inv :
    (s t : Service) (id : ℕ) (confirmed : Bool) → Inv s → request_exit s id confirmed ≡ ok t → Inv t
unfolding request_exit
request_exit-Inv s t id confirmed v h = elim (Option-cases (lookup id s.jobs)) [
  | inl e ↦ ground arith
  | inr (job, e) ↦
      let leaving = record job {
        exit_requested = true;
        status = with_state job.status exiting selling_balances;
      } in
      let same : put_job s id leaving ≡ t = ground arith in
      rw (← same) (put_job-Inv s id job leaving v e refl refl)
]

attach_engine-Inv : (s : Service) (id : ℕ) → Inv s → Inv (attach_engine s id).0
unfolding attach_engine
attach_engine-Inv s id v = elim (Option-cases (lookup id s.jobs)) [
  | inl e ↦ rw (e, attach_engine) v
  | inr (job, e) ↦ rw (e, attach_engine) (put_job-Inv s id job _ v e refl refl)
]

update_job-Inv :
    (s : Service) (id : ℕ) (state : JobState) (message : Message) (token pool : ℕ)
    → Inv s
    → Inv (update_job s id state message token pool)
unfolding update_job
update_job-Inv s id state message token pool v = elim (Option-cases (lookup id s.jobs)) [
  | inl e ↦ rw (e, update_job) v
  | inr (job, e) ↦ rw (e, update_job) (put_job-Inv s id job _ v e refl refl)
]

-- The last section of `ResetStrategy` is harmless if the job is still inactive.
reset_commit-Inv : (s : Service) (id : ℕ) → Inv s → is_active s id ≡ false → Inv (reset_commit s id)
unfolding reset_commit is_active
reset_commit-Inv s id v idle = record {
  reserved = λ k w job e act m. ground (arith, lookup-erase id k s.jobs, v.reserved k w job);
  owned = λ k w kz u.
      let (job, at, act, mem) = v.owned k w kz u in
      (job, ground (arith, lookup-erase id k s.jobs), act, mem);
  named = ground (arith, lookup-erase id 0 s.jobs, v.named);
}

Step-Inv : {s t : Service} → Step s t → Inv s → Inv t
Step-Inv (starts check id confirmed nz e) v = start-Inv check _ _ id confirmed v nz e
Step-Inv (stops id e) v = stop-Inv _ _ id v e
Step-Inv (requests_exit id confirmed e) v = request_exit-Inv _ _ id confirmed v e
Step-Inv (attaches id) v = attach_engine-Inv _ id v
Step-Inv (updates id state message token pool) v = update_job-Inv _ id state message token pool v
Step-Inv (finishes id state message token pool nz) v = finish-Inv _ id v nz state message token pool
Step-Inv (resets id idle) v = reset_commit-Inv _ id v idle
Step-Inv (edits strategies funding_runs logs init) v = record {
  reserved = v.reserved;
  owned = v.owned;
  named = v.named;
}

pub Reach-Inv : {s t : Service} → Inv s → Reach s t → Inv t
Reach-Inv v here = v
Reach-Inv v (next r st) = Step-Inv st (Reach-Inv v r)

-- A new service: no job, no reservation.
abbrev pub initial : Service
initial = record {
  strategies = [];
  jobs = [];
  funding_runs = [];
  used_wallets = λ w. 0;
  logs = [];
  init = record { checked = false; passed = false };
}

pub initial-Inv : Inv initial
unfolding lookup
initial-Inv = record {
  reserved = λ id w job e act m. cc;
  owned = λ id w nz u. absurd (nz (sym u));
  named = refl;
}

-- Whatever handlers ran and however their locked sections interleaved since the start of the
-- application, as long as `ResetStrategy` deletes only jobs that are then inactive: two active
-- strategies that share a wallet are the same strategy.
pub active_disjoint :
    (s : Service) (a b w : ℕ) (j k : RunningJob)
    → Reach initial s
    → lookup a s.jobs ≡ some j
    → lookup b s.jobs ≡ some k
    → j.active ≡ true
    → k.active ≡ true
    → elem w j.wallet_ids ≡ true
    → elem w k.wallet_ids ≡ true
    → a ≡ b
active_disjoint s a b w j k r = disjoint s a b w j k (Reach-Inv initial-Inv r)

-- Whatever handlers ran and however their locked sections interleaved since the start of the
-- application, as long as `ResetStrategy` deletes only jobs that are then inactive: once no strategy
-- is active, every wallet is free again.
pub idle_free :
    (s : Service) (w : ℕ)
    → Reach initial s
    → ((id : ℕ) → is_active s id ≡ false)
    → s.used_wallets w ≡ 0
unfolding is_active
idle_free s w r idle = elim (ℕ_discrete (s.used_wallets w) 0) [
  | yes e ↦ e
  | no ne ↦
      let (job, at, act, mem) = (Reach-Inv initial-Inv r).owned (s.used_wallets w) w ne refl in
      absurd (ground (arith, idle (s.used_wallets w)))
]
