-- ===== src/Control/Service/Refinement.antt =====
-- The handlers of internal/control/service.go against the table of locks, and what a strategy that has
-- ended finds.
use pons_mm_desktop.Prelude.{
  ℕ, ◌≡◌, ◌≢◌, refl, inl, inr, Bool, true, false, Option, none, some, Bool-cases, Option-cases,
  List, [], ◌∷◌, ◌==◌, if◌then◌else◌, ==_iff, elem, lookup, lookup-insert, arith,
}
use pons_mm_desktop.Prelude.Result.{ok}
use pons_mm_desktop.Control.Store.{Strategy, strategy}
use pons_mm_desktop.Control.Locks.{LockStep, LockRun, acquires, releases, idles, fresh, then_step}
use pons_mm_desktop.Control.Service.{
  Service, RunningJob, JobState, Message, start, start_locked, started, stop, request_exit,
  attach_engine, update_job, finish, reserve, release, first_owner, is_active_job, ended,
}
use pons_mm_desktop.Control.Service.Reservation.{Inv, first_owner-none}
use pons_mm_desktop.Control.Service.Steps.{
  Step, Reach, here, next, starts, stops, requests_exit, attaches, updates, finishes, resets, edits,
  Reach-Inv, initial, initial-Inv,
}
use pons_mm_desktop.Control.Admin.{reset_commit}

start_locked-LockStep :
    (s t : Service) (id : ℕ) (ws : List ℕ)
    → id ≢ 0
    → start_locked s id ws ≡ ok t
    → LockStep s.used_wallets t.used_wallets
unfolding start_locked reserve
start_locked-LockStep s t id ws nz h = elim (Bool-cases (is_active_job (lookup id s.jobs))) [
  | inl p ↦ absurd (ground arith)
  | inr p ↦ elim (Option-cases (first_owner s.used_wallets ws)) [
    | inr (o, e) ↦ absurd (ground arith)
    | inl e ↦
        let same : started s id ws ≡ t = ground arith in
        acquires id ws nz (λ w. first_owner-none s.used_wallets ws w e) (rw (← same) (λ w. refl))
  ]
]

start-LockStep :
    (check : Strategy → Option ℕ) (s t : Service) (id : ℕ) (confirmed : Bool)
    → id ≢ 0
    → start check s id confirmed ≡ ok t
    → LockStep s.used_wallets t.used_wallets
unfolding start
start-LockStep check s t id confirmed nz h = elim (Option-cases (strategy id s.strategies)) [
  | inl e ↦ absurd (ground arith)
  | inr (x, e) ↦ start_locked-LockStep s t id x.wallet_ids nz (ground arith)
]

stop-used : (s t : Service) (id w : ℕ) → stop s id ≡ ok t → t.used_wallets w ≡ s.used_wallets w
unfolding stop
stop-used s t id w h = elim (Option-cases (lookup id s.jobs)) [
  | inl e ↦ absurd (ground arith)
  | inr (job, e) ↦ ground arith
]

request_exit-used :
    (s t : Service) (id w : ℕ) (confirmed : Bool)
    → request_exit s id confirmed ≡ ok t
    → t.used_wallets w ≡ s.used_wallets w
unfolding request_exit
request_exit-used s t id w confirmed h = elim (Option-cases (lookup id s.jobs)) [
  | inl e ↦ absurd (ground arith)
  | inr (job, e) ↦ ground arith
]

attach_engine-used : (s : Service) (id : ℕ) → (attach_engine s id).0.used_wallets ≡ s.used_wallets
unfolding attach_engine
attach_engine-used s id = ground arith

update_job-used :
    (s : Service) (id : ℕ) (state : JobState) (message : Message) (token pool : ℕ)
    → (update_job s id state message token pool).used_wallets ≡ s.used_wallets
unfolding update_job
update_job-used s id state message token pool = ground arith

finish-released :
    (s : Service) (id : ℕ) (state : JobState) (message : Message) (token pool w : ℕ)
    → Inv s
    → id ≢ 0
    → (finish s id state message token pool).used_wallets w
      ≡ (if s.used_wallets w == id then 0 else s.used_wallets w)
unfolding finish release
finish-released s id state message token pool w v nz = elim (Bool-cases (s.used_wallets w == id)) [
  | inr other ↦ ground arith
  | inl own ↦
      let (job, at, act, mem) = v.owned id w nz ((==_iff (s.used_wallets w) id).0 own) in
      ground (arith, at, mem)
]

finish-inactive :
    (s : Service) (id : ℕ) (job : RunningJob) (state : JobState) (message : Message)
    (token pool : ℕ)
    → lookup id s.jobs ≡ some job
    → is_active_job (lookup id (finish s id state message token pool).jobs) ≡ false
unfolding finish
finish-inactive s id job state message token pool at =
    let last = ended job state message token pool in
    ground (arith, at, lookup-insert id id last s.jobs)

Step-LockStep : {s t : Service} → Inv s → Step s t → LockStep s.used_wallets t.used_wallets
unfolding reset_commit
Step-LockStep v (starts check id confirmed nz e) = start-LockStep check _ _ id confirmed nz e
Step-LockStep v (stops id e) = idles (λ w. stop-used _ _ id w e)
Step-LockStep v (requests_exit id confirmed e) = idles (λ w. request_exit-used _ _ id w confirmed e)
Step-LockStep {s} v (attaches id) = idles (λ w. rw (attach_engine-used s id) refl)
Step-LockStep {s} v (updates id state message token pool) =
    idles (λ w. rw (update_job-used s id state message token pool) refl)
Step-LockStep {s} v (finishes id state message token pool nz) =
    releases id (λ w. finish-released s id state message token pool w v nz)
Step-LockStep v (resets id idle) = idles (λ w. refl)
Step-LockStep v (edits strategies funding_runs logs init) = idles (λ w. refl)

-- Every run of the service, in any interleaving of its handlers and with resets of inactive jobs
-- only, is a run of the table of locks: wallets are taken all at once and only when nobody holds
-- them, and are given back all at once and only by their holder.
pub Reach-LockRun : {s : Service} → Reach initial s → LockRun initial.used_wallets s.used_wallets
Reach-LockRun here = fresh
Reach-LockRun (next r st) = then_step (Reach-LockRun r) (Step-LockStep (Reach-Inv initial-Inv r) st)

first_owner-all_free :
    (used : ℕ → ℕ) (ws : List ℕ)
    → ((w : ℕ) → elem w ws ≡ true → used w ≡ 0)
    → first_owner used ws ≡ none
unfolding first_owner
first_owner-all_free used [] f = refl
first_owner-all_free used (x ∷ xs) f =
    ground (arith, f x, first_owner-all_free used xs (λ w m. f w (ground arith)))

-- In a state in which each wallet of an active job is reserved for it, each reservation is that of an
-- active job with the wallet, and no job has the empty id: once an active strategy has ended, whatever
-- its last state, it can be started again with the same wallets at once, as nothing that it held is left
-- reserved.
pub start_locked-finish :
    (s : Service) (id : ℕ) (job : RunningJob) (state : JobState) (message : Message)
    (token pool : ℕ)
    → Inv s
    → id ≢ 0
    → lookup id s.jobs ≡ some job
    → job.active ≡ true
    → let after = finish s id state message token pool in
      start_locked after id job.wallet_ids ≡ ok (started after id job.wallet_ids)
unfolding start_locked
start_locked-finish s id job state message token pool v nz at act =
    let after = finish s id state message token pool in
    let free = first_owner-all_free after.used_wallets job.wallet_ids (λ w m. ground (
      arith,
      finish-released s id state message token pool w v nz,
      v.reserved id w job at act m,
    )) in
    ground (arith, free, finish-inactive s id job state message token pool at)
