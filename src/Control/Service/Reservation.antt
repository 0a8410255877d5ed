-- ===== src/Control/Service/Reservation.antt =====
-- Who holds a wallet (internal/control/service.go, `usedWallets`): the invariant that ties the map to
-- the active jobs, and what each section under the lock does to it.
use pons_mm_desktop.Prelude.{
  ℕ, ◌≡◌, ◌≢◌, refl, sym, ◌∙◌, inl, inr, true, false, none, some, Bool-cases, Option-cases, List,
  [], ◌∷◌, ◌==◌, elem, lookup, insert, lookup-insert, ==_iff, arith,
}
use pons_mm_desktop.Prelude.Result.{ok}
use pons_mm_desktop.Control.Service.{
  Service, RunningJob, is_active_job, first_owner, reserve, release, new_job, started, start_locked,
  put_job, ended, finish, JobState, Message,
}

-- Every wallet of an active job is reserved for it, and every reservation is by an active job that
-- has the wallet. No job goes by the empty id.
pub record Inv (s : Service) : Type 0 where
  pub reserved :
      (id w : ℕ) (job : RunningJob)
      → lookup id s.jobs ≡ some job
      → job.active ≡ true
      → elem w job.wallet_ids ≡ true
      → s.used_wallets w ≡ id
  pub owned :
      (id w : ℕ)
      → id ≢ 0
      → s.used_wallets w ≡ id
      → (job : RunningJob) × (lookup id s.jobs ≡ some job)
        × (job.active ≡ true)
        × (elem w job.wallet_ids ≡ true)
  pub named : lookup 0 s.jobs ≡ none

-- Two active jobs of different ids share no wallet.
pub disjoint :
    (s : Service) (a b w : ℕ) (j k : RunningJob)
    → Inv s
    → lookup a s.jobs ≡ some j
    → lookup b s.jobs ≡ some k
    → j.active ≡ true
    → k.active ≡ true
    → elem w j.wallet_ids ≡ true
    → elem w k.wallet_ids ≡ true
    → a ≡ b
disjoint s a b w j k v la lb ja kb wa wb =
    sym (v.reserved a w j la ja wa) ∙ v.reserved b w k lb kb wb

pub first_owner-none :
    (used : ℕ → ℕ) (ws : List ℕ) (w : ℕ)
    → first_owner used ws ≡ none
    → elem w ws ≡ true
    → used w ≡ 0
unfolding first_owner
first_owner-none used [] w h e = cc
first_owner-none used (x ∷ xs) w h e = elim (Bool-cases (w == x)) [
  | inl p ↦ let same : w ≡ x = (==_iff w x).0 p in rw same (ground arith)
  | inr p ↦ ground (arith, first_owner-none used xs w)
]

-- Replacing a job by one with the same wallets and the same activity keeps the invariant.
pub put_job-Inv :
    (s : Service) (id : ℕ) (old new : RunningJob)
    → Inv s
    → lookup id s.jobs ≡ some old
    → new.active ≡ old.active
    → new.wallet_ids ≡ old.wallet_ids
    → Inv (put_job s id new)
put_job-Inv s id old new v l a ws = record {
  reserved = λ k w job e act m.
      ground (arith, lookup-insert id k new s.jobs, v.reserved k w job, v.reserved k w old);
  owned = λ k w nz u.
      let (job, found, act, mem) = v.owned k w nz u in
      elim (Bool-cases (id == k)) [
        | inl p ↦ (new, rw (lookup-insert id k new s.jobs, p), ground arith, ground arith)
        | inr p ↦ (job, rw (lookup-insert id k new s.jobs, p) found, act, mem)
      ];
  named = ground (arith, lookup-insert id 0 new s.jobs, v.named);
}

module _ (s : Service) (id : ℕ) (v : Inv s) (nz : id ≢ 0) where
  started-Inv :
      (ws : List ℕ)
      → is_active_job (lookup id s.jobs) ≡ false
      → first_owner s.used_wallets ws ≡ none
      → Inv (started s id ws)
  unfolding reserve
  started-Inv ws idle free = record {
    reserved = λ k w job e act m. ground (
      arith,
      lookup-insert id k (new_job id ws) s.jobs,
      v.reserved k w job,
      v.named,
      first_owner-none s.used_wallets ws w free,
    );
    owned = λ k w kz u. elim (Bool-cases (elem w ws)) [
      | inl p ↦
          let same : id ≡ k = ground arith in
          (new_job id ws, ground (arith, lookup-insert id k (new_job id ws) s.jobs), refl, p)
      | inr p ↦
          let (job, found, act, mem) = v.owned k w kz (ground arith) in
          (job, ground (arith, lookup-insert id k (new_job id ws) s.jobs), act, mem)
    ];
    named = ground (arith, lookup-insert id 0 (new_job id ws) s.jobs, v.named);
  }

  -- `Start` under the lock reserves only wallets that nobody holds.
  pub start_locked-Inv : (ws : List ℕ) (next : Service) → start_locked s id ws ≡ ok next → Inv next
  unfolding start_locked
  start_locked-Inv ws next h = elim (Bool-cases (is_active_job (lookup id s.jobs))) [
    | inl p ↦ ground arith
    | inr p ↦ elim (Option-cases (first_owner s.used_wallets ws)) [
      | inr (o, e) ↦ ground arith
      | inl e ↦ let same : started s id ws ≡ next = ground arith in rw (← same) (started-Inv ws p e)
    ]
  ]

  finished-Inv :
      (job ended_job : RunningJob)
      → lookup id s.jobs ≡ some job
      → ended_job.active ≡ false
      → Inv (record s {
        jobs = insert id ended_job s.jobs;
        used_wallets = release id job.wallet_ids s.used_wallets;
      })
  unfolding release
  finished-Inv job ended_job found off = record {
    reserved = λ k w other e act m.
        ground (arith, lookup-insert id k ended_job s.jobs, v.reserved k w other);
    owned = λ k w kz u.
        let (other, at, act, mem) = v.owned k w kz (ground arith) in
        (other, ground (arith, lookup-insert id k ended_job s.jobs), act, mem);
    named = ground (arith, lookup-insert id 0 ended_job s.jobs, v.named);
  }

  -- `finish` gives back exactly what the job held.
  pub finish-Inv :
      (state : JobState) (message : Message) (token pool : ℕ)
      → Inv (finish s id state message token pool)
  unfolding finish
  finish-Inv state message token pool = elim (Option-cases (lookup id s.jobs)) [
    | inl e ↦ rw (e, finish) v
    | inr (job, e) ↦ rw (e, finish) (finished-Inv job (ended job state message token pool) e refl)
  ]
