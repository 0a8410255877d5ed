-- ===== src/Control/Admin/Reset.antt =====
-- `ResetStrategy` of internal/control/features.go: its check that the strategy is inactive, and its
-- deletion of the job, are different sections under the lock, with reads of the chain between them.
use pons_mm_desktop.Prelude.{
  ℕ, ◌≡◌, ◌≢◌, sym, ◌∙◌, inl, inr, true, none, some, Option-cases, List, elem, lookup, lookup-erase,
  arith,
}
use pons_mm_desktop.Prelude.Result.{ok}
use pons_mm_desktop.Control.Service.{
  Service, RunningJob, JobState, Message, first_owner, start_locked, finish,
}
use pons_mm_desktop.Control.Service.Reservation.{Inv, first_owner-none}
use pons_mm_desktop.Control.Admin.{reset_commit}

module _ (s : Service) (id w : ℕ) (job : RunningJob) (v : Inv s) (nz : id ≢ 0)
    (at : lookup id s.jobs ≡ some job) (act : job.active ≡ true)
    (holds : elem w job.wallet_ids ≡ true) (state : JobState) (message : Message)
    (token pool : ℕ) where
  abbrev after_race : Service
  after_race = finish (reset_commit s id) id state message token pool

  finish-reset_commit : after_race ≡ reset_commit s id
  unfolding finish reset_commit
  finish-reset_commit = ground (arith, lookup-erase id id s.jobs)

  -- Where the reservations match the active jobs: a strategy that is started between the two sections
  -- loses its job to the deletion. When it later ends, its wallets stay reserved for an id that has no job, and no strategy with such a wallet can
  -- be started again.
  pub reset_commit-leaks :
      (other : ℕ) (ws : List ℕ) (u : Service)
      → elem w ws ≡ true
      → (after_race.used_wallets w ≡ id)
        × (lookup id after_race.jobs ≡ none)
        × (start_locked after_race other ws ≢ ok u)
  unfolding reset_commit start_locked
  reset_commit-leaks other ws u m = rw finish-reset_commit (
    v.reserved id w job at act holds,
    ground (arith, lookup-erase id id s.jobs),
    λ e. elim (Option-cases (first_owner s.used_wallets ws)) [
      | inl f ↦
          nz (sym (v.reserved id w job at act holds) ∙ first_owner-none s.used_wallets ws w f m)
      | inr (o, f) ↦ ground arith
    ],
  )
