-- ===== src/Control/Funding/Runs.antt =====
-- internal/control/funding.go, internal/control/funding_engine.go: the life of a task's run, from
-- `StartFundingTask` to `finish`. The state is the tasks of the store and the ids in `fundingRuns`;
-- a step is one section under a lock, so other handlers may run between two steps of one handler.
use pons_mm_desktop.Prelude.{
  ℕ, ◌+◌, Bool, ◌&&◌, not, none, some, List, [], ◌∷◌, ◌==◌, if◌then◌else◌, elem, keep, length,
}
use pons_mm_desktop.Prelude.Result.{Result, ok, err}
use pons_mm_desktop.Control.Funding.{
  FundingConfig, FundingError, complete, confirmation_required, not_found, not_configured,
  already_running, not_active, stop_first, Task, TaskState, running, stopped, failed, finished,
  task, save_task, delete_task,
}
use pons_mm_desktop.Control.Funding.Route.{Wiring, Hop, build_hops, transfers}
use pons_mm_desktop.Control.Funding.Transfers.{HopAnswers, exec_funding_hop}

pub record Funding : Type 0 where
  pub tasks : List Task
  pub runs : List ℕ

-- The checks of `StartFundingTask` before it takes the lock. `endpoint` tells whether one is set,
-- `unlocked` whether the vault gives the keys.
unfoldable pub admit : ℕ → Bool → Bool → Bool → FundingConfig → Funding → Result FundingError Task
admit id confirmed endpoint unlocked c f = elim (task id f.tasks) [
  | none ↦ if confirmed then err not_found else err confirmation_required
  | some t ↦
      if not confirmed
      then err confirmation_required
      else if complete c && (endpoint && unlocked)
      then ok t
      else err not_configured
]

-- The section under the lock: the id is entered once.
unfoldable pub begin_run : ℕ → Funding → Result FundingError Funding
begin_run id f =
    if elem id f.runs then err already_running else ok (record f { runs = id ∷ f.runs })

abbrev pub as_running : Task → Task
as_running t = record t { state = running; hops_done = 0; transfers_done = 0 }

abbrev pub save : Task → Funding → Funding
save t f = record f { tasks = save_task t f.tasks }

-- What other handlers do between two sections of a handler.
abbrev pub Gap : Type 0
Gap = Funding → Funding

abbrev pub alone : Gap
alone f = f

-- `StartFundingTask` in its three sections: the task is read and checked, the run is entered, and the
-- task is saved as running. `before` and `between` are its gaps.
unfoldable pub start_funding_task :
    Gap → Gap → ℕ → Bool → Bool → Bool → FundingConfig → Funding → Result FundingError Funding
unfolding admit begin_run
start_funding_task before between id confirmed endpoint unlocked c f =
    elim (admit id confirmed endpoint unlocked c f) [
      | err e ↦ err e
      | ok t ↦ elim (begin_run id (before f)) [
        | err e ↦ err e
        | ok g ↦ ok (save (as_running t) (between g))
      ]
    ]

-- `StopFundingTask` cancels the run's context only; the run leaves `fundingRuns` by itself.
unfoldable pub stop_funding_task : ℕ → Funding → Result FundingError Funding
stop_funding_task id f = if elem id f.runs then ok f else err not_active

unfoldable pub clear_funding_run : ℕ → Funding → Funding
clear_funding_run id f = record f { runs = keep (λ (r : ℕ). not (r == id)) f.runs }

-- `finish`, in its two sections: the run is cleared, then the record is saved.
unfoldable pub finish_run : Gap → Task → TaskState → Funding → Funding
unfolding clear_funding_run
finish_run between t state f =
    save (record t { state = state }) (between (clear_funding_run t.id f))

abbrev pub without_task : ℕ → Funding → Result FundingError Funding
without_task id f = elim (delete_task id f.tasks) [
  | err e ↦ err e
  | ok ts ↦ ok (record f { tasks = ts })
]

-- `DeleteFundingTask`, in its two sections: whether the task is active, then its removal.
unfoldable pub delete_funding_task : Gap → ℕ → Funding → Result FundingError Funding
delete_funding_task between id f =
    if elem id f.runs then err stop_first else without_task id (between f)

-- The loop of `runFundingTask` over the hops, from hop i on; `cancelled` tells whether the context has
-- ended when a hop fails. The counters are those of the record, the state that of `finish`.
unfoldable pub run_hops : (ℕ → HopAnswers) → Bool → ℕ → List Hop → Task → Task × TaskState
unfolding exec_funding_hop
run_hops answers cancelled i [] t = (t, finished)
run_hops answers cancelled i (hop ∷ hops) t =
    let (bumps, clean) = exec_funding_hop (answers i) hop in
    let counted : Task = record t { transfers_done = t.transfers_done + bumps } in
    let later = run_hops answers cancelled (i + 1) hops (record counted { hops_done = i + 1 }) in
    if clean then later else (counted, if cancelled then stopped else failed)

-- `runFundingTask` up to `finish`: `connected` tells whether it reaches a node of the right chain.
unfoldable pub run_funding_task : Bool → (ℕ → HopAnswers) → Bool → Wiring → Task → Task × TaskState
unfolding run_hops build_hops transfers
run_funding_task connected answers cancelled w t = elim (build_hops t.kind w) [
  | err e ↦ (t, failed)
  | ok hops ↦
      if connected
      then run_hops answers cancelled 0 hops
          (record t { hops_total = length hops; transfers_total = transfers hops })
      else (t, failed)
]
