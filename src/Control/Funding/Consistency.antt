-- ===== src/Control/Funding/Consistency.antt =====
-- internal/control/funding.go, internal/control/funding_engine.go: the tasks of the store and the runs.
use pons_mm_desktop.Prelude.{ℕ, ◌≡◌, Bool, true, some, List, [], elem}
use pons_mm_desktop.Prelude.Result.{Result, ok}
use pons_mm_desktop.Control.Funding.{FundingConfig, Task, TaskState, running, task, load_tasks}
use pons_mm_desktop.Control.Funding.Runs.{
  Funding, save, start_funding_task, stop_funding_task, finish_run, delete_funding_task, Gap,
}
use pons_mm_desktop.Control.Funding.Sections.{state_of, Others, OnlyOthers}

-- A run of the task is that of a stored task, which is shown as running.
abbrev pub Consistent : ℕ → Funding → Type 0
Consistent id f = elem id f.runs ≡ true → state_of (task id f.tasks) ≡ some running

-- The handlers of the task `id`, from a start of the application on. They do not overlap each other; those
-- of other tasks run between them and in their gaps.
pub data Reached (id : ℕ) : Funding → Type 0 where
  loaded : (ts : List Task) → Reached id (record { tasks = load_tasks ts; runs = [] })
  started :
      (before between : Gap) (confirmed endpoint unlocked : Bool) (c : FundingConfig)
      (f g : Funding)
      → Reached id f
      → OnlyOthers id before
      → OnlyOthers id between
      → start_funding_task before between id confirmed endpoint unlocked c f ≡ ok g
      → Reached id g
  stop_asked : (f g : Funding) → Reached id f → stop_funding_task id f ≡ ok g → Reached id g
  progress_saved :
      (t : Task) (f : Funding)
      → Reached id f
      → t.id ≡ id
      → t.state ≡ running
      → Reached id (save t f)
  ended :
      (between : Gap) (t : Task) (state : TaskState) (f : Funding)
      → Reached id f
      → t.id ≡ id
      → OnlyOthers id between
      → Reached id (finish_run between t state f)
  deleted :
      (between : Gap) (f g : Funding)
      → Reached id f
      → OnlyOthers id between
      → delete_funding_task between id f ≡ ok g
      → Reached id g
  others_ran : (f g : Funding) → Reached id f → Others id f g → Reached id g

-- Another handler in a gap; if it fails, nothing changes.
