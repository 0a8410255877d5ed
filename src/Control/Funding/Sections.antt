-- ===== src/Control/Funding/Sections.antt =====
-- The sections of the handlers of internal/control/funding.go and internal/control/funding_engine.go that
-- run under a lock: those for one task leave the others.
use mathlib.Core.Path.{subst}
use pons_mm_desktop.Prelude.{
  ℕ, ◌≡◌, refl, ◌∙◌, true, false, not, ◌&&◌, Bool-cases, inl, inr, Option, none, some, List, [],
  ◌∷◌, ◌==◌, if◌then◌else◌, elem, keep, arith,
}
use pons_mm_desktop.Prelude.Result.{Result, ok, err}
use pons_mm_desktop.Control.Funding.{FundingError, Task, TaskState, task, save_task, delete_task}
use pons_mm_desktop.Control.Funding.Runs.{
  Funding, begin_run, save, clear_funding_run, Gap, without_task,
}

unfoldable pub state_of : Option Task → Option TaskState
state_of none = none
state_of (some t) = some t.state

task-save_task :
    (id : ℕ) (t : Task) (ts : List Task)
    → task id (save_task t ts) ≡ (if t.id == id then some t else task id ts)
unfolding task save_task
task-save_task id t [] = refl
task-save_task id t (u ∷ ts) = ground (arith, task-save_task id t ts)

elem-removed :
    (id r : ℕ) (rs : List ℕ)
    → elem r (keep (λ (s : ℕ). not (s == id)) rs) ≡ (not (r == id) && elem r rs)
elem-removed id r [] = ground arith
elem-removed id r (s ∷ rs) = ground (arith, elem-removed id r rs)

-- A property of a result, when there is one.
abbrev pub OnOk : {A : Type 0} → (A → Type 0) → Result FundingError A → Type 0
OnOk P (ok a) = P a
OnOk P (err e) = Unit {0}

-- A deletion leaves the tasks of other ids.
task-delete_task :
    (id r : ℕ) (ts : List Task)
    → (r == id) ≡ false
    → OnOk (λ us. task r us ≡ task r ts) (delete_task id ts)
unfolding task delete_task
task-delete_task id r [] other = tt
task-delete_task id r (t ∷ ts) other = elim (Bool-cases (t.id == id)) [
  | inl e ↦ rw e (let differs : (t.id == r) ≡ false = ground (arith, e, other) in rw differs refl)
  | inr e ↦ rw e (kept (delete_task id ts) (task-delete_task id r ts other))
]
  where
    kept :
        (res : Result FundingError (List Task))
        → OnOk (λ us. task r us ≡ task r ts) res
        → OnOk
            (λ us. task r us ≡ task r (t ∷ ts))
            (elim res [ ok us ↦ ok (t ∷ us) | err e ↦ err e ])
    kept (ok us) same = rw same refl
    kept (err e) same = tt

pub save-found : (t : Task) (f : Funding) → task t.id (save t f).tasks ≡ some t
save-found t f =
    let found = task-save_task t.id t f.tasks in
    let same : (t.id == t.id) ≡ true = ground arith in found ∙ rw same refl

-- What other tasks' handlers do, section by section: none of it is for the task `id`.
pub data Others (id : ℕ) (f : Funding) : Funding → Type 0 where
  nothing : Others id f f
  run_entered :
      (r : ℕ) (g h : Funding)
      → Others id f g
      → (r == id) ≡ false
      → begin_run r g ≡ ok h
      → Others id f h
  task_saved :
      (t : Task) (g : Funding) → Others id f g → (t.id == id) ≡ false → Others id f (save t g)
  run_cleared :
      (r : ℕ) (g : Funding)
      → Others id f g
      → (r == id) ≡ false
      → Others id f (clear_funding_run r g)
  task_removed :
      (r : ℕ) (g h : Funding)
      → Others id f g
      → (r == id) ≡ false
      → without_task r g ≡ ok h
      → Others id f h

abbrev pub OnlyOthers : ℕ → Gap → Type 0
OnlyOthers id gap = (f : Funding) → Others id f (gap f)

-- The task and whether it has a run are the same.
abbrev Leaves : ℕ → Funding → Funding → Type 0
Leaves id f g = (task id g.tasks ≡ task id f.tasks) × (elem id g.runs ≡ elem id f.runs)

Leaves-trans : (id : ℕ) (f g h : Funding) → Leaves id f g → Leaves id g h → Leaves id f h
Leaves-trans id f g h p q = (q.0 ∙ p.0, q.1 ∙ p.1)

begin_run-Leaves : (id r : ℕ) (f : Funding) → (r == id) ≡ false → OnOk (Leaves id f) (begin_run r f)
unfolding begin_run
begin_run-Leaves id r f other = elim (Bool-cases (elem r f.runs)) [
  | inl e ↦ rw e tt
  | inr e ↦ rw e (refl, ground (arith, other))
]

save-Leaves : (id : ℕ) (t : Task) (f : Funding) → (t.id == id) ≡ false → Leaves id f (save t f)
save-Leaves id t f other = (task-save_task id t f.tasks ∙ rw other refl, refl)

clear_funding_run-Leaves :
    (id r : ℕ) (f : Funding) → (r == id) ≡ false → Leaves id f (clear_funding_run r f)
unfolding clear_funding_run
clear_funding_run-Leaves id r f other = (refl, ground (arith, elem-removed r id f.runs, other))

removed-Leaves :
    (id : ℕ) (f : Funding) (res : Result FundingError (List Task))
    → OnOk (λ us. task id us ≡ task id f.tasks) res
    → OnOk (Leaves id f) (elim res [ err e ↦ err e | ok ts ↦ ok (record f { tasks = ts }) ])
removed-Leaves id f (ok us) same = (same, refl)
removed-Leaves id f (err e) same = tt

without_task-Leaves :
    (id r : ℕ) (f : Funding) → (r == id) ≡ false → OnOk (Leaves id f) (without_task r f)
without_task-Leaves id r f other =
    let apart : (id == r) ≡ false = ground (arith, other) in
    removed-Leaves id f (delete_task r f.tasks) (task-delete_task r id f.tasks apart)

pub Others-Leaves : (id : ℕ) (f g : Funding) → Others id f g → Leaves id f g
Others-Leaves id f _ nothing = (refl, refl)
Others-Leaves id f h (run_entered r g _ past other e) =
    Leaves-trans id f g h (Others-Leaves id f g past)
      (subst (OnOk (Leaves id g)) e (begin_run-Leaves id r g other))
Others-Leaves id f _ (task_saved t g past other) =
    Leaves-trans id f g (save t g) (Others-Leaves id f g past) (save-Leaves id t g other)
Others-Leaves id f _ (run_cleared r g past other) =
    Leaves-trans id f g (clear_funding_run r g) (Others-Leaves id f g past)
      (clear_funding_run-Leaves id r g other)
Others-Leaves id f h (task_removed r g _ past other e) =
    Leaves-trans id f g h (Others-Leaves id f g past)
      (subst (OnOk (Leaves id g)) e (without_task-Leaves id r g other))

pub task-id : (id : ℕ) (ts : List Task) (t : Task) → task id ts ≡ some t → t.id ≡ id
unfolding task
task-id id [] t found = ground (arith, found)
task-id id (u ∷ ts) t found = elim (Bool-cases (u.id == id)) [
  | inl e ↦ ground (arith, e, found)
  | inr e ↦ task-id id ts t (rw e at found)
]

pub cleared_idle : (id : ℕ) (f : Funding) → elem id (clear_funding_run id f).runs ≡ false
unfolding clear_funding_run
cleared_idle id f = ground (arith, elem-removed id id f.runs)
