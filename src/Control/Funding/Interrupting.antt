-- ===== src/Control/Funding/Interrupting.antt =====
-- What a start does in the gap of an end or of a deletion (`StartFundingTask`, `DeleteFundingTask` and
-- `finish` in internal/control/funding.go and internal/control/funding_engine.go).
use pons_mm_desktop.Prelude.{
  ℕ, ◌≡◌, ◌⊎◌, refl, ap, ◌∙◌, true, false, Bool-cases, inl, inr, some, List, [], ◌∷◌, ◌==◌, elem,
  arith,
}
use pons_mm_desktop.Prelude.Result.{Result, ok, err}
use pons_mm_desktop.Control.Funding.{
  FundingConfig, FundingError, Task, TaskState, task, save_task, delete_task, complete,
}
use pons_mm_desktop.Control.Funding.Runs.{
  Funding, admit, begin_run, as_running, save, start_funding_task, clear_funding_run, finish_run,
  delete_funding_task, Gap, alone, without_task,
}
use pons_mm_desktop.Control.Funding.Sections.{state_of, save-found, task-id, cleared_idle}

abbrev or_same : Funding → Result FundingError Funding → Funding
or_same f (ok g) = g
or_same f (err e) = f

abbrev pub attempt : (Funding → Result FundingError Funding) → Gap
attempt handler f = or_same f (handler f)

abbrev pub start_again : ℕ → FundingConfig → Gap
start_again id c = attempt (start_funding_task alone alone id true true true c)

admitted :
    (id : ℕ) (c : FundingConfig) (t : Task) (f : Funding)
    → task id f.tasks ≡ some t
    → complete c ≡ true
    → admit id true true true c f ≡ ok t
unfolding admit
admitted id c t f found ready = rw (found, admit, ready) refl

begins :
    (id : ℕ) (f : Funding)
    → elem id f.runs ≡ false
    → begin_run id f ≡ ok (record f { runs = id ∷ f.runs })
unfolding begin_run
begins id f free = rw (free, begin_run) refl

abbrev entered : Task → Result FundingError Funding → Result FundingError Funding
entered t res = elim res [ err e ↦ err e | ok g ↦ ok (save (as_running t) g) ]

start_again-begins :
    (id : ℕ) (c : FundingConfig) (t : Task) (f : Funding)
    → task id f.tasks ≡ some t
    → elem id f.runs ≡ false
    → complete c ≡ true
    → start_again id c f ≡ save (as_running t) (record f { runs = id ∷ f.runs })
unfolding start_funding_task
start_again-begins id c t f found free ready =
    ap (λ res. or_same f (elim res [ err e ↦ err e | ok u ↦ entered u (begin_run id f) ]))
      (admitted id c t f found ready)
    ∙ ap (λ res. or_same f (entered t res)) (begins id f free)

without_task-ok :
    (id : ℕ) (f : Funding) (us : List Task)
    → delete_task id f.tasks ≡ ok us
    → without_task id f ≡ ok (record f { tasks = us })
without_task-ok id f us gone =
    ap (λ res. elim res [ err e ↦ err e | ok ts ↦ ok (record f { tasks = ts }) ]) gone

-- A task that was just saved can be deleted.
delete_task-save_task :
    (id : ℕ) (t : Task) (ts : List Task)
    → (t.id == id) ≡ true
    → (us : List Task) × (delete_task id (save_task t ts) ≡ ok us)
unfolding delete_task save_task
delete_task-save_task id t [] e = ([], rw e refl)
delete_task-save_task id t (u ∷ ts) e = elim (Bool-cases (u.id == t.id)) [
  | inl f ↦ (ts, rw (f, e) refl)
  | inr f ↦
      let (us, same) = delete_task-save_task id t ts e in
      let differs : (u.id == id) ≡ false = ground (arith, e, f) in
      (u ∷ us, rw (f, differs, same) refl)
]

-- A stored task is started in a gap of another handler, with the confirmation, a complete configuration, an
-- endpoint and an unlocked vault. If the gap is that of the end of its old run, between the release of the
-- run and the save, the new run is active while its task is shown in the state in which the old one ended.
-- If it is that of a deletion while no run is active, between the check and the removal, the deletion
-- succeeds and the new run is active.
pub finish_run-interrupted :
    (t u : Task) (state : TaskState) (c : FundingConfig) (f : Funding)
    → task t.id f.tasks ≡ some u
    → complete c ≡ true
    → let g = finish_run (start_again t.id c) t state f in
      (elem t.id g.runs ≡ true)
      × (state_of (task t.id g.tasks) ≡ some state)
      × ((elem t.id f.runs ≡ true)
          ⊎ ((h : Funding) × (delete_funding_task (start_again t.id c) t.id f ≡ ok h)
              × (elem t.id h.runs ≡ true)))
unfolding finish_run state_of delete_funding_task clear_funding_run
finish_run-interrupted t u state c f found ready =
    let cleared = clear_funding_run t.id f in
    let over : Task = record t { state = state } in
    let again = start_again-begins t.id c u cleared found (cleared_idle t.id f) ready in
    (
      rw again (ground arith),
      ap state_of (save-found over (start_again t.id c cleared)),
      elim (Bool-cases (elem t.id f.runs)) [
        | inl e ↦ inl e
        | inr e ↦
            let same : (u.id == t.id) ≡ true = ground (arith, task-id t.id f.tasks u found) in
            let (us, gone) = delete_task-save_task t.id (as_running u) f.tasks same in
            let begun : Funding = save (as_running u) (record f { runs = t.id ∷ f.runs }) in
            inr (
              record f { tasks = us; runs = t.id ∷ f.runs },
              rw e (
                  ap (without_task t.id) (start_again-begins t.id c u f found e ready)
                  ∙ without_task-ok t.id begun us gone),
              ground arith,
            )
      ],
    )
