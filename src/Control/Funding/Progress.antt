-- ===== src/Control/Funding/Progress.antt =====
-- internal/control/funding_engine.go: what the counters and the final state of a run say.
use pons_mm_desktop.Prelude.{
  ℕ, suc, ◌+◌, ◌-◌, ◌*◌, ◌≤◌, ◌<◌, ◌≡◌, refl, sym, ◌∙◌, ◌⊎◌, Bool, true, false, Bool-cases, inl,
  inr, Option-cases, List, [], ◌∷◌, ◌==◌, if◌then◌else◌, length, arith,
}
use pons_mm_desktop.Prelude.Result.{ok}
use pons_mm_desktop.Control.Funding.{Task, TaskState, stopped, failed, finished}
use pons_mm_desktop.Control.Funding.Route.{
  Split, Sweep, Hop, Wiring, fan_out, sweep_count, transfer_count, transfers, build_hops,
}
use pons_mm_desktop.Control.Funding.Transfers.{
  Answers, estimate_gas, random_near_even_split, exec_split, exec_sweep, exec_splits, exec_sweeps,
  HopAnswers, exec_funding_hop,
}
use pons_mm_desktop.Control.Funding.Amounts.{send_all-counts, length-amounts}
use pons_mm_desktop.Control.Funding.Runs.{run_hops, run_funding_task}

-- A sender that does not fail counts every transfer that it was given.
split-counted :
    (fee : ℕ) (a : Answers) (s : Split)
    → let o = exec_split fee a s in (o.broken ≡ true) ⊎ (o.bumps ≡ length s.to)
unfolding exec_split
split-counted fee a s = elim (Option-cases a.balance) [
  | inl e ↦ rw e (inl refl)
  | inr (balance, e) ↦
      let limit = estimate_gas a.estimate in
      let n = length s.to in
      let spendable = balance - fee * limit * n in
      elim (Bool-cases (balance == 0)) [
        | inl f ↦ rw (e, f) (inr refl)
        | inr f ↦ elim (Bool-cases (spendable == 0)) [
          | inl g ↦ rw (e, f, g) (inr refl)
          | inr g ↦ elim (Option-cases a.nonce) [
            | inl h ↦ rw (e, f, g, h) (inl refl)
            | inr (nonce, h) ↦
                rw (e, f, g, h)
                  (send_all-counts a.accepted limit nonce 0 s.to
                    (random_near_even_split spendable n a.random)
                    (sym (length-amounts spendable n a.random))).1
          ]
        ]
      ]
]

sweep-counted :
    (fee : ℕ) (a : Answers) (s : Sweep)
    → let o = exec_sweep fee a s in (o.broken ≡ true) ⊎ (o.bumps ≡ 1)
unfolding exec_sweep
sweep-counted fee a s = elim (Option-cases a.balance) [
  | inl e ↦ rw e (inl refl)
  | inr (balance, e) ↦
      let amount = balance - fee * estimate_gas a.estimate in
      elim (Bool-cases (balance == 0)) [
        | inl f ↦ rw (e, f) (inr refl)
        | inr f ↦ elim (Bool-cases (amount == 0)) [
          | inl g ↦ rw (e, f, g) (inr refl)
          | inr g ↦ elim (Option-cases a.nonce) [
            | inl h ↦ rw (e, f, g, h) (inl refl)
            | inr (nonce, h) ↦ elim (Bool-cases (a.accepted 0)) [
              | inl k ↦ rw (e, f, g, h, k) (inr refl)
              | inr k ↦ rw (e, f, g, h, k) (inl refl)
            ]
          ]
        ]
      ]
]

splits-counted :
    (fee : ℕ) (answer : ℕ → Answers) (splits : List Split)
    → let r = exec_splits fee answer splits in (r.1 ≡ false) ⊎ (r.0 ≡ fan_out splits)
unfolding exec_splits
splits-counted fee answer [] = inr refl
splits-counted fee answer (s ∷ ss) =
    ground (arith, split-counted fee (answer s.from) s, splits-counted fee answer ss)

sweeps-counted :
    (fee : ℕ) (answer : ℕ → Answers) (sweeps : List Sweep)
    → let r = exec_sweeps fee answer sweeps in (r.1 ≡ false) ⊎ (r.0 ≡ sweep_count sweeps)
unfolding exec_sweeps
sweeps-counted fee answer [] = inr refl
sweeps-counted fee answer (s ∷ ss) =
    ground (arith, sweep-counted fee (answer s.from) s, sweeps-counted fee answer ss)

hop-counted :
    (a : HopAnswers) (hop : Hop)
    → let r = exec_funding_hop a hop in (r.1 ≡ false) ⊎ (r.0 ≡ transfer_count hop)
unfolding exec_funding_hop transfer_count
hop-counted a hop = elim (Option-cases a.fee_cap) [
  | inl e ↦ rw e (inl refl)
  | inr (fee, e) ↦ rw e (
      ground
        (arith, splits-counted fee a.answer hop.splits, sweeps-counted fee a.answer hop.sweeps))
]

-- The hops before the first that returns an error.
pub settled : (ℕ → HopAnswers) → ℕ → List Hop → ℕ
settled answers i [] = 0
settled answers i (hop ∷ hops) =
    let later = settled answers (i + 1) hops in
    if (exec_funding_hop (answers i) hop).1 then suc later else 0

settled-le :
    (answers : ℕ → HopAnswers) (i : ℕ) (hops : List Hop) → settled answers i hops ≤ length hops
unfolding settled
settled-le answers i [] = omega arith
settled-le answers i (hop ∷ hops) = ground (arith, settled-le answers (i + 1) hops)

-- The state that a run ends in.
pub verdict : Bool → ℕ → List Hop → TaskState
verdict cancelled done hops =
    if done == length hops then finished else if cancelled then stopped else failed

verdict-first :
    (cancelled : Bool) (hop : Hop) (hops : List Hop)
    → verdict cancelled 0 (hop ∷ hops) ≡ (if cancelled then stopped else failed)
unfolding verdict
verdict-first cancelled hop hops =
    let differs : (0 == suc (length hops)) ≡ false = ground arith in rw differs refl

verdict-next :
    (cancelled : Bool) (done : ℕ) (hop : Hop) (hops : List Hop)
    → verdict cancelled (suc done) (hop ∷ hops) ≡ verdict cancelled done hops
unfolding verdict
verdict-next cancelled done hop hops =
    let same : (suc done == suc (length hops)) ≡ (done == length hops) = ground arith in
    rw same refl

-- What a run from hop i on leaves in the record.
record Ran (cancelled : Bool) (done i : ℕ) (hops : List Hop) (t : Task) (r : Task × TaskState)
    : Type 0 where
  state : r.1 ≡ verdict cancelled done hops
  hops_done : r.0.hops_done ≡ i + done
  counted : (done < length hops) ⊎ (r.0.transfers_done ≡ t.transfers_done + transfers hops)
  hops_total : r.0.hops_total ≡ t.hops_total
  transfers_total : r.0.transfers_total ≡ t.transfers_total

run_hops-Ran :
    (answers : ℕ → HopAnswers) (cancelled : Bool) (i : ℕ) (hops : List Hop) (t : Task)
    → t.hops_done ≡ i
    → Ran cancelled (settled answers i hops) i hops t (run_hops answers cancelled i hops t)
unfolding run_hops settled verdict transfers
run_hops-Ran answers cancelled i [] t same = record {
  state = refl;
  hops_done = omega (arith, same);
  counted = inr (omega arith);
  hops_total = refl;
  transfers_total = refl;
}
run_hops-Ran answers cancelled i (hop ∷ hops) t same =
    let bumps = (exec_funding_hop (answers i) hop).0 in
    let moved : Task = record t { transfers_done = t.transfers_done + bumps; hops_done = i + 1 } in
    let ran = run_hops-Ran answers cancelled (i + 1) hops moved refl in
    let done = settled answers (i + 1) hops in
    let le = settled-le answers (i + 1) hops in
    elim (Bool-cases (exec_funding_hop (answers i) hop).1) [
      | inl e ↦ rw e record {
        state = ran.state ∙ sym (verdict-next cancelled done hop hops);
        hops_done = omega (arith, ran.hops_done);
        counted = elim ran.counted [
          | inl lt ↦ inl (omega (arith, lt))
          | inr all ↦ elim (hop-counted (answers i) hop) [
            | inl f ↦ ground (arith, e, f)
            | inr f ↦ inr (omega (arith, all, f))
          ]
        ];
        hops_total = ran.hops_total;
        transfers_total = ran.transfers_total;
      }
      | inr e ↦ rw e record {
        state = sym (verdict-first cancelled hop hops);
        hops_done = omega (arith, same);
        counted = inl (omega arith);
        hops_total = refl;
        transfers_total = refl;
      }
    ]

-- On a task whose counters are 0, a connected run counts the hops before the first that fails, and is
-- done exactly when there is none; then every announced transfer has been counted.
pub run_funding_task_lem :
    (answers : ℕ → HopAnswers) (cancelled : Bool) (w : Wiring) (t : Task) (hops : List Hop)
    → build_hops t.kind w ≡ ok hops
    → t.hops_done ≡ 0
    → t.transfers_done ≡ 0
    → let r = run_funding_task true answers cancelled w t in
      let done = settled answers 0 hops in
      (r.1 ≡ verdict cancelled done hops)
      × (r.0.hops_done ≡ done)
      × (r.0.hops_total ≡ length hops)
      × ((done < length hops) ⊎ (r.0.transfers_done ≡ r.0.transfers_total))
unfolding run_funding_task
run_funding_task_lem answers cancelled w t hops built no_hops no_transfers =
    let begun : Task = record t { hops_total = length hops; transfers_total = transfers hops } in
    let ran = run_hops-Ran answers cancelled 0 hops begun no_hops in
    rw (built, run_funding_task)
      (
        ran.state,
        omega (arith, ran.hops_done),
        ran.hops_total,
        elim ran.counted [
          | inl lt ↦ inl lt
          | inr all ↦ inr (omega (arith, all, no_transfers, ran.transfers_total))
        ],
      )
