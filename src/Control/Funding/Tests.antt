-- ===== src/Control/Funding/Tests.antt =====
-- The funding planner and engine with two targets, ten relays on either side and five batches.
use pons_mm_desktop.Prelude.{
  ℕ, ◌+◌, ◌≤◌, ◌<◌, ◌≡◌, ◌⊎◌, refl, true, false, none, some, List, [], ◌∷◌, elem, length, arith,
}
use pons_mm_desktop.Prelude.Result.{ok}
use pons_mm_desktop.Control.Funding.{
  FundingConfig, Task, stopped, distribute, withdraw, new_task, task, deposit_cold_role,
  generate_funding_wallets, parse_funding_addresses, parse_fields, max_funding_targets, complete,
  load_tasks,
}
use pons_mm_desktop.Control.Funding.Route.{Split, Hop, Wiring, build_hops, distribute_hops}
use pons_mm_desktop.Control.Funding.Paths.{Reaches, Sized, Wired, build_hops-Reaches}
use pons_mm_desktop.Control.Funding.Fixed.{
  Pinned, generated, unchanged, then_configured, History-Pinned,
}
use pons_mm_desktop.Control.Funding.Transfers.{Answers, exec_split, HopAnswers}
use pons_mm_desktop.Control.Funding.Amounts.{WithinMeans, Numbered, exec_split-WithinMeans}
use pons_mm_desktop.Control.Funding.Runs.{
  Funding, as_running, finish_run, delete_funding_task, run_funding_task,
}
use pons_mm_desktop.Control.Funding.Progress.{settled, verdict, run_funding_task_lem}
use pons_mm_desktop.Control.Funding.Sections.{state_of}
use pons_mm_desktop.Control.Funding.Interrupting.{start_again, finish_run-interrupted}
use pons_mm_desktop.Control.Funding.Parsing.{Spelled, parse_funding_addresses-Spelled}
use pons_mm_desktop.Control.Funding.Retry.{transient, attempts, funding_rpc, funding_rpc-ends}

abbrev ten : ℕ → List ℕ
ten k =
    k ∷ (k + 1) ∷ (k + 2) ∷ (k + 3) ∷ (k + 4) ∷ (k + 5) ∷ (k + 6) ∷ (k + 7) ∷ (k + 8) ∷ (k + 9) ∷ []

abbrev wiring : Wiring
wiring = record {
  cold = 1;
  deposit_relays = ten 10;
  withdraw_relays = ten 20;
  withdraw_cold = 2;
  batches = (31 ∷ 32 ∷ []) ∷ (41 ∷ 42 ∷ []) ∷ (51 ∷ 52 ∷ []) ∷ (61 ∷ 62 ∷ []) ∷ (71 ∷ 72 ∷ []) ∷ [];
  sources = 81 ∷ 82 ∷ [];
  targets = 91 ∷ 92 ∷ [];
}

sized : Sized 2 wiring.batches
unfolding Sized
sized = (refl, (refl, (refl, (refl, (refl, tt)))))

wired : Wired wiring
wired = record { deposits = refl; withdrawals = refl; five = refl; sized = sized; sourced = refl }

build_hops-Reaches_example :
    ((hops : List Hop) × (build_hops distribute wiring ≡ ok hops)
      × Reaches (1 ∷ []) (91 ∷ 92 ∷ []) hops)
    × ((hops : List Hop) × (build_hops withdraw wiring ≡ ok hops)
        × Reaches (81 ∷ 82 ∷ []) (2 ∷ []) hops)
build_hops-Reaches_example = build_hops-Reaches wiring wired

abbrev unset : FundingConfig
unset = record {
  deposit_cold = none;
  deposit_relays = [];
  withdraw_relays = ten 20;
  withdraw_cold = 2;
}

abbrev with_cold : FundingConfig
with_cold = record unset { deposit_cold = some 1 }

cold_generated :
    generate_funding_wallets deposit_cold_role true (some (1 ∷ [])) unset ≡ ok with_cold
unfolding generate_funding_wallets
cold_generated = refl

History-Pinned_example : Pinned unset with_cold
History-Pinned_example = History-Pinned unset with_cold (
    then_configured unset unset with_cold (unchanged unset)
      (generated deposit_cold_role true (some (1 ∷ [])) unset with_cold cold_generated))

abbrev rich : Answers
rich = record {
  balance = some 1000000;
  estimate = some 40000;
  nonce = some 4;
  accepted = λ i. true;
  random = λ i. 150;
}

abbrev two_ways : Split
two_ways = record { from = 10; to = 31 ∷ 32 ∷ [] }

exec_split-WithinMeans_example :
    let o = exec_split 2 rich two_ways in WithinMeans 2 1000000 2 o × Numbered (some 4) o.payments
exec_split-WithinMeans_example = exec_split-WithinMeans 2 1000000 rich two_ways refl (omega arith)

abbrev smooth : ℕ → HopAnswers
smooth i = record { fee_cap = some 2; answer = λ a. rich; confirmed = true }

abbrev new_one : Task
new_one = new_task 7 distribute wiring.targets [] []

is_distribute : build_hops new_one.kind wiring ≡ ok (distribute_hops wiring)
unfolding build_hops new_task
is_distribute = refl

zero_hops : new_one.hops_done ≡ 0
unfolding new_task
zero_hops = refl

zero_transfers : new_one.transfers_done ≡ 0
unfolding new_task
zero_transfers = refl

run_funding_task_lem_example :
    let r = run_funding_task true smooth false wiring new_one in
    let done = settled smooth 0 (distribute_hops wiring) in
    (r.1 ≡ verdict false done (distribute_hops wiring))
    × (r.0.hops_done ≡ done)
    × (r.0.hops_total ≡ length (distribute_hops wiring))
    × ((done < length (distribute_hops wiring)) ⊎ (r.0.transfers_done ≡ r.0.transfers_total))
run_funding_task_lem_example =
    run_funding_task_lem smooth false wiring new_one (distribute_hops wiring) is_distribute
      zero_hops zero_transfers

abbrev configured : FundingConfig
configured = record with_cold { deposit_relays = ten 10 }

abbrev at_start : Funding
at_start = record { tasks = load_tasks (new_one ∷ []); runs = [] }

abbrev one_running : Funding
one_running = record { tasks = as_running new_one ∷ []; runs = 7 ∷ [] }

stored_one : task new_one.id one_running.tasks ≡ some (as_running new_one)
unfolding task new_task
stored_one = refl

complete_one : complete configured ≡ true
unfolding complete
complete_one = refl

finish_run-interrupted_example :
    let g = finish_run (start_again new_one.id configured) new_one stopped one_running in
    (elem new_one.id g.runs ≡ true)
    × (state_of (task new_one.id g.tasks) ≡ some stopped)
    × ((elem new_one.id one_running.runs ≡ true)
        ⊎ ((h : Funding) × (delete_funding_task
                (start_again new_one.id configured)
                new_one.id
                one_running
              ≡ ok h)
            × (elem new_one.id h.runs ≡ true)))
finish_run-interrupted_example =
    finish_run-interrupted new_one (as_running new_one) stopped configured one_running stored_one
      complete_one

parsed_two : parse_funding_addresses (λ f. some f) (91 ∷ 92 ∷ []) ≡ ok (91 ∷ 92 ∷ [])
unfolding parse_funding_addresses parse_fields
parsed_two = refl

parse_funding_addresses-Spelled_example :
    Spelled (λ f. some f) [] (91 ∷ 92 ∷ []) (91 ∷ 92 ∷ [])
    × (0 < length {A = ℕ} (91 ∷ 92 ∷ []))
    × (length {A = ℕ} (91 ∷ 92 ∷ []) ≤ max_funding_targets)
parse_funding_addresses-Spelled_example =
    parse_funding_addresses-Spelled (λ f. some f) (91 ∷ 92 ∷ []) (91 ∷ 92 ∷ []) parsed_two

funding_rpc-ends_example :
    (attempts (λ n. transient n) (λ n. true) (λ n. true) 20 1
      ≡ funding_rpc (λ n. transient n) (λ n. true) (λ n. true))
    × ((funding_rpc (λ n. transient n) (λ n. true) (λ n. true)).0 ≤ 6)
funding_rpc-ends_example =
    funding_rpc-ends (λ n. transient n) (λ n. true) (λ n. true) 20 (omega arith)
