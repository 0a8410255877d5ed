-- ===== src/Control/Funding/Counts.antt =====
-- internal/control/funding.go, internal/control/funding_engine.go: the hops and transfers that a new
-- task announces and those of its route.
use pons_mm_desktop.Prelude.{
  ℕ, ◌+◌, ◌*◌, ◌≤◌, ◌<◌, ◌≡◌, refl, sym, ap, ◌∙◌, List, [], ◌∷◌, ◌++◌, length, length-append, arith,
}
use pons_mm_desktop.Control.Funding.{withdraw, new_task}
use pons_mm_desktop.Control.Funding.Route.{
  Split, Sweep, Hop, Wiring, fan_out, sweep_count, transfer_count, transfers, relay_splits, senders,
  sweep_slots, sweep_hop, between, pay_cold, gather, first_batch, last_batch, distribute_hops,
  withdraw_hops,
}
use pons_mm_desktop.Control.Funding.Slices.{recipients, sweepers, Filled, relay_splits-Filled}
use pons_mm_desktop.Control.Funding.Paths.{
  Wired, Sized, paying-cold, sweepers-slots, sweepers-gather, recipients-relay_splits, first-Sized,
  last-Sized,
}

fan_out-recipients : (splits : List Split) → fan_out splits ≡ length (recipients splits)
fan_out-recipients [] = refl
fan_out-recipients (s ∷ ss) =
    omega (arith, fan_out-recipients ss, length-append s.to (recipients ss))

sweep_count-sweepers : (sweeps : List Sweep) → sweep_count sweeps ≡ length (sweepers sweeps)
sweep_count-sweepers [] = refl
sweep_count-sweepers (s ∷ ss) = omega (arith, sweep_count-sweepers ss)

transfers-append : (as' bs : List Hop) → transfers (as' ++ bs) ≡ transfers as' + transfers bs
unfolding transfers
transfers-append [] bs = omega arith
transfers-append (hop ∷ hops) bs = omega (arith, transfers-append hops bs)

slots-count :
    (from to : List ℕ) → length from ≡ length to → transfer_count (sweep_hop from to) ≡ length from
unfolding transfer_count
slots-count from to len = omega (
  arith,
  sweep_count-sweepers (sweep_slots from to),
  ap (λ z. length z) (sweepers-slots from to len),
)

transfers-between :
    (n : ℕ) (b : List ℕ) (bs : List (List ℕ))
    → Sized n (b ∷ bs)
    → transfers (between (b ∷ bs)) ≡ length bs * n
unfolding between transfers Sized
transfers-between n b [] sized = omega arith
transfers-between n b (c ∷ bs) (lb, (lc, sized)) =
    omega (arith, slots-count b c (omega (arith, lb, lc)), transfers-between n c bs (lc, sized), lb)

length-between : (b : List ℕ) (bs : List (List ℕ)) → length (between (b ∷ bs)) ≡ length bs
unfolding between
length-between b [] = refl
length-between b (c ∷ bs) = omega (arith, length-between c bs)

-- As many relays take part as have a slot.
length-senders :
    (r n : ℕ) (batch relays : List ℕ)
    → length (senders (relay_splits r n batch relays)) ≤ length relays
unfolding relay_splits
length-senders r n batch [] = omega arith
length-senders r n batch (relay ∷ relays) = ground (arith, length-senders (r + 1) n batch relays)

between-counts :
    (n : ℕ) (batches : List (List ℕ))
    → Sized n batches
    → length batches ≡ 5
    → (length (between batches) ≡ 4) × (transfers (between batches) ≡ 4 * n)
between-counts n [] sized five = ground (arith, five)
between-counts n (b ∷ bs) sized five = (
  omega (arith, length-between b bs, five),
  omega (
    arith,
    transfers-between n b bs sized,
    ap (λ z. z * n) {x = length bs} {y = 4} (omega (arith, five)),
  ),
)

withdraw-counts :
    (w : Wiring)
    → Wired w
    → (length (withdraw_hops w) ≡ 7) × (transfers (withdraw_hops w) ≡ 10 + 6 * length w.targets)
unfolding transfers transfer_count
withdraw-counts w wired =
    let n = length w.targets in
    let (hop_count, sent) = between-counts n w.batches wired.sized wired.five in
    let pay : Hop = record { splits = []; sweeps = pay_cold w.withdraw_cold w.withdraw_relays } in
    let collect : Hop = record {
      splits = [];
      sweeps = gather 0 n (last_batch w.batches) w.withdraw_relays;
    } in
    let first =
      slots-count w.sources (first_batch w.batches)
        (wired.sourced ∙ sym (first-Sized n w.batches wired.sized wired.five)) in
    (
      omega (arith, length-append (between w.batches) (collect ∷ pay ∷ []), hop_count),
      omega (
        arith,
        transfers-append (between w.batches) (collect ∷ pay ∷ []),
        sent,
        first,
        wired.sourced,
        sweep_count-sweepers collect.sweeps,
        ap (λ z. length z) (sweepers-gather w wired),
        last-Sized n w.batches wired.sized (omega (arith, wired.five)),
        sweep_count-sweepers pay.sweeps,
        ap (λ z. length z) (paying-cold w.withdraw_cold w.withdraw_relays),
        wired.withdrawals,
      ),
    )

some-sender : (splits : List Split) → 0 < length (recipients splits) → 0 < length (senders splits)
some-sender [] h = h
some-sender (s ∷ ss) h = omega arith

distribute-counts :
    (w : Wiring)
    → Wired w
    → (length (distribute_hops w) ≡ 7) × (transfers (distribute_hops w) ≤ 10 + 6 * length w.targets)
unfolding transfers transfer_count
distribute-counts w wired =
    let n = length w.targets in
    let (hop_count, sent) = between-counts n w.batches wired.sized wired.five in
    let splits = relay_splits 0 n (first_batch w.batches) w.deposit_relays in
    let last = last-Sized n w.batches wired.sized (omega (arith, wired.five)) in
    let pay = sweep_hop (last_batch w.batches) w.targets in
    let paid = slots-count (last_batch w.batches) w.targets last in
    (
      omega (arith, length-append (between w.batches) (pay ∷ []), hop_count),
      omega (
        arith,
        transfers-append (between w.batches) (pay ∷ []),
        sent,
        paid,
        last,
        fan_out-recipients splits,
        ap (λ z. length z) (recipients-relay_splits w wired),
        first-Sized n w.batches wired.sized wired.five,
        length-senders 0 n (first_batch w.batches) w.deposit_relays,
        wired.deposits,
      ),
    )

-- A new task announces seven hops, which either route has, and 10 + 6 n transfers for n targets: a
-- withdrawal has exactly as many, a distribution at most as many.
pub new_task-counts :
    (w : Wiring)
    → Wired w
    → (id : ℕ) (mnemonics ids : List ℕ)
    → let total = (new_task id withdraw w.targets mnemonics ids).transfers_total in
      let hop_total = (new_task id withdraw w.targets mnemonics ids).hops_total in
      (length (withdraw_hops w) ≡ hop_total)
      × (transfers (withdraw_hops w) ≡ total)
      × (length (distribute_hops w) ≡ hop_total)
      × (transfers (distribute_hops w) ≤ total)
unfolding new_task
new_task-counts w wired id mnemonics ids =
    let (hop_count, sent) = withdraw-counts w wired in
    let (hop_count', sent') = distribute-counts w wired in (hop_count, sent, hop_count', sent')

-- With at least one target, no sender of a distribution divides its balance among no recipients.
pub distribute-Filled :
    (w : Wiring)
    → Wired w
    → 0 < length w.targets
    → let splits = relay_splits 0 (length w.targets) (first_batch w.batches) w.deposit_relays in
      Filled splits × (0 < length (senders splits))
distribute-Filled w wired some_target =
    let n = length w.targets in
    let first = first-Sized n w.batches wired.sized wired.five in
    let splits = relay_splits 0 n (first_batch w.batches) w.deposit_relays in
    (
      relay_splits-Filled 0 n (first_batch w.batches) w.deposit_relays first
          (omega (arith, wired.deposits)),
      some-sender splits
          (omega (arith, ap (λ z. length z) (recipients-relay_splits w wired), first, some_target)),
    )
