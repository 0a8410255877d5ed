-- ===== src/Control/Funding/Paths.antt =====
-- internal/control/funding_engine.go: the route of a task. Every wallet that a hop funds sends in the
-- next hop, and the counts that a task announces are those of its hops.
use pons_mm_desktop.Prelude.{
  ℕ, ◌+◌, ◌*◌, ◌/◌, ◌<◌, ◌≡◌, refl, sym, ap, ◌∙◌, true, ◌||◌, List, [], ◌∷◌, ◌++◌, ◌==◌, length,
  drop, elem, arith,
}
use pons_mm_desktop.Prelude.Result.{ok}
use pons_mm_desktop.Control.Funding.{distribute, withdraw}
use pons_mm_desktop.Control.Funding.Route.{
  Sweep, Hop, Wiring, relay_splits, senders, relay_slice, slice, sweep_slots, sweep_hop, between,
  sweeps_to, gather, pay_cold, first_batch, last_batch, distribute_hops, withdraw_hops, build_hops,
}
use pons_mm_desktop.Control.Funding.Slices.{recipients, sweepers, drop-relay_splits, drop-gather}

abbrev pub receivers : List Sweep → List ℕ
receivers [] = []
receivers (s ∷ ss) = s.to ∷ receivers ss

abbrev pub paying : Hop → List ℕ
paying hop = senders hop.splits ++ sweepers hop.sweeps

abbrev pub paid : Hop → List ℕ
paid hop = recipients hop.splits ++ receivers hop.sweeps

pub Within : List ℕ → List ℕ → Type 0
Within as' bs = (a : ℕ) → elem a as' ≡ true → elem a bs ≡ true

-- What `held` holds is sent on by every hop, until only `ends` hold it.
pub Reaches : List ℕ → List ℕ → List Hop → Type 0
unfolding Within
Reaches held ends [] = Within held ends
Reaches held ends (hop ∷ hops) = Within held (paying hop) × Reaches (paid hop) ends hops

unfoldable pub Sized : ℕ → List (List ℕ) → Type 0
Sized n [] = Unit {0}
Sized n (b ∷ bs) = (length b ≡ n) × Sized n bs

pub sweepers-slots :
    (from to : List ℕ) → length from ≡ length to → sweepers (sweep_slots from to) ≡ from
unfolding sweep_slots
sweepers-slots [] to len = refl
sweepers-slots (f ∷ fs) [] len = ground (arith, len)
sweepers-slots (f ∷ fs) (t ∷ ts) len = ap (λ z. f ∷ z) (sweepers-slots fs ts (omega (arith, len)))

receivers-slots :
    (from to : List ℕ) → length from ≡ length to → receivers (sweep_slots from to) ≡ to
unfolding sweep_slots
receivers-slots [] [] len = refl
receivers-slots [] (t ∷ ts) len = ground (arith, len)
receivers-slots (f ∷ fs) [] len = ground (arith, len)
receivers-slots (f ∷ fs) (t ∷ ts) len = ap (λ z. t ∷ z) (receivers-slots fs ts (omega (arith, len)))

-- A hop from slot to slot sends on what its senders hold.
slots-Reaches :
    (from to ends : List ℕ) (hops : List Hop)
    → length from ≡ length to
    → Reaches to ends hops
    → Reaches from ends (sweep_hop from to ∷ hops)
unfolding Reaches Within
slots-Reaches from to ends hops len next =
    rw (sweepers-slots from to len) (rw (receivers-slots from to len) ((λ a h. h), next))

between-Reaches :
    (n : ℕ) (batches : List (List ℕ)) (ends : List ℕ) (hops : List Hop)
    → Sized n batches
    → Reaches (last_batch batches) ends hops
    → Reaches (first_batch batches) ends (between batches ++ hops)
unfolding between Sized
between-Reaches n [] ends hops sized next = next
between-Reaches n (b ∷ []) ends hops sized next = next
between-Reaches n (b ∷ c ∷ bs) ends hops (lb, (lc, sized)) next =
    slots-Reaches b c ends (between (c ∷ bs) ++ hops) (omega (arith, lb, lc))
      (between-Reaches n (c ∷ bs) ends hops (lc, sized) next)

pub append-nil : (held : List ℕ) → held ++ [] ≡ held
append-nil [] = refl
append-nil (a ∷ as') = ap (λ z. a ∷ z) (append-nil as')

-- What is gathered stands on the withdraw relays.
sweeps_to-receivers :
    (a relay : ℕ) (batch : List ℕ) (rest : List Sweep)
    → elem a (receivers (sweeps_to relay batch ++ rest)) ≡ true
    → (a == relay || elem a (receivers rest)) ≡ true
sweeps_to-receivers a relay [] rest h = ground (arith, h)
sweeps_to-receivers a relay (b ∷ bs) rest h = ground (arith, h, sweeps_to-receivers a relay bs rest)

gather-Within :
    (r n : ℕ) (batch relays : List ℕ) → Within (receivers (gather r n batch relays)) relays
unfolding Within gather relay_slice
gather-Within r n batch [] a h = h
gather-Within r n batch (relay ∷ relays) a h =
    let rest = gather (r + 1) n batch relays in
    let found = sweeps_to-receivers a relay (slice (r * n / 10) ((r + 1) * n / 10) batch) rest h in
    ground (arith, found, gather-Within (r + 1) n batch relays a)

pub paying-cold : (cold : ℕ) (relays : List ℕ) → sweepers (pay_cold cold relays) ≡ relays
paying-cold cold [] = refl
paying-cold cold (relay ∷ relays) = ap (λ z. relay ∷ z) (paying-cold cold relays)

paid-cold : (cold : ℕ) (relays : List ℕ) → Within (receivers (pay_cold cold relays)) (cold ∷ [])
unfolding Within
paid-cold cold [] a h = ground (arith, h)
paid-cold cold (relay ∷ relays) a h = ground (arith, h, paid-cold cold relays a)

-- The ten relays of either side, the batches and the sources of a task with its number of targets.
pub record Wired (w : Wiring) : Type 0 where
  pub deposits : length w.deposit_relays ≡ 10
  pub withdrawals : length w.withdraw_relays ≡ 10
  pub five : length w.batches ≡ 5
  pub sized : Sized (length w.targets) w.batches
  pub sourced : length w.sources ≡ length w.targets

pub first-Sized :
    (n : ℕ) (batches : List (List ℕ))
    → Sized n batches
    → length batches ≡ 5
    → length (first_batch batches) ≡ n
unfolding Sized
first-Sized n [] sized five = ground (arith, five)
first-Sized n (b ∷ bs) (len, sized) five = len

pub last-Sized :
    (n : ℕ) (batches : List (List ℕ))
    → Sized n batches
    → 0 < length batches
    → length (last_batch batches) ≡ n
unfolding Sized
last-Sized n [] sized filled = ground (arith, filled)
last-Sized n (b ∷ []) (len, sized) filled = len
last-Sized n (b ∷ c ∷ bs) (len, sized) filled = last-Sized n (c ∷ bs) sized (omega arith)

first-slot : (n : ℕ) → 0 * n / 10 ≡ 0
first-slot n = omega arith

pub recipients-relay_splits :
    (w : Wiring)
    → Wired w
    → recipients (relay_splits 0 (length w.targets) (first_batch w.batches) w.deposit_relays)
      ≡ first_batch w.batches
recipients-relay_splits w wired =
    let n = length w.targets in
    let batch = first_batch w.batches in
    drop-relay_splits 0 n batch w.deposit_relays (first-Sized n w.batches wired.sized wired.five)
      (omega (arith, wired.deposits))
    ∙ ap (λ z. drop z batch) (first-slot n)

pub sweepers-gather :
    (w : Wiring)
    → Wired w
    → sweepers (gather 0 (length w.targets) (last_batch w.batches) w.withdraw_relays)
      ≡ last_batch w.batches
sweepers-gather w wired =
    let n = length w.targets in
    let batch = last_batch w.batches in
    drop-gather 0 n batch w.withdraw_relays
      (last-Sized n w.batches wired.sized (omega (arith, wired.five)))
      (omega (arith, wired.withdrawals))
    ∙ ap (λ z. drop z batch) (first-slot n)

distribute-Reaches : (w : Wiring) → Wired w → Reaches (w.cold ∷ []) w.targets (distribute_hops w)
unfolding Reaches Within
distribute-Reaches w wired =
    let n = length w.targets in
    let split = recipients-relay_splits w wired in
    let final =
      slots-Reaches (last_batch w.batches) w.targets w.targets []
        (last-Sized n w.batches wired.sized (omega (arith, wired.five))) (λ a h. h) in
    let splits = relay_splits 0 n (first_batch w.batches) w.deposit_relays in
    let onward =
      between-Reaches n w.batches w.targets (sweep_hop (last_batch w.batches) w.targets ∷ [])
        wired.sized final in
    rw (append-nil (senders splits)) (
      rw (append-nil (recipients splits))
        (rw split ((λ a h. h), ((λ a h. rw (append-nil (senders splits)) at h), onward))))

withdraw-Reaches :
    (w : Wiring) → Wired w → Reaches w.sources (w.withdraw_cold ∷ []) (withdraw_hops w)
unfolding Reaches Within
withdraw-Reaches w wired =
    let n = length w.targets in
    let cold = w.withdraw_cold in
    let relays = w.withdraw_relays in
    let pay : Hop = record { splits = []; sweeps = pay_cold cold relays } in
    let collect : Hop = record { splits = []; sweeps = gather 0 n (last_batch w.batches) relays } in
    let paid_out : Reaches relays (cold ∷ []) (pay ∷ []) =
      (rw (paying-cold cold relays) (λ a h. h), paid-cold cold relays) in
    let gathered : Reaches (last_batch w.batches) (cold ∷ []) (collect ∷ pay ∷ []) = (
      rw (sweepers-gather w wired) (λ a h. h),
      (
        rw (paying-cold cold relays) (gather-Within 0 n (last_batch w.batches) relays),
        paid-cold cold relays,
      ),
    ) in
    slots-Reaches w.sources (first_batch w.batches) (cold ∷ [])
      (between w.batches ++ (collect ∷ pay ∷ []))
      (wired.sourced ∙ sym (first-Sized n w.batches wired.sized wired.five))
      (between-Reaches n w.batches (cold ∷ []) (collect ∷ pay ∷ []) wired.sized gathered)

-- For a task of either kind, every wallet that a hop of `buildFundingHops` pays is a sender of the
-- next hop, from the cold wallet on until only the targets hold the coins, and from the sources on
-- until only the withdrawal's cold wallet does.
pub build_hops-Reaches :
    (w : Wiring)
    → Wired w
    → ((hops : List Hop) × (build_hops distribute w ≡ ok hops)
        × Reaches (w.cold ∷ []) w.targets hops)
      × ((hops : List Hop) × (build_hops withdraw w ≡ ok hops)
          × Reaches w.sources (w.withdraw_cold ∷ []) hops)
unfolding build_hops
build_hops-Reaches w wired = (
  (distribute_hops w, refl, distribute-Reaches w wired),
  (withdraw_hops w, refl, withdraw-Reaches w wired),
)
