-- ===== src/Control/Funding/Route.antt =====
-- internal/control/funding_engine.go: the hops of a task (`buildFundingHops` and `relaySlice`). A
-- signer is its address; names of hops are left out. `batches` are the wallets that are derived from
-- the mnemonics, one list of `n` for each, where `n` is the number of targets.
use pons_mm_desktop.Prelude.{
  ℕ, ◌+◌, ◌-◌, ◌*◌, ◌/◌, List, [], ◌∷◌, ◌++◌, ◌==◌, if◌then◌else◌, length, take, drop,
}
use pons_mm_desktop.Prelude.Result.{Result, ok, err}
use pons_mm_desktop.Control.Funding.{
  FundingError, unknown_kind, TaskKind, distribute, withdraw, other_kind, funding_relay_count,
}

-- One sender fans out to several recipients.
pub record Split : Type 0 where
  pub from : ℕ
  pub to : List ℕ

-- One sender forwards all to one recipient.
pub record Sweep : Type 0 where
  pub from : ℕ
  pub to : ℕ

pub record Hop : Type 0 where
  pub splits : List Split
  pub sweeps : List Sweep

abbrev pub fan_out : List Split → ℕ
fan_out [] = 0
fan_out (s ∷ ss) = length s.to + fan_out ss

abbrev pub sweep_count : List Sweep → ℕ
sweep_count [] = 0
sweep_count (s ∷ ss) = 1 + sweep_count ss

unfoldable pub transfer_count : Hop → ℕ
transfer_count hop = sweep_count hop.sweeps + fan_out hop.splits

-- The slots of relay `r`: start and end.
unfoldable pub relay_slice : ℕ → ℕ → ℕ × ℕ
relay_slice r n = (r * n / funding_relay_count, (r + 1) * n / funding_relay_count)

abbrev pub slice : ℕ → ℕ → List ℕ → List ℕ
slice start end xs = take (end - start) (drop start xs)

-- The loop over the deposit relays from relay `r` on.
unfoldable pub relay_splits : ℕ → ℕ → List ℕ → List ℕ → List Split
unfolding relay_slice
relay_splits r n batch [] = []
relay_splits r n batch (relay ∷ relays) =
    let (start, end) = relay_slice r n in
    let rest = relay_splits (r + 1) n batch relays in
    if start == end then rest else record { from = relay; to = slice start end batch } ∷ rest

abbrev pub senders : List Split → List ℕ
senders [] = []
senders (s ∷ ss) = s.from ∷ senders ss

-- `sweepHop`: slot by slot.
unfoldable pub sweep_slots : List ℕ → List ℕ → List Sweep
sweep_slots [] to = []
sweep_slots (f ∷ fs) [] = []
sweep_slots (f ∷ fs) (t ∷ ts) = record { from = f; to = t } ∷ sweep_slots fs ts

abbrev pub sweep_hop : List ℕ → List ℕ → Hop
sweep_hop from to = record { splits = []; sweeps = sweep_slots from to }

-- The loop in which each batch forwards to the next.
unfoldable pub between : List (List ℕ) → List Hop
unfolding sweep_slots
between [] = []
between (b ∷ []) = []
between (b ∷ c ∷ bs) = sweep_hop b c ∷ between (c ∷ bs)

abbrev pub sweeps_to : ℕ → List ℕ → List Sweep
sweeps_to to [] = []
sweeps_to to (f ∷ fs) = record { from = f; to = to } ∷ sweeps_to to fs

-- The loop that gathers the last batch into the withdraw relays, from relay `r` on.
unfoldable pub gather : ℕ → ℕ → List ℕ → List ℕ → List Sweep
unfolding relay_slice
gather r n batch [] = []
gather r n batch (relay ∷ relays) =
    let (start, end) = relay_slice r n in
    sweeps_to relay (slice start end batch) ++ gather (r + 1) n batch relays

-- Each withdraw relay pays the cold address.
abbrev pub pay_cold : ℕ → List ℕ → List Sweep
pay_cold cold [] = []
pay_cold cold (relay ∷ relays) = record { from = relay; to = cold } ∷ pay_cold cold relays

-- The signers and addresses of a task: `cold` of the deposits, `withdraw_cold` of the withdrawals.
pub record Wiring : Type 0 where
  pub cold : ℕ
  pub deposit_relays : List ℕ
  pub withdraw_relays : List ℕ
  pub withdraw_cold : ℕ
  pub batches : List (List ℕ)
  pub sources : List ℕ
  pub targets : List ℕ

abbrev pub first_batch : List (List ℕ) → List ℕ
first_batch [] = []
first_batch (b ∷ bs) = b

abbrev pub last_batch : List (List ℕ) → List ℕ
last_batch [] = []
last_batch (b ∷ []) = b
last_batch (b ∷ c ∷ bs) = last_batch (c ∷ bs)

abbrev pub distribute_hops : Wiring → List Hop
distribute_hops w =
    let n = length w.targets in
    let splits = relay_splits 0 n (first_batch w.batches) w.deposit_relays in
    record { splits = record { from = w.cold; to = senders splits } ∷ []; sweeps = [] }
    ∷ record { splits = splits; sweeps = [] }
    ∷ (between w.batches ++ (sweep_hop (last_batch w.batches) w.targets ∷ []))

abbrev pub withdraw_hops : Wiring → List Hop
withdraw_hops w =
    let n = length w.targets in
    sweep_hop w.sources (first_batch w.batches)
    ∷ (between w.batches
        ++ (record { splits = []; sweeps = gather 0 n (last_batch w.batches) w.withdraw_relays }
            ∷ record { splits = []; sweeps = pay_cold w.withdraw_cold w.withdraw_relays }
            ∷ []))

-- `buildFundingHops`.
unfoldable pub build_hops : TaskKind → Wiring → Result FundingError (List Hop)
unfolding relay_splits gather between sweep_slots
build_hops distribute w = ok (distribute_hops w)
build_hops withdraw w = ok (withdraw_hops w)
build_hops (other_kind k) w = err unknown_kind

-- The counts that a run announces before its first hop.
unfoldable pub transfers : List Hop → ℕ
unfolding transfer_count
transfers [] = 0
transfers (hop ∷ hops) = transfer_count hop + transfers hops
