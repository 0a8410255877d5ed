-- ===== src/Pons/Snipe/Slots.antt =====
-- The loop of `Run` in internal/pons/snipe.go and internal/pons/v1_snipe.go with the goroutines that
-- it starts: position slots, the counters that the mutex guards, and the channel `posDone`. The two
-- loops differ in the guards on a launch, which are in Pons/Snipe, and in the type of a result.
pub mod Counting
pub mod Limits
use pons_mm_desktop.Prelude.{
  ℕ, ◌+◌, ◌-◌, ◌<◌, ◌≡◌, Bool, true, false, ◌&&◌, not, Option, none, some, List, [], ◌∷◌, ◌++◌,
  ◌==◌, leb, ltb, if◌then◌else◌, length,
}

-- A goroutine of `Run`: in `snipeOne`, asleep for want of funds, in the exit monitor, past these, past
-- the decrement of `inflight`, and past the return of its slot.
pub data Position : Type 0 where
  buying parked monitoring leaving releasing signalling : Position

-- Where the loop is: before its check of the limit, in its select, or returning.
pub data Loop : Type 0 where
  checking waiting returning : Loop

-- `free` is what the channel `slots` holds and `pos_done` what the channel `posDone` holds.
pub record Run {ℓ} (R : Type ℓ) : Type ℓ where
  pub free : ℕ
  pub results : List R
  pub inflight : ℕ
  pub pending_buys : ℕ
  pub pos_done : ℕ
  pub observed : ℕ
  pub skipped : ℕ
  pub positions : List Position
  pub loop : Loop

-- A limit of at most 0 is no limit, and is 0 here.
abbrev pub over_budget {ℓ} : {R : Type ℓ} → ℕ → Run R → Bool
over_budget limit s = ltb 0 limit && leb limit (length s.results + s.pending_buys)

abbrev pub limit_reached {ℓ} : {R : Type ℓ} → ℕ → Run R → Bool
limit_reached limit s = ltb 0 limit && (leb limit (length s.results) && (s.inflight == 0))

abbrev pub new_run {ℓ} : {R : Type ℓ} → ℕ → Run R
new_run conc = record {
  free = conc;
  results = [];
  inflight = 0;
  pending_buys = 0;
  pos_done = 0;
  observed = 0;
  skipped = 0;
  positions = [];
  loop = checking;
}

-- `concurrency`.
unfoldable pub concurrency : ℕ → ℕ
concurrency configured = if ltb 1 configured then configured else 1

-- The head of the loop.
unfoldable pub check_limit {ℓ} : {R : Type ℓ} → ℕ → Run R → Run R
check_limit limit s =
    if limit_reached limit s then record s { loop = returning } else record s { loop = waiting }

-- A launch from the channel; `wanted` says whether it passes the guards.
unfoldable pub on_launch {ℓ} : {R : Type ℓ} → ℕ → Bool → Run R → Run R
on_launch limit wanted s =
    let seen = record s { observed = s.observed + 1; loop = checking } in
    if not wanted
    then record seen { skipped = s.skipped + 1 }
    else if over_budget limit s
    then seen
    else if s.free == 0
    then seen
    else record seen {
      free = s.free - 1;
      inflight = s.inflight + 1;
      pending_buys = s.pending_buys + 1;
      positions = buying ∷ s.positions;
    }

-- `<-posDone`, and the ticker, which only logs.
unfoldable pub on_pos_done {ℓ} : {R : Type ℓ} → Run R → Run R
on_pos_done s = record s { pos_done = s.pos_done - 1; loop = checking }

unfoldable pub on_tick {ℓ} : {R : Type ℓ} → Run R → Run R
on_tick s = record s { loop = checking }

-- What `snipeOne` returns to the goroutine: a result and whether it is confirmed, or an error and
-- whether it is one of funds.
pub data Outcome {ℓ} (R : Type ℓ) : Type ℓ where
  bought : R → Bool → Outcome R
  failed : Bool → Outcome R

abbrev pub after_buy {ℓ} : {R : Type ℓ} → Bool → Bool → Outcome R → Position
after_buy auto_sell cancelled (failed broke) = if broke && not cancelled then parked else leaving
after_buy auto_sell cancelled (bought r confirmed) =
    if auto_sell && confirmed then monitoring else leaving

abbrev pub with_result {ℓ} : {R : Type ℓ} → Outcome R → List R → List R
with_result (bought r confirmed) rs = rs ++ (r ∷ [])
with_result (failed broke) rs = rs

-- A goroutine after `snipeOne`; it stands between `before` and `after` in the list.
unfoldable pub settle_snipe {ℓ} :
    {R : Type ℓ} → Bool → Bool → Outcome R → List Position → List Position → Run R → Run R
settle_snipe auto_sell cancelled outcome before after s = record s {
  pending_buys = s.pending_buys - 1;
  results = with_result outcome s.results;
  positions = before ++ (after_buy auto_sell cancelled outcome ∷ after);
}

-- The cooldown or the monitor is over.
unfoldable pub depart {ℓ} : {R : Type ℓ} → List Position → List Position → Run R → Run R
depart before after s = record s { positions = before ++ (leaving ∷ after) }

unfoldable pub leave {ℓ} : {R : Type ℓ} → List Position → List Position → Run R → Run R
leave before after s = record s {
  inflight = s.inflight - 1;
  positions = before ++ (releasing ∷ after);
}

unfoldable pub return_slot {ℓ} : {R : Type ℓ} → List Position → List Position → Run R → Run R
return_slot before after s = record s {
  free = s.free + 1;
  positions = before ++ (signalling ∷ after);
}

-- The send on `posDone`, which is dropped when the channel is full.
unfoldable pub signal_done {ℓ} : {R : Type ℓ} → ℕ → List Position → List Position → Run R → Run R
signal_done conc before after s = record s {
  pos_done = if ltb s.pos_done conc then s.pos_done + 1 else s.pos_done;
  positions = before ++ after;
}

abbrev pub is_asleep : Position → Bool
is_asleep parked = true
is_asleep monitoring = true
is_asleep _ = false

-- One step of the loop or of a goroutine. Sends on `slots` have room, so they never block
-- (Pons/Snipe/Slots/Limits).
pub data Step {ℓ} {R : Type ℓ} (limit conc : ℕ) (auto_sell : Bool) (s : Run R)
    : Run R → Type ℓ where
  checks : s.loop ≡ checking → Step limit conc auto_sell s (check_limit limit s)
  observes :
      (wanted : Bool) → s.loop ≡ waiting → Step limit conc auto_sell s (on_launch limit wanted s)
  wakes : s.loop ≡ waiting → 0 < s.pos_done → Step limit conc auto_sell s (on_pos_done s)
  ticks : s.loop ≡ waiting → Step limit conc auto_sell s (on_tick s)
  settles :
      (cancelled : Bool) (outcome : Outcome R) (before after : List Position)
      → s.positions ≡ before ++ (buying ∷ after)
      → Step limit conc auto_sell s (settle_snipe auto_sell cancelled outcome before after s)
  departs :
      (p : Position) (before after : List Position)
      → is_asleep p ≡ true
      → s.positions ≡ before ++ (p ∷ after)
      → Step limit conc auto_sell s (depart before after s)
  leaves :
      (before after : List Position)
      → s.positions ≡ before ++ (leaving ∷ after)
      → Step limit conc auto_sell s (leave before after s)
  returns :
      (before after : List Position)
      → s.positions ≡ before ++ (releasing ∷ after)
      → s.free < conc
      → Step limit conc auto_sell s (return_slot before after s)
  signals :
      (before after : List Position)
      → s.positions ≡ before ++ (signalling ∷ after)
      → Step limit conc auto_sell s (signal_done conc before after s)

pub data Reach {ℓ} {R : Type ℓ} (limit conc : ℕ) (auto_sell : Bool) : Run R → Type ℓ where
  start : Reach limit conc auto_sell (new_run conc)
  step :
      (s t : Run R)
      → Reach limit conc auto_sell s
      → Step limit conc auto_sell s t
      → Reach limit conc auto_sell t
