-- ===== src/Pons/Snipe/Slots/Counting.antt =====
-- What the counters of a run count (`Run` in internal/pons/snipe.go and internal/pons/v1_snipe.go).
use pons_mm_desktop.Prelude.{
  ℕ, ◌+◌, ◌≤◌, ◌<◌, ◌≡◌, ◌⊎◌, inl, inr, refl, ap, Bool, true, false, ◌&&◌, List, [], ◌∷◌, ◌++◌,
  length, length-append, arith, Bool-cases,
}
use pons_mm_desktop.Pons.Snipe.Slots.{
  Position, buying, parked, monitoring, leaving, releasing, signalling, Loop, waiting, Run,
  limit_reached, check_limit, on_launch, on_pos_done, on_tick, Outcome, bought, failed, after_buy,
  with_result, settle_snipe, depart, leave, return_slot, signal_done, is_asleep, Step, checks,
  observes, wakes, ticks, settles, departs, leaves, returns, signals, Reach, start, step,
}

abbrev pub weigh : (Position → ℕ) → List Position → ℕ
weigh f [] = 0
weigh f (p ∷ ps) = f p + weigh f ps

pub weigh-append :
    (f : Position → ℕ) (ps qs : List Position) → weigh f (ps ++ qs) ≡ weigh f ps + weigh f qs
weigh-append f [] qs = omega arith
weigh-append f (p ∷ ps) qs = omega (arith, weigh-append f ps qs)

abbrev pub buys : Position → ℕ
buys buying = 1
buys _ = 0

-- Counted by `inflight`.
abbrev pub flies : Position → ℕ
flies releasing = 0
flies signalling = 0
flies _ = 1

-- Has taken a slot and not returned it.
abbrev pub occupies : Position → ℕ
occupies signalling = 0
occupies _ = 1

-- Has still to send on `posDone`, and no longer counts as in flight.
abbrev pub ends : Position → ℕ
ends releasing = 1
ends signalling = 1
ends _ = 0

abbrev pub is_waiting : Loop → Bool
is_waiting waiting = true
is_waiting _ = false

abbrev pub WithinLimit {ℓ} : {R : Type ℓ} → ℕ → Run R → Type 0
WithinLimit limit s = (limit ≡ 0) ⊎ (length s.results + s.pending_buys ≤ limit)

-- A loop that waits although the limit is reached has a signal, or a goroutine that will send one.
abbrev pub WakesUp {ℓ} : {R : Type ℓ} → ℕ → Run R → Type 0
WakesUp limit s =
    ((is_waiting s.loop && limit_reached limit s) ≡ false)
    ⊎ (0 < s.pos_done + weigh ends s.positions)

abbrev pub Inv {ℓ} : {R : Type ℓ} → ℕ → ℕ → Run R → Type 0
Inv limit conc s =
    (s.pending_buys ≡ weigh buys s.positions)
    × (s.inflight ≡ weigh flies s.positions)
    × (s.free + weigh occupies s.positions ≡ conc)
    × WithinLimit limit s
    × WakesUp limit s

pub buys-flies : (ps : List Position) → weigh buys ps ≤ weigh flies ps
buys-flies [] = omega arith
buys-flies (buying ∷ ps) = omega (arith, buys-flies ps)
buys-flies (parked ∷ ps) = omega (arith, buys-flies ps)
buys-flies (monitoring ∷ ps) = omega (arith, buys-flies ps)
buys-flies (leaving ∷ ps) = omega (arith, buys-flies ps)
buys-flies (releasing ∷ ps) = omega (arith, buys-flies ps)
buys-flies (signalling ∷ ps) = omega (arith, buys-flies ps)

pub flies-occupies : (ps : List Position) → weigh flies ps ≤ weigh occupies ps
flies-occupies [] = omega arith
flies-occupies (buying ∷ ps) = omega (arith, flies-occupies ps)
flies-occupies (parked ∷ ps) = omega (arith, flies-occupies ps)
flies-occupies (monitoring ∷ ps) = omega (arith, flies-occupies ps)
flies-occupies (leaving ∷ ps) = omega (arith, flies-occupies ps)
flies-occupies (releasing ∷ ps) = omega (arith, flies-occupies ps)
flies-occupies (signalling ∷ ps) = omega (arith, flies-occupies ps)

-- The weight of a list in which one position changes.
moved :
    (f : Position → ℕ) (p q : Position) (before after ps : List Position)
    → ps ≡ before ++ (p ∷ after)
    → weigh f (before ++ (q ∷ after)) + f p ≡ weigh f ps + f q
moved f p q before after ps h =
    omega
      (arith, ap (weigh f) h, weigh-append f before (p ∷ after), weigh-append f before (q ∷ after))

-- A position that goes.
gone :
    (f : Position → ℕ) (p : Position) (before after ps : List Position)
    → ps ≡ before ++ (p ∷ after)
    → weigh f (before ++ after) + f p ≡ weigh f ps
gone f p before after ps h =
    omega (arith, ap (weigh f) h, weigh-append f before (p ∷ after), weigh-append f before after)

asleep-weights :
    (p : Position)
    → is_asleep p ≡ true
    → (buys p ≡ 0) × (flies p ≡ 1) × (occupies p ≡ 1) × (ends p ≡ 0)
asleep-weights parked h = ground arith
asleep-weights monitoring h = ground arith
asleep-weights buying h = absurd (ground arith)
asleep-weights leaving h = absurd (ground arith)
asleep-weights releasing h = absurd (ground arith)
asleep-weights signalling h = absurd (ground arith)

module _ {ℓ} {R : Type ℓ} (limit conc : ℕ) where
  check_limit-Inv : (s : Run R) → Inv limit conc s → Inv limit conc (check_limit limit s)
  unfolding check_limit
  check_limit-Inv s (b, f, o, l, w) = elim (Bool-cases (limit_reached limit s)) [
    | inl e ↦ rw e (b, f, o, l, inl refl)
    | inr e ↦ rw e (b, f, o, l, inl e)
  ]

  on_launch-Inv :
      (wanted : Bool) (s : Run R) → Inv limit conc s → Inv limit conc (on_launch limit wanted s)
  unfolding on_launch
  on_launch-Inv wanted s i = ground arith

  on_pos_done-Inv : (s : Run R) → Inv limit conc s → Inv limit conc (on_pos_done s)
  unfolding on_pos_done
  on_pos_done-Inv s i = ground arith

  on_tick-Inv : (s : Run R) → Inv limit conc s → Inv limit conc (on_tick s)
  unfolding on_tick
  on_tick-Inv s i = ground arith

  after_buy-weights :
      (auto_sell cancelled : Bool) (outcome : Outcome R)
      → let p = after_buy auto_sell cancelled outcome in
        (buys p ≡ 0) × (flies p ≡ 1) × (occupies p ≡ 1)
  after_buy-weights auto_sell cancelled (failed broke) = ground arith
  after_buy-weights auto_sell cancelled (bought r confirmed) = ground arith

  length-with_result :
      (outcome : Outcome R) (rs : List R) → length (with_result outcome rs) ≤ length rs + 1
  length-with_result (bought r confirmed) rs = omega (arith, length-append rs (r ∷ []))
  length-with_result (failed broke) rs = omega arith

  settle_snipe-Inv :
      (auto_sell cancelled : Bool) (outcome : Outcome R) (before after : List Position) (s : Run R)
      → s.positions ≡ before ++ (buying ∷ after)
      → Inv limit conc s
      → Inv limit conc (settle_snipe auto_sell cancelled outcome before after s)
  unfolding settle_snipe
  settle_snipe-Inv auto_sell cancelled outcome before after s h (b, f, o, l, w) =
      let p = after_buy auto_sell cancelled outcome in
      let (pb, pf, po) = after_buy-weights auto_sell cancelled outcome in
      let mb = moved buys buying p before after s.positions h in
      let mf = moved flies buying p before after s.positions h in
      let mo = moved occupies buying p before after s.positions h in
      let more = length-with_result outcome s.results in
      let some_fly = buys-flies s.positions in
      (omega arith, omega arith, omega arith, ground arith, inl (ground arith))

  depart-Inv :
      (p : Position) (before after : List Position) (s : Run R)
      → is_asleep p ≡ true
      → s.positions ≡ before ++ (p ∷ after)
      → Inv limit conc s
      → Inv limit conc (depart before after s)
  unfolding depart
  depart-Inv p before after s a h (b, f, o, l, w) =
      let (pb, pf, po, pe) = asleep-weights p a in
      let mb = moved buys p leaving before after s.positions h in
      let mf = moved flies p leaving before after s.positions h in
      let mo = moved occupies p leaving before after s.positions h in
      let me = moved ends p leaving before after s.positions h in
      (omega arith, omega arith, omega arith, l, ground arith)

  leave-Inv :
      (before after : List Position) (s : Run R)
      → s.positions ≡ before ++ (leaving ∷ after)
      → Inv limit conc s
      → Inv limit conc (leave before after s)
  unfolding leave
  leave-Inv before after s h (b, f, o, l, w) =
      let mb = moved buys leaving releasing before after s.positions h in
      let mf = moved flies leaving releasing before after s.positions h in
      let mo = moved occupies leaving releasing before after s.positions h in
      let me = moved ends leaving releasing before after s.positions h in
      (omega arith, omega arith, omega arith, l, inr (omega arith))

  return_slot-Inv :
      (before after : List Position) (s : Run R)
      → s.positions ≡ before ++ (releasing ∷ after)
      → Inv limit conc s
      → Inv limit conc (return_slot before after s)
  unfolding return_slot
  return_slot-Inv before after s h (b, f, o, l, w) =
      let mb = moved buys releasing signalling before after s.positions h in
      let mf = moved flies releasing signalling before after s.positions h in
      let mo = moved occupies releasing signalling before after s.positions h in
      let me = weigh-append ends before (signalling ∷ after) in
      (omega arith, omega arith, omega arith, l, inr (omega arith))

  signal_done-Inv :
      (before after : List Position) (s : Run R)
      → 0 < conc
      → s.positions ≡ before ++ (signalling ∷ after)
      → Inv limit conc s
      → Inv limit conc (signal_done conc before after s)
  unfolding signal_done
  signal_done-Inv before after s p h (b, f, o, l, w) =
      let mb = gone buys signalling before after s.positions h in
      let mf = gone flies signalling before after s.positions h in
      let mo = gone occupies signalling before after s.positions h in
      (omega arith, omega arith, omega arith, l, inr (ground arith))

  Step-Inv :
      (auto_sell : Bool) (s t : Run R)
      → 0 < conc
      → Step limit conc auto_sell s t
      → Inv limit conc s
      → Inv limit conc t
  Step-Inv auto_sell s t p (checks h) i = check_limit-Inv s i
  Step-Inv auto_sell s t p (observes wanted h) i = on_launch-Inv wanted s i
  Step-Inv auto_sell s t p (wakes h q) i = on_pos_done-Inv s i
  Step-Inv auto_sell s t p (ticks h) i = on_tick-Inv s i
  Step-Inv auto_sell s t p (settles cancelled o before after h) i =
      settle_snipe-Inv auto_sell cancelled o before after s h i
  Step-Inv auto_sell s t p (departs q before after a h) i = depart-Inv q before after s a h i
  Step-Inv auto_sell s t p (leaves before after h) i = leave-Inv before after s h i
  Step-Inv auto_sell s t p (returns before after h q) i = return_slot-Inv before after s h i
  Step-Inv auto_sell s t p (signals before after h) i = signal_done-Inv before after s p h i

  pub Reach-Inv :
      (auto_sell : Bool) (s : Run R) → 0 < conc → Reach limit conc auto_sell s → Inv limit conc s
  Reach-Inv auto_sell s p start = ground arith
  Reach-Inv auto_sell _ p (step s t r st) = Step-Inv auto_sell s t p st (Reach-Inv auto_sell s p r)
