-- ===== src/Pons/Snipe/Slots/Limits.antt =====
-- The limits of a run (`Run` in internal/pons/snipe.go and internal/pons/v1_snipe.go): its
-- results, its positions, and the wake-up of its loop.
use pons_mm_desktop.Prelude.{
  ℕ, ◌+◌, ◌≤◌, ◌<◌, ◌≡◌, ◌⊎◌, refl, ap, Bool, true, false, List, ◌∷◌, ◌++◌, length, arith,
}
use pons_mm_desktop.Pons.Snipe.Slots.{Position, releasing, waiting, Run, limit_reached, Reach}
use pons_mm_desktop.Pons.Snipe.Slots.Counting.{
  weigh, weigh-append, occupies, ends, is_waiting, WithinLimit, buys-flies, flies-occupies,
  Reach-Inv,
}

module _ {ℓ} {R : Type ℓ} (limit conc : ℕ) where
  -- In every state of a run the results recorded and the attempts under way stay within the limit, if
  -- there is one, attempts under way are counted in flight, at most as many positions are in flight as
  -- there are slots, and no more slots are free than there are. When the limit is reached, exactly that
  -- many results are recorded and no attempt is under way. A result is an attempt that ended without an
  -- error: a dry run is one, a buy that was confirmed but whose balance could not be read is none.
  pub Reach-WithinLimit :
      (auto_sell : Bool) (s : Run R)
      → 0 < conc
      → Reach limit conc auto_sell s
      → WithinLimit limit s
        × (s.pending_buys ≤ s.inflight)
        × (s.inflight ≤ conc)
        × (s.free ≤ conc)
        × ((limit_reached limit s ≡ false) ⊎ ((length s.results ≡ limit) × (s.pending_buys ≡ 0)))
  Reach-WithinLimit auto_sell s p r =
      let (b, f, o, l, w) = Reach-Inv limit conc auto_sell s p r in
      let some_fly = buys-flies s.positions in
      let some_stay = flies-occupies s.positions in
      (l, omega arith, omega arith, omega arith, ground arith)

  -- When the loop waits in its select although the limit is reached, there is a signal on `posDone`, or
  -- a goroutine that will still send one.
  pub Reach-WakesUp :
      (auto_sell : Bool) (s : Run R)
      → 0 < conc
      → Reach limit conc auto_sell s
      → s.loop ≡ waiting
      → limit_reached limit s ≡ true
      → 0 < s.pos_done + weigh ends s.positions
  Reach-WakesUp auto_sell s p r h e =
      let i = Reach-Inv limit conc auto_sell s p r in
      let same : is_waiting s.loop ≡ true = rw h refl in ground arith

  -- A goroutine that returns its slot finds room for it in the channel.
  return-HasRoom :
      (auto_sell : Bool) (s : Run R) (before after : List Position)
      → 0 < conc
      → Reach limit conc auto_sell s
      → s.positions ≡ before ++ (releasing ∷ after)
      → s.free < conc
  return-HasRoom auto_sell s before after p r h =
      let (b, f, o, l, w) = Reach-Inv limit conc auto_sell s p r in
      omega (arith, ap (weigh occupies) h, weigh-append occupies before (releasing ∷ after))
