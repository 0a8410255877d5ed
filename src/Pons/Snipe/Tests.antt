-- ===== src/Pons/Snipe/Tests.antt =====
-- The theorems on the snipers at concrete inputs.
use pons_mm_desktop.Prelude.{
  ℕ, ◌+◌, ◌<◌, ◌≤◌, ◌≡◌, ◌≢◌, ◌⊎◌, refl, true, false, Option, none, some, List, [], ◌∷◌, length,
  arith,
}
use pons_mm_desktop.Prelude.Int.{ℤ, pos, ◌+ℤ◌}
use pons_mm_desktop.Prelude.Result.{Result, ok}
use pons_mm_desktop.Pons.Curve.{tokens_out_for_quote, after_fee, apply_slippage_down}
use pons_mm_desktop.Pons.Snipe.{
  LaunchInfo, Look, Order, Sniped, Settings, BuyAnswers, mined, SnipeError, snipe_one,
  max_snipe_tax_bps,
}
use pons_mm_desktop.Pons.Snipe.Slots.{
  waiting, Run, new_run, limit_reached, check_limit, on_launch, settle_snipe, leave, bought, Reach,
  start, step, checks, observes, settles, leaves,
}
use pons_mm_desktop.Pons.Snipe.Slots.Counting.{WithinLimit, weigh, ends}
use pons_mm_desktop.Pons.Snipe.Slots.Limits.{Reach-WithinLimit, Reach-WakesUp}
use pons_mm_desktop.Pons.Snipe.Entry.{Entered, snipe_one-Entered}
use pons_mm_desktop.Pons.Snipe.Exit.{
  Watch, stop_loss, Signal, traded, polled, View, SaleAnswers, auto_exit,
}
use pons_mm_desktop.Pons.Snipe.Exit.Selling.{Ended, auto_exit-Ended}
use pons_mm_desktop.Pons.Snipe.V1.{snipe_one_v1, evaluate_v1, watch_position_v1}
use pons_mm_desktop.Pons.Snipe.V1.Entry.{EnteredV1, snipe_one_v1-EnteredV1}
use pons_mm_desktop.Pons.Snipe.V1.Baseline.{evaluate_v1-held}

-- A run with one slot and a limit of one buy: the buy is made and its position left, and the loop still
-- waits.
abbrev watching : Run ℕ
watching = check_limit 1 (new_run 1)

abbrev sniping : Run ℕ
sniping = check_limit 1 (on_launch 1 true watching)

abbrev settled : Run ℕ
settled = settle_snipe false false (bought 7 true) [] [] sniping

abbrev finished : Run ℕ
finished = leave [] [] settled

finished-Reach : Reach 1 1 false finished
unfolding check_limit on_launch settle_snipe
finished-Reach =
    step settled finished
      (step sniping settled
        (step (on_launch 1 true watching) sniping
          (step watching (on_launch 1 true watching) (step (new_run 1) watching start (checks refl))
            (observes true refl))
          (checks refl))
        (settles false (bought 7 true) [] [] refl))
      (leaves [] [] refl)

finished-waiting : finished.loop ≡ waiting
unfolding leave settle_snipe check_limit on_launch
finished-waiting = refl

finished-limit_reached : limit_reached 1 finished ≡ true
unfolding leave settle_snipe check_limit on_launch
finished-limit_reached = refl

Reach-WithinLimit_example :
    WithinLimit 1 finished
    × (finished.pending_buys ≤ finished.inflight)
    × (finished.inflight ≤ 1)
    × (finished.free ≤ 1)
    × ((limit_reached 1 finished ≡ false)
        ⊎ ((length finished.results ≡ 1) × (finished.pending_buys ≡ 0)))
Reach-WithinLimit_example = Reach-WithinLimit 1 1 false finished (omega arith) finished-Reach

Reach-WakesUp_example : 0 < finished.pos_done + weigh ends finished.positions
Reach-WakesUp_example =
    Reach-WakesUp 1 1 false finished (omega arith) finished-Reach finished-waiting
      finished-limit_reached

abbrev info : LaunchInfo
info = record {
  name = 1;
  symbol = 2;
  native_quote = true;
  fee_bps = pos 100;
  creator_tax_bps = pos 0;
}

abbrev look {ℓ} : {A : Type ℓ} → A → Look A
look a = record { reading = some a; late = false; done = false }

abbrev settings : Settings
settings = record { buy_wei = 50; slippage_bps = pos 1000; dry_run = false }

abbrev answers : BuyAnswers
answers = record {
  reserves = some (100, 1000);
  build = none;
  broadcast = none;
  receipt = mined true 3 2;
  held = some 320;
}

-- The tax decays from 9900 to 50 basis points.
abbrev decay : List (Look ℤ)
decay = look (pos 9900) ∷ look (pos 50) ∷ []

abbrev entry : Option Order × Result SnipeError Sniped
entry = (
  some (record { amount = 50; min_out = 295 }),
  ok (record { tokens_out = 320; cost_wei = 56; confirmed = true }),
)

enters : snipe_one settings (pos 0) info decay answers ≡ some entry
unfolding snipe_one tokens_out_for_quote after_fee ◌+ℤ◌ apply_slippage_down
enters = refl

snipe_one-Entered_example : Entered settings (max_snipe_tax_bps (pos 0)) info decay answers entry
snipe_one-Entered_example = snipe_one-Entered settings (pos 0) info decay answers entry enters

abbrev watch : Watch
watch = record { tokens_out = 320; target = 60; stop = some 20; dev_trip = some 5 }

abbrev view : ℕ → View
view quote = record { has_graduated = some false; reserves = some (quote, 1000) }

abbrev signals : List Signal
signals = traded (view 150) ∷ polled (some 9) (view 300) ∷ []

abbrev sale_answers : SaleAnswers
sale_answers = record {
  held = some 320;
  allowance = some 0;
  approved = true;
  reserves = some (300, 1000);
  sent = true;
  receipt = mined true 3 2;
}

auto_exit-Ended_example :
    Ended watch info
      (pos 1000)
      signals
      sale_answers
      (auto_exit watch info (pos 1000) signals sale_answers)
auto_exit-Ended_example = auto_exit-Ended watch info (pos 1000) signals sale_answers

-- The restrictions end with block 12; the wait sees blocks 10 and 11.
abbrev blocks : List (Look ℕ)
blocks = look 10 ∷ look 11 ∷ []

abbrev v1_entry : Option Order × Result SnipeError Sniped
v1_entry = (
  some (record { amount = 50; min_out = 270 }),
  ok (record { tokens_out = 320; cost_wei = 56; confirmed = true }),
)

enters_v1 : snipe_one_v1 settings 12 blocks (some 300) answers ≡ some v1_entry
unfolding snipe_one_v1 apply_slippage_down
enters_v1 = refl

snipe_one_v1-EnteredV1_example : EnteredV1 settings 12 blocks (some 300) answers v1_entry
snipe_one_v1-EnteredV1_example =
    snipe_one_v1-EnteredV1 settings 12 blocks (some 300) answers v1_entry (ground arith)
      (omega arith) enters_v1

evaluate_v1-held_example :
    evaluate_v1 (watch_position_v1 300 56 1000000 500000 0 (some 20) none) (some 20)
    ≢ some stop_loss
evaluate_v1-held_example =
    evaluate_v1-held 300 56 1000000 500000 0 20 20 none (omega arith) (omega arith) (omega arith)
