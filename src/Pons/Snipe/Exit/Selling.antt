-- ===== src/Pons/Snipe/Exit/Selling.antt =====
-- How a position is left (`sellAll` and `finishExit` in internal/pons/monitor.go).
use pons_mm_desktop.Prelude.{
  ℕ, ◌<◌, ◌≡◌, ◌≢◌, inl, inr, refl, ap, ◌==◌, Bool, true, false, Option, none, some, List, arith,
  Bool-cases,
}
use pons_mm_desktop.Prelude.Int.{ℤ}
use pons_mm_desktop.Prelude.Result.{Result, ok, err}
use pons_mm_desktop.Pons.Curve.{quote_out_for_tokens, apply_slippage_down}
use pons_mm_desktop.Pons.Snipe.{LaunchInfo, Order, Receipt}
use pons_mm_desktop.Pons.Snipe.Exit.{
  Reason, graduated, target_reached, stop_loss, dev_dump, hold_timeout, shutdown, SaleAnswers,
  ExitError, confirm_sale, ensure_approval, sell_held, sell_all, finish_exit, Watch, Signal, hold,
  after_hold, auto_exit,
}
use pons_mm_desktop.Pons.Snipe.Exit.Triggers.{AllQuiet, FirstTrigger, Held, hold-Held}

-- A sale of the whole holding, at the slippage below its value on the reserves that were read, and
-- allowed to the curve. Its outcome is that of the receipt.
abbrev pub SellsAll :
    LaunchInfo → ℤ → SaleAnswers → Option Order × Result ExitError (Unit {0}) → Type 0
SellsAll info slippage_bps answers (none, ok u) = answers.held ≡ some 0
SellsAll info slippage_bps answers (none, err e) = answers.held ≢ some 0
SellsAll info slippage_bps answers (some o, r) =
    (quote : ℕ) × (token : ℕ) × (answers.held ≡ some o.amount)
    × (0 < o.amount)
    × (ensure_approval answers.allowance answers.approved o.amount ≡ true)
    × (answers.reserves ≡ some (quote, token))
    × (o.min_out
        ≡ apply_slippage_down
            (quote_out_for_tokens quote token o.amount info.fee_bps info.creator_tax_bps)
            slippage_bps)
    × (answers.sent ≡ true)
    × (r ≡ confirm_sale answers.receipt)

abbrev answers_of : Option ℕ → Option ℕ → Bool → Option (ℕ × ℕ) → Bool → Receipt → SaleAnswers
answers_of held allowance approved reserves sent receipt = record {
  held = held;
  allowance = allowance;
  approved = approved;
  reserves = reserves;
  sent = sent;
  receipt = receipt;
}

sell_held-SellsAll :
    (info : LaunchInfo) (slippage_bps : ℤ) (held : ℕ) (allowance : Option ℕ) (approved : Bool)
    (reserves : Option (ℕ × ℕ)) (sent : Bool) (receipt : Receipt)
    → let answers = answers_of (some held) allowance approved reserves sent receipt in
      SellsAll info slippage_bps answers (sell_held info slippage_bps answers held)
unfolding sell_held
sell_held-SellsAll info slippage_bps held allowance approved none sent receipt = ground arith
sell_held-SellsAll info slippage_bps held allowance approved (some (quote, token)) false receipt =
    ground arith
sell_held-SellsAll info slippage_bps held allowance approved (some (quote, token)) true receipt =
    elim (Bool-cases (held == 0)) [
      | inl b ↦ rw b (ap some (ground arith))
      | inr b ↦ elim (Bool-cases (ensure_approval allowance approved held)) [
        | inl c ↦ rw (b, c) (quote, token, refl, ground arith, c, refl, refl, refl, refl)
        | inr c ↦ rw (b, c) (ground arith)
      ]
    ]

sell_all-SellsAll :
    (info : LaunchInfo) (slippage_bps : ℤ) (held allowance : Option ℕ) (approved : Bool)
    (reserves : Option (ℕ × ℕ)) (sent : Bool) (receipt : Receipt)
    → let answers = answers_of held allowance approved reserves sent receipt in
      SellsAll info slippage_bps answers (sell_all info slippage_bps answers)
unfolding sell_all
sell_all-SellsAll info slippage_bps none allowance approved reserves sent receipt = ground arith
sell_all-SellsAll info slippage_bps (some held) allowance approved reserves sent receipt =
    sell_held-SellsAll info slippage_bps held allowance approved reserves sent receipt

sold :
    (info : LaunchInfo) (slippage_bps : ℤ) (answers : SaleAnswers)
    → SellsAll info slippage_bps answers (sell_all info slippage_bps answers)
sold info slippage_bps answers =
    sell_all-SellsAll info slippage_bps answers.held answers.allowance answers.approved
      answers.reserves answers.sent answers.receipt

-- What the monitor did: after a graduation it keeps the position and reports no error; else it sells.
abbrev pub Exited :
    LaunchInfo → ℤ → SaleAnswers → Reason × Option Order × Result ExitError (Unit {0}) → Type 0
Exited info slippage_bps answers (graduated, order, r) = (order ≡ none) × (r ≡ ok tt)
Exited info slippage_bps answers (_, order, r) = SellsAll info slippage_bps answers (order, r)

finish_exit-Exited :
    (info : LaunchInfo) (slippage_bps : ℤ) (answers : SaleAnswers) (reason : Reason)
    → let (order, r) = finish_exit info slippage_bps answers reason in
      Exited info slippage_bps answers (reason, order, r)
unfolding finish_exit
finish_exit-Exited info slippage_bps answers graduated = (refl, refl)
finish_exit-Exited info slippage_bps answers target_reached = sold info slippage_bps answers
finish_exit-Exited info slippage_bps answers stop_loss = sold info slippage_bps answers
finish_exit-Exited info slippage_bps answers dev_dump = sold info slippage_bps answers
finish_exit-Exited info slippage_bps answers hold_timeout = sold info slippage_bps answers
finish_exit-Exited info slippage_bps answers shutdown = sold info slippage_bps answers

abbrev pub Ended :
    Watch
    → LaunchInfo
    → ℤ
    → List Signal
    → SaleAnswers
    → Option (Reason × Option Order × Result ExitError (Unit {0}))
    → Type 0
Ended w info slippage_bps signals answers none = AllQuiet w info signals
Ended w info slippage_bps signals answers (some (reason, order, r)) =
    FirstTrigger w info signals reason × Exited info slippage_bps answers (reason, order, r)

finish_from :
    (w : Watch) (info : LaunchInfo) (slippage_bps : ℤ) (signals : List Signal)
    (answers : SaleAnswers) (reason : Option Reason)
    → Held w info signals reason
    → Ended w info slippage_bps signals answers (after_hold info slippage_bps answers reason)
unfolding after_hold
finish_from w info slippage_bps signals answers none h = h
finish_from w info slippage_bps signals answers (some reason) h =
    (h, finish_exit-Exited info slippage_bps answers reason)

-- While no signal triggers, the monitor holds the position. It ends by the first signal that does, for the
-- reason it gives. After a graduation it sells nothing and reports no error. Else it broadcasts nothing,
-- without an error when the wallet is read to hold nothing and with an error otherwise, or it broadcasts the
-- sale of the whole holding that is read, approved, with the minimum that is the slippage below its value on
-- the reserves that are read, and reports an error unless the receipt is of a success.
pub auto_exit-Ended :
    (w : Watch) (info : LaunchInfo) (slippage_bps : ℤ) (signals : List Signal)
    (answers : SaleAnswers)
    → Ended w info slippage_bps signals answers (auto_exit w info slippage_bps signals answers)
unfolding auto_exit
auto_exit-Ended w info slippage_bps signals answers =
    finish_from w info slippage_bps signals answers (hold w info signals) (hold-Held w info signals)
