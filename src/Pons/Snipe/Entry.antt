-- ===== src/Pons/Snipe/Entry.antt =====
-- How a position is entered (`snipeOne` and `waitSnipeTaxDecay` in internal/pons/snipe.go).
use mathlib.Core.Path.{subst}
use pons_mm_desktop.Prelude.{
  ℕ, zero, suc, ◌≤◌, ◌<◌, ◌≡◌, ◌⊎◌, inl, inr, refl, sym, true, false, Option, none, some, List, [],
  ◌∷◌, arith, Bool-cases, Option-cases,
}
use pons_mm_desktop.Prelude.Int.{ℤ, ◌+ℤ◌, ◌≤ℤ◌, leb_ℤ}
use pons_mm_desktop.Prelude.Result.{Result, ok, err}
use pons_mm_desktop.Pons.Curve.{tokens_out_for_quote, apply_slippage_down}
use pons_mm_desktop.Pons.Snipe.{
  LaunchInfo, SnipeError, reverted, no_holding, Look, Receipt, missing, mined, Order, Sniped,
  Settings, BuyAnswers, max_snipe_tax_bps, wait_snipe_tax_decay, confirm_buy, buy_expected,
  buy_at_tax, snipe_one,
}

-- Some round of the wait reads this.
abbrev pub Reads : {A : Type 0} → A → List (Look A) → Type 0
Reads a [] = ⊥
Reads a (look ∷ looks) = (look.reading ≡ some a) ⊎ Reads a looks

wait-Reads :
    (limit : ℤ) (looks : List (Look ℤ)) (tax : ℤ)
    → wait_snipe_tax_decay limit looks ≡ some (ok tax)
    → Reads tax looks × (tax ≤ℤ limit)
unfolding wait_snipe_tax_decay
wait-Reads limit [] tax h = absurd (ground arith)
wait-Reads limit (look ∷ looks) tax h = elim (Option-cases look.reading) [
  | inl e ↦ absurd (ground arith)
  | inr (t, e) ↦ elim (Bool-cases (leb_ℤ t limit)) [
    | inl b ↦ let same : tax ≡ t = ground arith in (inl (rw (e, same) refl), ground arith)
    | inr b ↦
        let later : wait_snipe_tax_decay limit looks ≡ some (ok tax) = ground arith in
        let (r, l) = wait-Reads limit looks tax later in (inr r, l)
  ]
]

-- After the broadcast: no receipt and no confirmation, a confirmed position with its tokens and at least
-- its price as cost, or an error of the receipt or of the holding.
abbrev pub Settled : Receipt → Option ℕ → ℕ → Result SnipeError Sniped → Type 0
Settled receipt held quote_in (ok x) =
    ((x.confirmed ≡ false) × (receipt ≡ missing))
    ⊎ ((x.confirmed ≡ true)
        × (held ≡ some x.tokens_out)
        × (0 < x.tokens_out)
        × (quote_in ≤ x.cost_wei))
Settled receipt held quote_in (err e) = (e ≡ reverted) ⊎ (e ≡ no_holding)

confirm_buy-Settled :
    (receipt : Receipt) (held : Option ℕ) (quote_in : ℕ)
    → Settled receipt held quote_in (confirm_buy receipt held quote_in)
unfolding confirm_buy
confirm_buy-Settled missing held quote_in = inl (refl, refl)
confirm_buy-Settled (mined false gas price) held quote_in = inl refl
confirm_buy-Settled (mined true gas price) none quote_in = inr refl
confirm_buy-Settled (mined true gas price) (some zero) quote_in = inr refl
confirm_buy-Settled (mined true gas price) (some (suc k)) quote_in = ground arith

abbrev pub NotConfirmed : Result SnipeError Sniped → Type 0
NotConfirmed (ok x) = x.confirmed ≡ false
NotConfirmed (err e) = Unit

-- What was broadcast for a price in tokens, and what became of it.
abbrev pub EnteredFor : Settings → BuyAnswers → ℕ → Option Order × Result SnipeError Sniped → Type 0
EnteredFor cfg answers expected (none, r) = NotConfirmed r
EnteredFor cfg answers expected (some o, r) =
    (cfg.dry_run ≡ false)
    × (0 < expected)
    × (o.amount ≡ cfg.buy_wei)
    × (o.min_out ≡ apply_slippage_down expected cfg.slippage_bps)
    × Settled answers.receipt answers.held cfg.buy_wei r

pub buy_expected-EnteredFor :
    (cfg : Settings) (answers : BuyAnswers) (expected : ℕ)
    → EnteredFor cfg answers expected (buy_expected cfg answers expected)
unfolding buy_expected
buy_expected-EnteredFor cfg answers expected =
    let c = confirm_buy-Settled answers.receipt answers.held cfg.buy_wei in ground (arith, c)

-- A broadcast at a tax that the wait read and accepted, priced with it on the reserves that were read.
abbrev pub Entered :
    Settings
    → ℤ
    → LaunchInfo
    → List (Look ℤ)
    → BuyAnswers
    → Option Order × Result SnipeError Sniped
    → Type 0
Entered cfg limit info looks answers (none, r) = NotConfirmed r
Entered cfg limit info looks answers (some o, r) =
    (tax : ℤ) × (quote : ℕ) × (token : ℕ) × Reads tax looks
    × (tax ≤ℤ limit)
    × (answers.reserves ≡ some (quote, token))
    × EnteredFor cfg answers
        (tokens_out_for_quote quote token cfg.buy_wei info.fee_bps (info.creator_tax_bps +ℤ tax))
        (some o, r)

with_order :
    (cfg : Settings) (limit : ℤ) (info : LaunchInfo) (looks : List (Look ℤ)) (answers : BuyAnswers)
    (tax : ℤ) (quote token : ℕ) (entry : Option Order × Result SnipeError Sniped)
    → Reads tax looks
    → tax ≤ℤ limit
    → answers.reserves ≡ some (quote, token)
    → EnteredFor cfg answers
        (tokens_out_for_quote quote token cfg.buy_wei info.fee_bps (info.creator_tax_bps +ℤ tax))
        entry
    → Entered cfg limit info looks answers entry
with_order cfg limit info looks answers tax quote token (none, r) h l e f = f
with_order cfg limit info looks answers tax quote token (some o, r) h l e f =
    (tax, quote, token, h, l, e, f)

buy_at_tax-Entered :
    (cfg : Settings) (limit : ℤ) (info : LaunchInfo) (looks : List (Look ℤ)) (answers : BuyAnswers)
    (tax : ℤ)
    → Reads tax looks
    → tax ≤ℤ limit
    → Entered cfg limit info looks answers (buy_at_tax cfg info answers tax)
unfolding buy_at_tax
buy_at_tax-Entered cfg limit info looks answers tax h l = elim (Option-cases answers.reserves) [
  | inl e ↦ rw e tt
  | inr (at, e) ↦
      let (quote, token) = at in
      let expected =
        tokens_out_for_quote quote token cfg.buy_wei info.fee_bps (info.creator_tax_bps +ℤ tax) in
      let same : buy_at_tax cfg info answers tax ≡ buy_expected cfg answers expected = rw e refl in
      subst (Entered cfg limit info looks answers) (sym same) (
        with_order cfg limit info looks answers tax quote token _ h l e
          (buy_expected-EnteredFor cfg answers expected))
]

-- Whatever the node answers, a finished entry that broadcast a buy is no dry run, it spends the configured
-- amount, at an anti-snipe tax that the wait read and that is at most the accepted one, with a minimum
-- that is the slippage below a positive price at this tax on the reserves that were read; then it is
-- unconfirmed for want of a receipt, or confirmed with the tokens held, more than none, at a cost of at least
-- the amount, or reverted or without a holding. An entry that broadcast nothing confirms nothing.
pub snipe_one-Entered :
    (cfg : Settings) (max_tax : ℤ) (info : LaunchInfo) (looks : List (Look ℤ))
    (answers : BuyAnswers) (entry : Option Order × Result SnipeError Sniped)
    → snipe_one cfg max_tax info looks answers ≡ some entry
    → Entered cfg (max_snipe_tax_bps max_tax) info looks answers entry
unfolding snipe_one
snipe_one-Entered cfg max_tax info looks answers entry h =
    let limit = max_snipe_tax_bps max_tax in
    elim (Option-cases (wait_snipe_tax_decay limit looks)) [
      | inl e ↦ absurd (ground arith)
      | inr (ok tax, e) ↦
          let (r, l) = wait-Reads limit looks tax e in
          let same : buy_at_tax cfg info answers tax ≡ entry = ground arith in
          subst (Entered cfg limit info looks answers) same
            (buy_at_tax-Entered cfg limit info looks answers tax r l)
      | inr (err x, e) ↦
          let same : (none, err x) ≡ entry = ground arith in
          subst (Entered cfg limit info looks answers) same tt
    ]
