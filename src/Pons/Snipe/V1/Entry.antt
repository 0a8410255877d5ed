-- ===== src/Pons/Snipe/V1/Entry.antt =====
-- How a v1 position is entered (`snipeOne` and `waitRestrictions` in internal/pons/v1_snipe.go).
use mathlib.Core.Path.{subst}
use pons_mm_desktop.Prelude.{
  ℕ, ◌+◌, ◌-◌, ◌^◌, ◌≤◌, ◌<◌, ◌≡◌, ◌≢◌, ◌⊎◌, inl, inr, refl, Option, none, some, List, [], ◌∷◌,
  arith, ltb, ltb→lt, ◌==◌, Bool-cases, Option-cases,
}
use pons_mm_desktop.Prelude.Result.{Result, ok, err}
use pons_mm_desktop.Pons.Snipe.{
  SnipeError, quote_unread, Look, Order, Sniped, Settings, BuyAnswers, buy_expected,
}
use pons_mm_desktop.Pons.Snipe.Entry.{Reads, NotConfirmed, EnteredFor, buy_expected-EnteredFor}
use pons_mm_desktop.Pons.Snipe.V1.{launch_block, await_block, wait_restrictions, snipe_one_v1}

launch_block-eq : (n : ℕ) → 2 ≤ n → n < 2 ^ 64 → launch_block n ≡ n - 2
launch_block-eq n p q = omega arith

await_block-Reads :
    (launch : ℕ) (looks : List (Look ℕ))
    → await_block launch looks ≡ some (ok tt)
    → (block : ℕ) × Reads block looks × (launch < block)
unfolding await_block
await_block-Reads launch [] h = absurd (ground arith)
await_block-Reads launch (look ∷ looks) h = elim (Option-cases look.reading) [
  | inl e ↦ absurd (ground arith)
  | inr (block, e) ↦ elim (Bool-cases (ltb launch block)) [
    | inl b ↦ (block, inl (rw e refl), ltb→lt launch block b)
    | inr b ↦
        let later : await_block launch looks ≡ some (ok tt) = ground arith in
        let (found, r, l) = await_block-Reads launch looks later in (found, inr r, l)
  ]
]

-- The wait is over because there is nothing to wait for, or because of a block that was read.
abbrev pub Passed : ℕ → List (Look ℕ) → Type 0
Passed end_block looks =
    (end_block ≡ 0) ⊎ ((block : ℕ) × Reads block looks × (end_block < block + 2))

wait_restrictions-Passed :
    (end_block : ℕ) (looks : List (Look ℕ))
    → end_block ≢ 1
    → end_block < 2 ^ 64
    → wait_restrictions end_block looks ≡ some (ok tt)
    → Passed end_block looks
unfolding wait_restrictions
wait_restrictions-Passed end_block looks n b h = elim (Bool-cases (end_block == 0)) [
  | inl z ↦ inl (ground arith)
  | inr z ↦
      let waited : await_block (launch_block end_block) looks ≡ some (ok tt) = ground arith in
      let (block, r, l) = await_block-Reads (launch_block end_block) looks waited in
      let at_least : 2 ≤ end_block = ground arith in
      inr (block, r, omega (arith, launch_block-eq end_block at_least b))
]

-- A broadcast after the wait, at the quote.
abbrev pub EnteredV1 :
    Settings
    → ℕ
    → List (Look ℕ)
    → Option ℕ
    → BuyAnswers
    → Option Order × Result SnipeError Sniped
    → Type 0
EnteredV1 cfg end_block looks quote answers (none, r) = NotConfirmed r
EnteredV1 cfg end_block looks quote answers (some o, r) =
    (expected : ℕ) × Passed end_block looks
    × (quote ≡ some expected)
    × EnteredFor cfg answers expected (some o, r)

with_quote :
    (cfg : Settings) (end_block : ℕ) (looks : List (Look ℕ)) (expected : ℕ) (answers : BuyAnswers)
    (entry : Option Order × Result SnipeError Sniped)
    → Passed end_block looks
    → EnteredFor cfg answers expected entry
    → EnteredV1 cfg end_block looks (some expected) answers entry
with_quote cfg end_block looks expected answers (none, r) p f = f
with_quote cfg end_block looks expected answers (some o, r) p f = (expected, p, refl, f)

-- For an end of the restrictions other than block 1, a finished entry that broadcast a buy follows a round
-- of the wait that read a block after the launch block, which is two before that end, or there were no
-- restrictions; it is no dry run, it spends the configured amount, with a minimum that is the slippage
-- below a positive quote; then it is unconfirmed for want of a receipt, or confirmed with the tokens held,
-- more than none, at a cost of at least the amount, or reverted or without a holding. An entry that broadcast
-- nothing confirms nothing.
pub snipe_one_v1-EnteredV1 :
    (cfg : Settings) (end_block : ℕ) (looks : List (Look ℕ)) (quote : Option ℕ)
    (answers : BuyAnswers) (entry : Option Order × Result SnipeError Sniped)
    → end_block ≢ 1
    → end_block < 2 ^ 64
    → snipe_one_v1 cfg end_block looks quote answers ≡ some entry
    → EnteredV1 cfg end_block looks quote answers entry
unfolding snipe_one_v1
snipe_one_v1-EnteredV1 cfg end_block looks none answers entry n b h =
    elim (Option-cases (wait_restrictions end_block looks)) [
      | inl e ↦ absurd (ground arith)
      | inr (ok u, e) ↦
          let same : (none, err quote_unread) ≡ entry = ground arith in
          subst (EnteredV1 cfg end_block looks none answers) same tt
      | inr (err x, e) ↦
          let same : (none, err x) ≡ entry = ground arith in
          subst (EnteredV1 cfg end_block looks none answers) same tt
    ]
snipe_one_v1-EnteredV1 cfg end_block looks (some expected) answers entry n b h =
    elim (Option-cases (wait_restrictions end_block looks)) [
      | inl e ↦ absurd (ground arith)
      | inr (ok tt, e) ↦
          let passed = wait_restrictions-Passed end_block looks n b e in
          let same : buy_expected cfg answers expected ≡ entry = ground arith in
          subst (EnteredV1 cfg end_block looks (some expected) answers) same (
            with_quote cfg end_block looks expected answers _ passed
              (buy_expected-EnteredFor cfg answers expected))
      | inr (err x, e) ↦
          let same : (none, err x) ≡ entry = ground arith in
          subst (EnteredV1 cfg end_block looks (some expected) answers) same tt
    ]
