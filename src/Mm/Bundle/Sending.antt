-- ===== src/Mm/Bundle/Sending.antt =====
-- internal/ponsmm/bundle.go: the broadcasts of a launch with its buys (`sendUntilAccepted`,
-- `sendWindow`).
use mathlib.Core.Bool.{false≢true}
use pons_mm_desktop.Prelude.{
  ℕ, suc, zero, ◌+◌, ◌≤◌, ◌<◌, ◌≡◌, refl, sym, ap, ◌∙◌, ◌⊎◌, Bool, true, false, Bool-cases, inl,
  inr, Option, some, List, [], ◌∷◌, ◌==◌, leb, length, take, arith,
}
use pons_mm_desktop.Mm.Wallets.{Wallet}
use pons_mm_desktop.Mm.Bundle.{
  Fraction, BundleBuy, bundle_gas_limit, size_buys, Reply, accepted, already_known, refused, Sent,
  sent, send_failed, cancelled, send_attempts, send_until_accepted, SignedBuy, sign_buys,
  WindowResult, none_affordable, none_built, after_launch, launch_failed, launched, send_window,
}

abbrev pub taken : Reply → Bool
taken accepted = true
taken already_known = true
taken (refused e) = false

Reply-cases : (r : Reply) → (r ≡ accepted) ⊎ ((r ≡ already_known) ⊎ ((e : ℕ) × (r ≡ refused e)))
Reply-cases accepted = inl refl
Reply-cases already_known = inr (inl refl)
Reply-cases (refused e) = inr (inr (e, refl))

send_attempts-sent :
    (reply : ℕ → Reply) (left attempt last n : ℕ)
    → attempt ≤ n
    → n < attempt + left
    → taken (reply n) ≡ true
    → send_attempts reply (λ k. true) (λ k. true) left attempt last ≡ sent
unfolding send_attempts
send_attempts-sent reply zero attempt last n le lt h = ground (arith, le, lt)
send_attempts-sent reply (suc left) attempt last n le lt h = elim (Reply-cases (reply attempt)) [
  | inl e ↦ rw e refl
  | inr (inl e) ↦ rw e refl
  | inr (inr (error, e)) ↦ elim (Bool-cases (leb n attempt)) [
    | inl f ↦
        let same : attempt ≡ n = ground (arith, f, le) in
        absurd (false≢true (ap taken (sym e ∙ ap reply same) ∙ h))
    | inr f ↦ rw e (
        send_attempts-sent reply left (attempt + 1) error n (ground (arith, f)) (omega (arith, lt))
          h)
  ]
]

-- While the context lives, the launch counts as sent if the pool takes it, or says that it has it, at
-- one of the eight attempts.
pub send_until_accepted-sent :
    (reply : ℕ → Reply) (n : ℕ)
    → n < 8
    → taken (reply n) ≡ true
    → send_until_accepted reply (λ k. true) (λ k. true) ≡ sent
unfolding send_until_accepted
send_until_accepted-sent reply n lt h =
    send_attempts-sent reply 8 0 0 n (omega arith) (omega (arith, lt)) h

-- The cached nonce of each signer is one more than that of its transaction.
pub Ahead : List SignedBuy → Type 0
Ahead [] = Unit {0}
Ahead (s ∷ ss) = (s.buy.wallet.nonce ≡ s.nonce + 1) × Ahead ss

-- What a window launch leaves, with at most `count` buys.
pub WindowLaunch : ℕ → Wallet → WindowResult → Type 0
WindowLaunch count treasury none_affordable = Unit {0}
WindowLaunch count treasury none_built = Unit {0}
WindowLaunch count treasury (launch_failed w signed) =
    Ahead signed × (0 < length signed) × (length signed ≤ count)
WindowLaunch count treasury (launched w signed) =
    Ahead signed × (0 < length signed) × (length signed ≤ count) × (w.nonce ≡ treasury.nonce + 1)

sign_buys-Ahead :
    (builds : ℕ → Bool) (buys : List BundleBuy)
    → Ahead (sign_buys builds buys) × (length (sign_buys builds buys) ≤ length buys)
unfolding sign_buys Ahead
sign_buys-Ahead builds [] = (tt, omega arith)
sign_buys-Ahead builds (b ∷ bs) =
    let (ahead, fits) = sign_buys-Ahead builds bs in
    elim (Bool-cases (builds b.wallet.addr)) [
      | inl e ↦ rw e ((refl, ahead), omega (arith, fits))
      | inr e ↦ rw e (ahead, omega (arith, fits))
    ]

length-take-le : (n : ℕ) (buys : List BundleBuy) → length (take n buys) ≤ n
length-take-le zero buys = omega arith
length-take-le (suc n) [] = omega arith
length-take-le (suc n) (b ∷ bs) = omega (arith, length-take-le n bs)

after_launch-WindowLaunch :
    (count : ℕ) (reply : Sent) (pending : Option ℕ) (treasury : Wallet) (signed : List SignedBuy)
    → Ahead signed
    → 0 < length signed
    → length signed ≤ count
    → WindowLaunch count treasury (after_launch reply pending treasury signed)
unfolding WindowLaunch
after_launch-WindowLaunch count sent pending treasury signed ahead pos fits =
    (ahead, pos, fits, refl)
after_launch-WindowLaunch count (send_failed e) pending treasury signed ahead pos fits =
    (ahead, pos, fits)
after_launch-WindowLaunch count cancelled pending treasury signed ahead pos fits =
    (ahead, pos, fits)

-- A window launch that finds buys to sign signs at least one and at most the configured number of
-- them, and after it every signer's cached nonce is past its buy's, also when the launch was not sent
-- and no buy is broadcast; when it was sent, the treasury's nonce has moved on by one.
pub send_window-WindowLaunch :
    (fraction : Fraction) (gas_reserve fee_cap count : ℕ) (builds : ℕ → Bool) (reply : Sent)
    (pending : Option ℕ) (treasury : Wallet) (makers : List Wallet)
    → WindowLaunch count treasury
        (send_window fraction gas_reserve fee_cap count builds reply pending treasury makers)
unfolding send_window WindowLaunch
send_window-WindowLaunch fraction gas_reserve fee_cap count builds reply pending treasury makers =
    let buys = take count (size_buys fraction gas_reserve (some fee_cap) bundle_gas_limit makers) in
    let (ahead, fits) = sign_buys-Ahead builds buys in
    let few =
      length-take-le count
        (size_buys fraction gas_reserve (some fee_cap) bundle_gas_limit makers) in
    elim (Bool-cases (length buys == 0)) [
      | inl e ↦ rw e tt
      | inr e ↦ elim (Bool-cases (length (sign_buys builds buys) == 0)) [
        | inl f ↦ rw (e, f) tt
        | inr f ↦
            rw (e, f)
              (after_launch-WindowLaunch count reply pending treasury (sign_buys builds buys) ahead
                (ground (arith, f)) (omega (arith, fits, few)))
      ]
    ]
