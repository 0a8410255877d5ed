-- ===== src/Control/Funding/Fixed.antt =====
-- internal/control/funding.go: the fund-routing wallets are set once and never changed, whatever the
-- handlers are called with.
use mathlib.Core.Path.{subst}
use pons_mm_desktop.Prelude.{
  ℕ, ◌<◌, ◌≡◌, refl, ap, ◌∙◌, sym, Bool, true, Bool-cases, inl, inr, Option, none, some, List, ◌==◌,
  ltb, length, arith,
}
use pons_mm_desktop.Prelude.Result.{Result, ok, err, ◌>>=◌}
use pons_mm_desktop.Control.Funding.{
  FundingConfig, FundingError, is_some, Role, deposit_cold_role, deposit_relays_role,
  withdraw_relays_role, other_role, funding_role_spec, funding_role_available, check, pin_role,
  generate_funding_wallets, set_funding_withdraw_cold, already_configured, vault_locked,
  vault_rejected,
}

-- What `before` has configured stands in `after`.
pub record Pinned (before after : FundingConfig) : Type 0 where
  pub cold : is_some before.deposit_cold ≡ true → after.deposit_cold ≡ before.deposit_cold
  pub deposits : 0 < length before.deposit_relays → after.deposit_relays ≡ before.deposit_relays
  pub withdrawals :
      0 < length before.withdraw_relays → after.withdraw_relays ≡ before.withdraw_relays
  pub destination : ¬ (before.withdraw_cold ≡ 0) → after.withdraw_cold ≡ before.withdraw_cold

-- A call of either handler that succeeds.
pub data Configured : FundingConfig → FundingConfig → Type 0 where
  generated :
      (role : Role) (unlocked : Bool) (imported : Option (List ℕ)) (c d : FundingConfig)
      → generate_funding_wallets role unlocked imported c ≡ ok d
      → Configured c d
  destined :
      (parsed : Option ℕ) (c d : FundingConfig)
      → set_funding_withdraw_cold parsed c ≡ ok d
      → Configured c d

pub data History : FundingConfig → FundingConfig → Type 0 where
  unchanged : (c : FundingConfig) → History c c
  then_configured : (c d e : FundingConfig) → History c d → Configured d e → History c e

-- Of a result, when there is one.
KeepsPinned : FundingConfig → Result FundingError FundingConfig → Type 0
KeepsPinned c (ok d) = Pinned c d
KeepsPinned c (err e) = Unit {0}

same-Pinned : (c : FundingConfig) → Pinned c c
same-Pinned c = record {
  cold = λ h. refl;
  deposits = λ h. refl;
  withdrawals = λ h. refl;
  destination = λ h. refl;
}

-- The updates themselves never replace what is there.
pin_role-KeepsPinned :
    (role : Role) (refs : List ℕ) (c : FundingConfig) → KeepsPinned c (pin_role role refs c)
unfolding pin_role KeepsPinned
pin_role-KeepsPinned deposit_cold_role refs c = elim (Bool-cases (is_some c.deposit_cold)) [
  | inl e ↦ rw e tt
  | inr e ↦ rw e record {
    cold = λ h. ground (arith, h, e);
    deposits = λ h. refl;
    withdrawals = λ h. refl;
    destination = λ h. refl;
  }
]
pin_role-KeepsPinned deposit_relays_role refs c =
    elim (Bool-cases (ltb 0 (length c.deposit_relays))) [
      | inl e ↦ rw e tt
      | inr e ↦ rw e record {
        cold = λ h. refl;
        deposits = λ h. ground (arith, h, e);
        withdrawals = λ h. refl;
        destination = λ h. refl;
      }
    ]
pin_role-KeepsPinned withdraw_relays_role refs c =
    elim (Bool-cases (ltb 0 (length c.withdraw_relays))) [
      | inl e ↦ rw e tt
      | inr e ↦ rw e record {
        cold = λ h. refl;
        deposits = λ h. refl;
        withdrawals = λ h. ground (arith, h, e);
        destination = λ h. refl;
      }
    ]
pin_role-KeepsPinned (other_role r) refs c = same-Pinned c

bind-KeepsPinned :
    {A : Type 0} (c : FundingConfig) (m : Result FundingError A)
    (f : A → Result FundingError FundingConfig)
    → ((a : A) → KeepsPinned c (f a))
    → KeepsPinned c (m >>= f)
unfolding KeepsPinned
bind-KeepsPinned c (ok a) f h = h a
bind-KeepsPinned c (err e) f h = tt

set_funding_withdraw_cold-KeepsPinned :
    (parsed : Option ℕ) (c : FundingConfig) → KeepsPinned c (set_funding_withdraw_cold parsed c)
unfolding set_funding_withdraw_cold KeepsPinned
set_funding_withdraw_cold-KeepsPinned none c = tt
set_funding_withdraw_cold-KeepsPinned (some a) c = elim (Bool-cases (c.withdraw_cold == 0)) [
  | inl e ↦ rw e record {
    cold = λ h. refl;
    deposits = λ h. refl;
    withdrawals = λ h. refl;
    destination = λ h. absurd (h (ground (arith, e)));
  }
  | inr e ↦ rw e tt
]

generate_funding_wallets-KeepsPinned :
    (role : Role) (unlocked : Bool) (imported : Option (List ℕ)) (c : FundingConfig)
    → KeepsPinned c (generate_funding_wallets role unlocked imported c)
unfolding generate_funding_wallets
generate_funding_wallets-KeepsPinned role unlocked imported c =
    bind-KeepsPinned c (funding_role_spec role) _ (λ count.
      bind-KeepsPinned c (check (funding_role_available role c) already_configured) _ (λ _.
        bind-KeepsPinned c (check unlocked vault_locked) _ (λ _.
          bind-KeepsPinned c (elim imported [ none ↦ err vault_rejected | some added ↦ ok added ]) _
            (λ refs.
              bind-KeepsPinned c (check (length refs == count) vault_rejected) _
                (λ _. pin_role-KeepsPinned role refs c)))))

chain-Pinned : (c d e : FundingConfig) → Pinned c d → Pinned d e → Pinned c e
chain-Pinned c d e p q = record {
  cold = λ h. q.cold (ap is_some (p.cold h) ∙ h) ∙ p.cold h;
  deposits = λ h. q.deposits (rw (p.deposits h) h) ∙ p.deposits h;
  withdrawals = λ h. q.withdrawals (rw (p.withdrawals h) h) ∙ p.withdrawals h;
  destination = λ h. q.destination (λ z. h (sym (p.destination h) ∙ z)) ∙ p.destination h;
}

step-Pinned : (c d : FundingConfig) → Configured c d → Pinned c d
unfolding KeepsPinned
step-Pinned c d (generated role unlocked imported _ _ h) =
    subst (KeepsPinned c) h (generate_funding_wallets-KeepsPinned role unlocked imported c)
step-Pinned c d (destined parsed _ _ h) =
    subst (KeepsPinned c) h (set_funding_withdraw_cold-KeepsPinned parsed c)

-- However many calls of the two handlers succeed, a cold wallet, a set of relays and a destination
-- that were configured at the start stay what they were.
pub History-Pinned : (c d : FundingConfig) → History c d → Pinned c d
History-Pinned c d (unchanged _) = same-Pinned c
History-Pinned c e (then_configured _ d _ past last) =
    chain-Pinned c d e (History-Pinned c d past) (step-Pinned d e last)
