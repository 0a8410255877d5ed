-- ===== src/Mm/Approvals/Single.antt =====
-- The approvals of one wallet are sent one after another (`ensureApprove` in internal/ponsmm/engine.go).
use pons_mm_desktop.Prelude.{
  ℕ, ◌≢◌, ◌+◌, ◌≤◌, ◌<◌, ◌≡◌, ◌⊎◌, inl, inr, refl, ap, true, none, some, arith,
}
use pons_mm_desktop.Mm.Approvals.{
  Sending, nobody, building, published, Approval, check_allowance, take_tx_mu, send_approval,
  mark_submitted, approval_waited, Step, checks, takes, sends, marks, waits, Reach, start, step,
}

abbrev is_building : Sending → ℕ
is_building building = 1
is_building _ = 0

abbrev is_published : Sending → ℕ
is_published published = 1
is_published _ = 0

-- At most one approval is being built, broadcast, waited for or confirmed.
abbrev Inv : Approval → Type 0
Inv s =
    (is_building s.tx_mu + is_published s.tx_mu + s.waiting + s.confirmed ≤ 1)
    × ((s.waiting ≡ 0) ⊎ (s.submitted ≡ true))
    × ((s.confirmed ≡ 0) ⊎ (s.ready ≡ true))
    × (s.sent ≡ s.lost + is_published s.tx_mu + s.waiting + s.confirmed)

none_or_some : (n : ℕ) → (n ≡ 0) ⊎ (0 < n)
none_or_some n = ground arith

held-as :
    (s : Approval) (holder : Sending)
    → s.tx_mu ≡ holder
    → (is_building s.tx_mu ≡ is_building holder) × (is_published s.tx_mu ≡ is_published holder)
held-as s holder h = (ap is_building h, ap is_published h)

Step-Inv : (s t : Approval) → Step s t → Inv s → Inv t
unfolding check_allowance take_tx_mu send_approval mark_submitted approval_waited
Step-Inv s t (checks none need) i = ground arith
Step-Inv s t (checks (some current) need) i = ground arith
Step-Inv s t (takes free) i = let (b, o) = held-as s nobody free in ground arith
Step-Inv s t (sends success h) i = let (b, o) = held-as s building h in ground arith
Step-Inv s t (marks h) i = let (b, o) = held-as s published h in ground arith
Step-Inv s t (waits success p) i = ground arith

Reach-Inv : (s : Approval) → Reach s → Inv s
Reach-Inv _ start = (omega arith, inl refl, inl refl, refl)
Reach-Inv _ (step s t r st) = Step-Inv s t st (Reach-Inv s r)

-- However the calls for a wallet interleave, section by section, with the waits for its approvals: at
-- most one approval is waited for, and while it is, it is marked as submitted and no call holds the lock to
-- send another. The approvals broadcast are at most one more than the waits that ended with an error, so
-- another one is broadcast only after such an end; the earlier one may then still be pending.
pub Reach-Single :
    (s : Approval)
    → Reach s
    → (s.waiting ≤ 1)
      × ((s.waiting ≡ 0) ⊎ ((s.submitted ≡ true) × (s.tx_mu ≢ building) × (s.tx_mu ≢ published)))
      × (s.sent ≤ s.lost + 1)
Reach-Single s r =
    let (one, marked, kept, counted) = Reach-Inv s r in (omega arith, apart one marked, omega arith)
  where
    apart :
        is_building s.tx_mu + is_published s.tx_mu + s.waiting + s.confirmed ≤ 1
        → (s.waiting ≡ 0) ⊎ (s.submitted ≡ true)
        → (s.waiting ≡ 0) ⊎ ((s.submitted ≡ true) × (s.tx_mu ≢ building) × (s.tx_mu ≢ published))
    apart one (inl e) = inl e
    apart one (inr e) = elim (none_or_some s.waiting) [
      | inl z ↦ inl z
      | inr p ↦ inr (
        e,
        (λ h. let (b, o) = held-as s building h in omega arith),
        (λ h. let (b, o) = held-as s published h in omega arith),
      )
    ]
