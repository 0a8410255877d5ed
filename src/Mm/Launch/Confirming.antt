-- ===== src/Mm/Launch/Confirming.antt =====
-- How a launch that was broadcast ends (`launchV2` in internal/ponsmm/engine.go, with
-- `WaitReceiptEvery` of internal/pons/v1_launch.go).
use mathlib.Core.Path.{subst}
use pons_mm_desktop.Prelude.{
  ◌≡◌, ◌⊎◌, inl, inr, refl, Bool, true, false, ◌&&◌, Option, some, List, Option-cases,
}
use pons_mm_desktop.Prelude.Result.{err}
use pons_mm_desktop.Pons.Snipe.{Look}
use pons_mm_desktop.Pons.Snipe.Entry.{Reads}
use pons_mm_desktop.Pons.Events.{LaunchEvent}
use pons_mm_desktop.Pons.Client.{Waited, wait_receipt_every}
use pons_mm_desktop.Pons.Client.Receipts.{Told, OnWait, wait_receipt_every-OnWait}
use pons_mm_desktop.Mm.Bundle.{BundleMode}
use pons_mm_desktop.Mm.Launch.{
  not_confirmed, no_event, read, LaunchEnd, has_event, is_atomic, confirm_launch,
}

-- Not confirmed, and no withdrawal is started; or a success was read.
abbrev pub Ended : Option BundleMode → List (Look Bool) → Option LaunchEvent → LaunchEnd → Type 0
Ended mode looks event end =
    ((end.result ≡ err not_confirmed) × (end.withdraws ≡ false))
    ⊎ (Reads true looks
        × (end.result ≡ read event no_event)
        × (end.withdraws ≡ (has_event event && is_atomic mode)))

told :
    (mode : Option BundleMode) (looks : List (Look Bool)) (w : Waited) (event : Option LaunchEvent)
    → Told looks w
    → Ended mode looks event (confirm_launch mode w event)
unfolding confirm_launch
told mode looks w event (inl (e, s, r)) = rw (e, s) (inr (r, refl, refl))
told mode looks w event (inr (inl (e, s, r))) = rw (e) (inl (refl, refl))
told mode looks w event (inr (inr (s, n, m))) = elim (Option-cases w.error) [
  | inl e ↦ absurd (n e)
  | inr (x, e) ↦ rw e (inl (refl, refl))
]

-- Whatever the rounds of the wait see, a launch that was broadcast ends in one of two ways. It ends with
-- the error that it is not confirmed and starts no withdrawal of the deposits, also when it was atomic and
-- the receipt says that it reverted. Or a round read a receipt of a success; it ends with the event of that
-- receipt, or the error that there is none, and starts the withdrawal exactly if there is an event and the
-- launch was atomic.
pub confirm_launch-Ended :
    (mode : Option BundleMode) (looks : List (Look Bool)) (w : Waited) (event : Option LaunchEvent)
    → wait_receipt_every looks ≡ some w
    → Ended mode looks event (confirm_launch mode w event)
confirm_launch-Ended mode looks w event h =
    told mode looks w event (subst (OnWait looks) h (wait_receipt_every-OnWait looks))
