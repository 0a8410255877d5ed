-- ===== src/Mm/Approvals.antt =====
-- The sell approvals of internal/ponsmm/engine.go: `ensureApprove` and `watchApproval`, for one wallet.
-- Calls for the same wallet interleave; each step is a section under `approvalMu`, the take of the
-- wallet's `txMu` with the check under it, the broadcast, or the end of a wait.
pub mod Single
use pons_mm_desktop.Prelude.{
  ℕ, ◌+◌, ◌-◌, ◌<◌, ◌≡◌, Bool, true, false, ◌||◌, Option, none, some, leb, if◌then◌else◌,
}

-- What a call that holds `txMu` for its approval has done: nothing yet, or it has broadcast.
pub data Sending : Type 0 where
  nobody building published : Sending

-- `approvalReady` and `approvalSubmitted` at the wallet, the holder of `txMu`, and the number of calls
-- and watchers that wait for a receipt. The other counts are no variables of the source: the approvals
-- that were broadcast, and the waits that ended with a receipt of a success or with an error. A wait also
-- ends with an error after 60 seconds, while its transaction may still be pending.
pub record Approval : Type 0 where
  pub ready : Bool
  pub submitted : Bool
  pub tx_mu : Sending
  pub waiting : ℕ
  pub sent : ℕ
  pub confirmed : ℕ
  pub lost : ℕ

abbrev pub no_approval : Approval
no_approval = record {
  ready = false;
  submitted = false;
  tx_mu = nobody;
  waiting = 0;
  sent = 0;
  confirmed = 0;
  lost = 0;
}

abbrev pub is_settled : Approval → Bool
is_settled s = s.ready || s.submitted

-- The first part of a call: the check, then the allowance, if it was read, against what is needed.
unfoldable pub check_allowance : Option ℕ → ℕ → Approval → Approval
check_allowance allowance need s = if is_settled s then s else elim allowance [
  | none ↦ s
  | some current ↦ if leb need current then record s { ready = true } else s
]

-- The second part takes `txMu` and checks again; it gives the lock back at once if it may return.
unfoldable pub take_tx_mu : Approval → Approval
take_tx_mu s = if is_settled s then s else record s { tx_mu = building }

-- Then parameters, build and send, all of which the flag stands for: no error.
unfoldable pub send_approval : Bool → Approval → Approval
send_approval sends s =
    if sends then record s { tx_mu = published; sent = s.sent + 1 } else record s { tx_mu = nobody }

-- The flag is set in a section of its own, under `txMu`, which is then given back; the wait begins.
unfoldable pub mark_submitted : Approval → Approval
mark_submitted s = record s { submitted = true; tx_mu = nobody; waiting = s.waiting + 1 }

-- The end of a wait, in `watchApproval` or in the call itself: a receipt without an error, or an error.
unfoldable pub approval_waited : Bool → Approval → Approval
approval_waited success s =
    let over : Approval = record s { waiting = s.waiting - 1 } in
    if success
    then record over { ready = true; confirmed = s.confirmed + 1 }
    else record over { submitted = false; lost = s.lost + 1 }

pub data Step (s : Approval) : Approval → Type 0 where
  checks : (allowance : Option ℕ) (need : ℕ) → Step s (check_allowance allowance need s)
  takes : s.tx_mu ≡ nobody → Step s (take_tx_mu s)
  sends : (success : Bool) → s.tx_mu ≡ building → Step s (send_approval success s)
  marks : s.tx_mu ≡ published → Step s (mark_submitted s)
  waits : (success : Bool) → 0 < s.waiting → Step s (approval_waited success s)

pub data Reach : Approval → Type 0 where
  start : Reach no_approval
  step : (s t : Approval) → Reach s → Step s t → Reach t
