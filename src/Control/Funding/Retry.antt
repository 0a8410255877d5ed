-- ===== src/Control/Funding/Retry.antt =====
-- internal/control/funding_engine.go: `fundingRPC`, which repeats a call while its failure is transient.
-- `call` is the call's answer at each attempt, `waits` whether the limiter and the pause before the
-- next attempt let it go on (they end with the context).
use pons_mm_desktop.Prelude.{
  ℕ, suc, zero, ◌+◌, ◌-◌, ◌≤◌, ◌<◌, ◌≡◌, refl, ap, ◌∙◌, Bool, true, false, not, Bool-cases, inl,
  inr, if◌then◌else◌, leb, arith,
}

pub data Answer : Type 0 where
  value : ℕ → Answer
  transient permanent : ℕ → Answer

pub data CallResult : Type 0 where
  returned : ℕ → CallResult
  gave_error : ℕ → CallResult
  context_ended : CallResult

abbrev pub funding_rpc_tries : ℕ
funding_rpc_tries = 6

-- What the loop does with the answer of an attempt, where `later` is what the passes after it come to:
-- the calls that are made, this one counted, and the result.
abbrev pub settle : Bool → ℕ → ℕ × CallResult → Answer → ℕ × CallResult
settle go_on attempt later (value v) = (1, returned v)
settle go_on attempt later (permanent e) = (1, gave_error e)
settle go_on attempt later (transient e) =
    if leb funding_rpc_tries attempt
    then (1, gave_error e)
    else if go_on
    then (suc later.0, later.1)
    else (1, context_ended)

unfoldable pub step : (ℕ → Answer) → (ℕ → Bool) → (ℕ → Bool) → ℕ → ℕ × CallResult → ℕ × CallResult
step call limiter pause attempt later =
    if not (limiter attempt)
    then (0, context_ended)
    else settle (pause attempt) attempt later (call attempt)

-- From attempt number `attempt` on, with `fuel` attempts left.
unfoldable pub attempts : (ℕ → Answer) → (ℕ → Bool) → (ℕ → Bool) → ℕ → ℕ → ℕ × CallResult
unfolding step
attempts call limiter pause zero attempt = (0, context_ended)
attempts call limiter pause (suc fuel) attempt =
    step call limiter pause attempt (attempts call limiter pause fuel (attempt + 1))

-- `fundingRPC`: the loop has no bound of its own; six attempts are enough, as `attempts-enough` shows.
unfoldable pub funding_rpc : (ℕ → Answer) → (ℕ → Bool) → (ℕ → Bool) → ℕ × CallResult
unfolding attempts
funding_rpc call limiter pause = attempts call limiter pause funding_rpc_tries 1

-- The sixth attempt is the last, whatever would follow.
last-settle :
    (go_on : Bool) (attempt : ℕ) (later later' : ℕ × CallResult) (a : Answer)
    → leb funding_rpc_tries attempt ≡ true
    → settle go_on attempt later a ≡ settle go_on attempt later' a
last-settle go_on attempt later later' (value v) e = refl
last-settle go_on attempt later later' (permanent k) e = refl
last-settle go_on attempt later later' (transient k) e = rw e refl

last-step :
    (call : ℕ → Answer) (limiter pause : ℕ → Bool) (attempt : ℕ) (later later' : ℕ × CallResult)
    → leb funding_rpc_tries attempt ≡ true
    → step call limiter pause attempt later ≡ step call limiter pause attempt later'
unfolding step
last-step call limiter pause attempt later later' e =
    ap (λ (z : ℕ × CallResult). if not (limiter attempt) then (0, context_ended) else z)
      (last-settle (pause attempt) attempt later later' (call attempt) e)

-- Any more fuel changes nothing, once it reaches the sixth attempt.
attempts-enough :
    (call : ℕ → Answer) (limiter pause : ℕ → Bool) (fuel more attempt : ℕ)
    → fuel ≤ more
    → 7 ≤ attempt + fuel
    → 0 < fuel
    → attempts call limiter pause more attempt ≡ attempts call limiter pause fuel attempt
unfolding attempts
attempts-enough call limiter pause zero more attempt le enough pos = ground (arith, pos)
attempts-enough call limiter pause (suc fuel) zero attempt le enough pos = ground (arith, le)
attempts-enough call limiter pause (suc fuel) (suc more) attempt le enough pos =
    elim (Bool-cases (leb funding_rpc_tries attempt)) [
      | inl e ↦
          last-step call limiter pause attempt (attempts call limiter pause more (attempt + 1))
            (attempts call limiter pause fuel (attempt + 1)) e
      | inr e ↦ ap (step call limiter pause attempt) (
          attempts-enough call limiter pause fuel more (attempt + 1) (omega (arith, le))
            (omega (arith, enough)) (ground (arith, e, enough)))
    ]

attempts-few :
    (call : ℕ → Answer) (limiter pause : ℕ → Bool) (fuel attempt : ℕ)
    → (attempts call limiter pause fuel attempt).0 ≤ fuel
unfolding attempts step
attempts-few call limiter pause zero attempt = omega arith
attempts-few call limiter pause (suc fuel) attempt =
    ground (arith, attempts-few call limiter pause fuel (attempt + 1))

-- The loop, which has no bound of its own, ends after at most six calls: with any more fuel the
-- result is the same.
pub funding_rpc-ends :
    (call : ℕ → Answer) (limiter pause : ℕ → Bool) (more : ℕ)
    → 6 ≤ more
    → (attempts call limiter pause more 1 ≡ funding_rpc call limiter pause)
      × ((funding_rpc call limiter pause).0 ≤ 6)
unfolding funding_rpc
funding_rpc-ends call limiter pause more le = (
  attempts-enough call limiter pause 6 more 1 le (omega arith) (omega arith),
  attempts-few call limiter pause 6 1,
)

recovers-at :
    (call : ℕ → Answer) (fuel attempt last v : ℕ)
    → attempt ≤ last
    → last < attempt + fuel
    → last ≤ 6
    → ((n : ℕ) → n < last → (e : ℕ) × (call n ≡ transient e))
    → call last ≡ value v
    → attempts call (λ n. true) (λ n. true) fuel attempt ≡ (last + 1 - attempt, returned v)
unfolding attempts step
recovers-at call zero attempt last v le lt six before answer = ground (arith, lt, le)
recovers-at call (suc fuel) attempt last v le lt six before answer =
    elim (Bool-cases (leb last attempt)) [
      | inl e ↦
          let same : attempt ≡ last = ground (arith, e, le) in
          rw same (rw answer (ap (λ z. (z, returned v)) (omega arith)))
      | inr e ↦
          let (error, failed) = before attempt (ground (arith, e)) in
          let early : leb 6 attempt ≡ false = ground (arith, e, six) in
          let rest =
            recovers-at call fuel (attempt + 1) last v (ground (arith, e, le)) (omega (arith, lt))
              six before answer in
          rw (failed, early)
            (ap (λ (z : ℕ × CallResult). (suc z.0, z.1)) rest
              ∙ ap (λ z. (z, returned v)) (ground (arith, e, le)))
    ]

-- When the calls before the k-th fail transiently, k is at most six and the k-th gives a value, that
-- value is returned, after k calls; nothing is cut short while the context lasts.
pub funding_rpc-recovers :
    (call : ℕ → Answer) (k v : ℕ)
    → 1 ≤ k
    → k ≤ 6
    → ((n : ℕ) → n < k → (e : ℕ) × (call n ≡ transient e))
    → call k ≡ value v
    → funding_rpc call (λ n. true) (λ n. true) ≡ (k, returned v)
unfolding funding_rpc
funding_rpc-recovers call k v some_call six before answer =
    recovers-at call 6 1 k v some_call (omega (arith, six)) six before answer
    ∙ ap (λ z. (z, returned v)) (omega (arith, some_call))
