-- ===== src/Pons/Transport/Replaying.antt =====
-- When a request is sent again (`RoundTrip` in internal/pons/transport.go).
use mathlib.Core.Path.{subst}
use native.Mathlib.Nat.{mod-lt}
use pons_mm_desktop.Prelude.{
  ℕ, zero, suc, ◌+◌, ◌*◌, ◌/◌, ◌%◌, ◌≤◌, ◌<◌, ◌≡◌, ◌⊎◌, inl, inr, refl, ap, sym, true, false, none,
  some, List, [], ◌∷◌, arith, length, Bool-cases, Option-cases,
}
use pons_mm_desktop.Prelude.Result.{Result, ok, err}
use pons_mm_desktop.Pons.Transport.{
  Response, sniff_rate_limited, Attempt, TransportError, network_error, body_error, context_error,
  Trip, ends_with, after_wait, attempts_from, round_trip, rate_limit_retries, first_backoff,
}

-- All that is sent is this body.
abbrev pub AllSame : List ℕ → List (List ℕ) → Type 0
AllSame body [] = Unit
AllSame body (sent ∷ rest) = (sent ≡ body) × AllSame body rest

-- The attempt was refused by a rate limit, which executes nothing.
abbrev pub IsLimited : Attempt → Type 0
IsLimited a = (r : Response) × (a.answer ≡ some r) × (sniff_rate_limited r ≡ some true)

-- The `k` attempts from `n` on were refused by a rate limit.
abbrev pub AllLimited : (ℕ → Attempt) → ℕ → ℕ → Type 0
AllLimited net n zero = Unit
AllLimited net n (suc k) = IsLimited (net n) × AllLimited net (n + 1) k

-- The outcome is what the last attempt brought: a response that is no refusal unless all retries are
-- spent, an error of the network or of reading the body, or the end of the context after a refusal.
abbrev pub IsOf : Type 0 → Attempt → Result TransportError Response → Type 0
IsOf Spent a (ok r) = (a.answer ≡ some r) × ((sniff_rate_limited r ≡ some false) ⊎ Spent)
IsOf Spent a (err network_error) = a.answer ≡ none
IsOf Spent a (err body_error) = (r : Response) × (a.answer ≡ some r) × (sniff_rate_limited r ≡ none)
IsOf Spent a (err context_error) = IsLimited a × (a.cancelled ≡ true)

-- Twice the longest time that so many waits take, from this backoff on.
abbrev pub longest : ℕ → ℕ → ℕ
longest backoff zero = 0
longest backoff (suc left) = backoff * 3 + longest (backoff * 2) left

-- `k` retries, at most `left`.
abbrev pub Retried : List ℕ → (ℕ → Attempt) → ℕ → ℕ → ℕ → Trip → Type 0
Retried body net left n backoff trip =
    (k : ℕ) × (k ≤ left)
    × (length trip.sent ≡ suc k)
    × AllSame body trip.sent
    × AllLimited net n k
    × IsOf (k ≡ left) (net (n + k)) trip.outcome
    × (trip.waited * 2 ≤ longest backoff left)

IsOf-map :
    (S T : Type 0) (a : Attempt) (o : Result TransportError Response)
    → (S → T)
    → IsOf S a o
    → IsOf T a o
IsOf-map S T a (ok r) f (h, inl e) = (h, inl e)
IsOf-map S T a (ok r) f (h, inr e) = (h, inr (f e))
IsOf-map S T a (err network_error) f h = h
IsOf-map S T a (err body_error) f h = h
IsOf-map S T a (err context_error) f h = h

at_once :
    (body : List ℕ) (net : ℕ → Attempt) (left n backoff : ℕ)
    (outcome : Result TransportError Response)
    → IsOf (0 ≡ left) (net n) outcome
    → Retried body net left n backoff (ends_with body outcome)
at_once body net left n backoff outcome o =
    let there : n + 0 ≡ n = omega arith in
    (0, omega arith, refl, (refl, tt), tt, rw there o, omega arith)

wait-le : (random backoff : ℕ) → 2 ≤ backoff → (backoff + random % (backoff / 2)) * 2 ≤ backoff * 3
wait-le random backoff p =
    let half : 0 < backoff / 2 = omega arith in omega (arith, mod-lt random half)

once_more :
    (body : List ℕ) (net : ℕ → Attempt) (left n backoff : ℕ) (rest : Trip)
    → 2 ≤ backoff
    → IsLimited (net n)
    → Retried body net left (n + 1) (backoff * 2) rest
    → Retried body net
        (suc left)
        n
        backoff
        (after_wait body (backoff + (net n).random % (backoff / 2)) rest)
once_more body net left n backoff rest p l (k, few, many, same, limited, o, w) =
    let there : n + 1 + k ≡ n + suc k = omega arith in
    (
      suc k,
      omega arith,
      ap suc many,
      (refl, same),
      (l, limited),
      rw (← there)
          (IsOf-map (k ≡ left) (suc k ≡ suc left) (net (n + 1 + k)) rest.outcome (λ e. ap suc e) o),
      omega (arith, wait-le (net n).random backoff p),
    )

-- An attempt that ends the round trip.
settled :
    (body : List ℕ) (net : ℕ → Attempt) (left n backoff : ℕ)
    (outcome : Result TransportError Response)
    → attempts_from body net left n backoff ≡ ends_with body outcome
    → IsOf (0 ≡ left) (net n) outcome
    → Retried body net left n backoff (attempts_from body net left n backoff)
settled body net left n backoff outcome same o =
    subst (Retried body net left n backoff) (sym same) (at_once body net left n backoff outcome o)

attempts_from-Retried :
    (body : List ℕ) (net : ℕ → Attempt) (left n backoff : ℕ)
    → 2 ≤ backoff
    → Retried body net left n backoff (attempts_from body net left n backoff)
unfolding attempts_from
attempts_from-Retried body net zero n backoff p = elim (Option-cases (net n).answer) [
  | inl e ↦ settled body net 0 n backoff (err network_error) (rw (e, attempts_from) refl) e
  | inr (r, e) ↦ elim (Option-cases (sniff_rate_limited r)) [
    | inl f ↦
        settled body net 0 n backoff (err body_error) (rw (e, attempts_from, f) refl) (r, e, f)
    | inr (limited, f) ↦
        settled body net 0 n backoff (ok r) (rw (e, attempts_from, f) refl) (e, inr refl)
  ]
]
attempts_from-Retried body net (suc left) n backoff p = elim (Option-cases (net n).answer) [
  | inl e ↦ settled body net (suc left) n backoff (err network_error) (rw (e, attempts_from) refl) e
  | inr (r, e) ↦ elim (Option-cases (sniff_rate_limited r)) [
    | inl f ↦
        settled body net (suc left) n backoff (err body_error) (rw (e, attempts_from, f) refl)
          (r, e, f)
    | inr (false, f) ↦
        settled body net (suc left) n backoff (ok r) (rw (e, attempts_from, f) refl) (e, inl f)
    | inr (true, f) ↦ elim (Bool-cases (net n).cancelled) [
      | inl c ↦
          settled body net (suc left) n backoff (err context_error)
            (rw (e, attempts_from, f, c) refl) ((r, e, f), c)
      | inr c ↦
          let rest = attempts_from body net left (n + 1) (backoff * 2) in
          let wait = backoff + (net n).random % (backoff / 2) in
          let same : attempts_from body net (suc left) n backoff ≡ after_wait body wait rest =
            rw (e, attempts_from, f, c) refl in
          subst (Retried body net (suc left) n backoff) (sym same) (
            once_more body net left n backoff rest p (r, e, f)
              (attempts_from-Retried body net left (n + 1) (backoff * 2) (omega arith)))
    ]
  ]
]

-- Whatever the network answers, a round trip sends the body once and repeats it unchanged at most 4 times,
-- after attempts that were all refused by a rate limit; it ends with what the last attempt brought, which
-- is an error of the network or of the body, the end of the context after a refusal, or a response, a
-- refusal only after the fourth repetition; and it waits at most 5.625 seconds.
pub round_trip-Retried :
    (body : List ℕ) (net : ℕ → Attempt)
    → Retried body net rate_limit_retries 0 first_backoff (round_trip body net)
      × ((round_trip body net).waited ≤ 5625000000)
unfolding round_trip
round_trip-Retried body net =
    let r = attempts_from-Retried body net rate_limit_retries 0 first_backoff (omega arith) in
    let (k, few, many, same, limited, o, w) = r in (r, omega arith)
