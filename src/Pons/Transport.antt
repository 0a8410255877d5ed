-- ===== src/Pons/Transport.antt =====
-- internal/pons/transport.go: the HTTP transport that replays rate-limited requests. Texts are lists of
-- bytes; what the network answers to each attempt is an argument. Times are in nanoseconds.
pub mod Replaying
use pons_mm_desktop.Prelude.{
  ℕ, zero, suc, ◌+◌, ◌*◌, ◌/◌, ◌%◌, Bool, true, false, ◌&&◌, ◌||◌, not, Option, none, some, List,
  [], ◌∷◌, ◌==◌, ltb, if◌then◌else◌, length, map, any,
}
use pons_mm_desktop.Prelude.Int.{ℤ, pos, ltb_ℤ}
use pons_mm_desktop.Prelude.Result.{Result, ok, err}

abbrev pub rate_limit_retries : ℕ
rate_limit_retries = 4

abbrev pub first_backoff : ℕ
first_backoff = 250000000

abbrev pub sniff_limit : ℕ
sniff_limit = 4096

-- The texts in ASCII codes: "error" in its quotes, then the five needles, "request limit reached",
-- "rate limit", "too many requests", "exceeded the quota" and "requests per second".
abbrev error_text : List ℕ
error_text = 34 ∷ 101 ∷ 114 ∷ 114 ∷ 111 ∷ 114 ∷ 34 ∷ []

abbrev limit_reached_text : List ℕ
limit_reached_text =
    114 ∷ 101 ∷ 113 ∷ 117 ∷ 101 ∷ 115 ∷ 116 ∷ 32 ∷ 108 ∷ 105 ∷ 109 ∷ 105 ∷ 116 ∷ 32 ∷ 114 ∷ 101 ∷ 97
    ∷ 99 ∷ 104 ∷ 101 ∷ 100 ∷ []

abbrev rate_limit_text : List ℕ
rate_limit_text = 114 ∷ 97 ∷ 116 ∷ 101 ∷ 32 ∷ 108 ∷ 105 ∷ 109 ∷ 105 ∷ 116 ∷ []

abbrev too_many_text : List ℕ
too_many_text =
    116 ∷ 111 ∷ 111 ∷ 32 ∷ 109 ∷ 97 ∷ 110 ∷ 121 ∷ 32 ∷ 114 ∷ 101 ∷ 113 ∷ 117 ∷ 101 ∷ 115 ∷ 116 ∷ 115
    ∷ []

abbrev quota_text : List ℕ
quota_text =
    101 ∷ 120 ∷ 99 ∷ 101 ∷ 101 ∷ 100 ∷ 101 ∷ 100 ∷ 32 ∷ 116 ∷ 104 ∷ 101 ∷ 32 ∷ 113 ∷ 117 ∷ 111 ∷ 116
    ∷ 97 ∷ []

abbrev per_second_text : List ℕ
per_second_text =
    114 ∷ 101 ∷ 113 ∷ 117 ∷ 101 ∷ 115 ∷ 116 ∷ 115 ∷ 32 ∷ 112 ∷ 101 ∷ 114 ∷ 32 ∷ 115 ∷ 101 ∷ 99 ∷ 111
    ∷ 110 ∷ 100 ∷ []

abbrev pub needles : List (List ℕ)
needles = limit_reached_text ∷ rate_limit_text ∷ too_many_text ∷ quota_text ∷ per_second_text ∷ []

-- `strings.HasPrefix` and `strings.Contains`.
unfoldable pub starts_with : List ℕ → List ℕ → Bool
starts_with [] text = true
starts_with (n ∷ needle) [] = false
starts_with (n ∷ needle) (c ∷ text) = n == c && starts_with needle text

unfoldable pub contains : List ℕ → List ℕ → Bool
unfolding starts_with
contains needle [] = starts_with needle []
contains needle (c ∷ text) = starts_with needle (c ∷ text) || contains needle text

-- `strings.ToLower` on ASCII letters.
abbrev pub lower : ℕ → ℕ
lower c = if ltb 64 c && ltb c 91 then c + 32 else c

unfoldable pub is_rate_limit_message : List ℕ → Bool
unfolding contains
is_rate_limit_message body =
    if contains error_text body then any (λ n. contains n (map lower body)) needles else false

-- A response: its status, its declared length (negative if unknown), and its body, `none` if it has
-- none. `readable` says that reading the head of the body succeeds.
pub record Response : Type 0 where
  pub status : ℕ
  pub content_length : ℤ
  pub body : Option (List ℕ)
  pub readable : Bool

-- `sniffRateLimited`; `none` is its error. The head it reads is put back, so the response stays whole.
unfoldable pub sniff_rate_limited : Response → Option Bool
unfolding is_rate_limit_message
sniff_rate_limited r =
    if r.status == 429
    then some true
    else if ltb_ℤ (pos sniff_limit) r.content_length
    then some false
    else elim r.body [
      | none ↦ some false
      | some body ↦
          if not r.readable
          then none
          else if ltb sniff_limit (length body)
          then some false
          else some (is_rate_limit_message body)
    ]

-- What one attempt meets: an error of the network (`none`) or a response; then the random number of the
-- wait that follows, and whether the context ends during it.
pub record Attempt : Type 0 where
  pub answer : Option Response
  pub random : ℕ
  pub cancelled : Bool

pub data TransportError : Type 0 where
  network_error body_error context_error : TransportError

-- What a round trip does: the bodies it sends, the time it waits, and its outcome.
pub record Trip : Type 0 where
  pub sent : List (List ℕ)
  pub waited : ℕ
  pub outcome : Result TransportError Response

abbrev pub ends_with : List ℕ → Result TransportError Response → Trip
ends_with body outcome = record { sent = body ∷ []; waited = 0; outcome = outcome }

abbrev pub after_wait : List ℕ → ℕ → Trip → Trip
after_wait body wait rest = record {
  sent = body ∷ rest.sent;
  waited = wait + rest.waited;
  outcome = rest.outcome;
}

-- The attempts from the one numbered `n` on, with `left` retries. The wait has a jitter of up to half the
-- backoff.
unfoldable pub attempts_from : List ℕ → (ℕ → Attempt) → ℕ → ℕ → ℕ → Trip
unfolding sniff_rate_limited
attempts_from body net zero n backoff = elim (net n).answer [
  | none ↦ ends_with body (err network_error)
  | some r ↦ elim (sniff_rate_limited r) [
    | none ↦ ends_with body (err body_error)
    | some limited ↦ ends_with body (ok r)
  ]
]
attempts_from body net (suc left) n backoff =
    let rest = attempts_from body net left (n + 1) (backoff * 2) in
    elim (net n).answer [
      | none ↦ ends_with body (err network_error)
      | some r ↦ elim (sniff_rate_limited r) [
        | none ↦ ends_with body (err body_error)
        | some false ↦ ends_with body (ok r)
        | some true ↦
            if (net n).cancelled
            then ends_with body (err context_error)
            else after_wait body (backoff + (net n).random % (backoff / 2)) rest
      ]
    ]

-- `RoundTrip` of a request with this body, once it is read. A wait that the end of the context cuts
-- short is not counted.
unfoldable pub round_trip : List ℕ → (ℕ → Attempt) → Trip
unfolding attempts_from
round_trip body net = attempts_from body net rate_limit_retries 0 first_backoff
