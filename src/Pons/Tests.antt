-- ===== src/Pons/Tests.antt =====
-- The theorems on internal/pons, but for the snipers, at concrete inputs.
use pons_mm_desktop.Prelude.{
  ℕ, zero, suc, ◌+◌, ◌-◌, ◌≤◌, ◌<◌, ◌≡◌, ap, ◌∙◌, true, false, none, some, List, [], ◌∷◌, ◌++◌,
  arith,
}
use pons_mm_desktop.Prelude.Int.{pos, ◌+ℤ◌}
use pons_mm_desktop.Pons.Curve.{after_fee, tokens_out_for_quote, quote_out_for_tokens}
use pons_mm_desktop.Pons.Curve.RoundTrip.{sell-buy-le}
use pons_mm_desktop.Pons.Transport.{
  Response, Attempt, round_trip, rate_limit_retries, first_backoff,
}
use pons_mm_desktop.Pons.Transport.Replaying.{Retried, round_trip-Retried}
use pons_mm_desktop.Pons.Events.{Log, Abi}
use pons_mm_desktop.Pons.Watch.{Tick, start_polling, poll_launches}
use pons_mm_desktop.Pons.Watch.Coverage.{Covers, poll_launches-Covers}

-- Reserves of 100 in quote, 1000 tokens, a fee of 1%.
sell-buy-le_example :
    let out = tokens_out_for_quote 100 1000 50 (pos 100) (pos 0) in
    quote_out_for_tokens (100 + after_fee 50 (pos 100 +ℤ pos 0)) (1000 - out) out (pos 100) (pos 0)
    ≤ 50
sell-buy-le_example = sell-buy-le 100 1000 50 (pos 100) (pos 0) (omega arith)

abbrev answer : ℕ → Response
answer code = record { status = code; content_length = pos 0; body = none; readable = true }

-- Two refusals, then an answer.
abbrev net : ℕ → Attempt
net zero = record { answer = some (answer 429); random = 5; cancelled = false }
net (suc zero) = record { answer = some (answer 429); random = 6; cancelled = false }
net (suc (suc n)) = record { answer = some (answer 200); random = 0; cancelled = false }

round_trip-Retried_example :
    Retried (1 ∷ 2 ∷ []) net rate_limit_retries 0 first_backoff (round_trip (1 ∷ 2 ∷ []) net)
    × ((round_trip (1 ∷ 2 ∷ []) net).waited ≤ 5625000000)
round_trip-Retried_example = round_trip-Retried (1 ∷ 2 ∷ []) net

abbrev abi : Abi
abi = record {
  launched_topic = 1;
  curve_buy_topic = 2;
  curve_sell_topic = 3;
  routed_buy_topic = 4;
  router_launched_topic = 5;
  unpack_launched = λ d. some 0;
  unpack_curve_buy = λ d. some (d, d);
  unpack_curve_sell = λ d. some (d, d);
  unpack_routed_buy = λ d. some (d, d, 0, 0, 0);
  unpack_router_launched = λ d. some (d, d, d);
}

abbrev launch : Log
launch = record {
  address = 9;
  topics = 1 ∷ 11 ∷ 12 ∷ 13 ∷ [];
  contents = 0;
  block = 0;
  index = 0;
  tx_hash = 0;
}

-- A node that returns one launch for each block of a range.
abbrev copies : ℕ → List Log
copies zero = []
copies (suc n) = launch ∷ copies n

copies-add : (m n : ℕ) → copies (m + n) ≡ copies m ++ copies n
copies-add zero n = let same : 0 + n ≡ n = omega arith in ap copies same
copies-add (suc m) n =
    let same : suc m + n ≡ suc (m + n) = omega arith in
    ap copies same ∙ ap (λ ls. launch ∷ ls) (copies-add m n)

abbrev filter : ℕ → ℕ → List Log
filter from to = copies (to + 1 - from)

filter-splits : (a b c : ℕ) → a ≤ b → b < c → filter a c ≡ filter a b ++ filter (b + 1) c
filter-splits a b c p q =
    let whole : c + 1 - a ≡ (b + 1 - a) + (c + 1 - (b + 1)) = omega arith in
    ap copies whole ∙ copies-add (b + 1 - a) (c + 1 - (b + 1))

-- A tick that fails, one that is answered and one that sees an older head.
abbrev ticks : List Tick
ticks =
    record { head = none; answered = true }
    ∷ record { head = some 4; answered = true }
    ∷ record { head = some 3; answered = true }
    ∷ []

poll_launches-Covers_example :
    Covers abi filter 2 (poll_launches abi filter ticks (start_polling (some 2)))
unfolding start_polling
poll_launches-Covers_example = poll_launches-Covers abi filter (some 2) ticks filter-splits
