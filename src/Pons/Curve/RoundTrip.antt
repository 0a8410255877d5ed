-- ===== src/Pons/Curve/RoundTrip.antt =====
-- A buy followed by a sell of what it bought (internal/pons/curve.go).
use native.Mathlib.Nat.{mul_comm, div-mul-le_self, div-le_of_le-mul}
use pons_mm_desktop.Prelude.{ℕ, ◌+◌, ◌-◌, ◌*◌, ◌/◌, ◌≤◌, ◌<◌, ◌≡◌, arith}
use pons_mm_desktop.Prelude.Int.{ℤ, ◌+ℤ◌}
use pons_mm_desktop.Pons.Curve.{after_fee, tokens_out_for_quote, quote_out_for_tokens}
use pons_mm_desktop.Pons.Curve.Bounds.{after_fee-le, tokens_out-lt-reserve}

-- What a buy of `net` gets is worth at most `net` at the product formula.
tokens_out-mul-le :
    (q t x : ℕ) (fee tax : ℤ)
    → let net = after_fee x (fee +ℤ tax) in (q + net) * tokens_out_for_quote q t x fee tax ≤ t * net
unfolding tokens_out_for_quote
tokens_out-mul-le q t x fee tax =
    let net = after_fee x (fee +ℤ tax) in
    ground (arith, mul_comm (q + net) (t * net / (q + net)), div-mul-le_self (t * net) (q + net))

gross-le :
    (q t x : ℕ) (fee tax : ℤ)
    → 0 < t
    → let net = after_fee x (fee +ℤ tax) in
      let out = tokens_out_for_quote q t x fee tax in (q + net) * out / ((t - out) + out) ≤ net
gross-le q t x fee tax h =
    let net = after_fee x (fee +ℤ tax) in
    let out = tokens_out_for_quote q t x fee tax in
    let whole : (t - out) + out ≡ t = omega (arith, tokens_out-lt-reserve q t x fee tax h) in
    rw whole (div-le_of_le-mul t (tokens_out-mul-le q t x fee tax))

-- Buying, then selling everything that was bought, at the reserves which the buy leaves, never
-- returns more than was paid, whatever the fees.
pub sell-buy-le :
    (q t x : ℕ) (fee tax : ℤ)
    → 0 < t
    → let out = tokens_out_for_quote q t x fee tax in
      quote_out_for_tokens (q + after_fee x (fee +ℤ tax)) (t - out) out fee tax ≤ x
unfolding quote_out_for_tokens
sell-buy-le q t x fee tax h =
    let net = after_fee x (fee +ℤ tax) in
    let out = tokens_out_for_quote q t x fee tax in
    let gross = (q + net) * out / ((t - out) + out) in
    ground (
      arith,
      gross-le q t x fee tax h,
      after_fee-le gross (fee +ℤ tax),
      after_fee-le x (fee +ℤ tax),
    )
