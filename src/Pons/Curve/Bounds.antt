-- ===== src/Pons/Curve/Bounds.antt =====
-- Bounds and monotonicity of the curve's quotes (internal/pons/curve.go).
use pons_mm_desktop.Prelude.{
  ℕ, ◌+◌, ◌-◌, ◌*◌, ◌/◌, ◌≤◌, ◌<◌, ◌≡◌, arith, mul-div-le_self, mul-div-lt_self, div_mono,
}
use native.Mathlib.Nat.{mul-le-mul_right, le-div_iff_mul-le, div-mul-le_self}
use pons_mm_desktop.Prelude.Int.{ℤ, pos_part, ◌+ℤ◌}
use pons_mm_desktop.Pons.Curve.{after_fee, tokens_out_for_quote, quote_out_for_tokens, bps_denom}

pub after_fee-le : (amount : ℕ) (fee : ℤ) → after_fee amount fee ≤ amount
unfolding after_fee
after_fee-le amount fee =
    ground (arith, mul-div-le_self amount (bps_denom - pos_part fee) bps_denom)

pub after_fee_mono : (a b : ℕ) (fee : ℤ) → a ≤ b → after_fee a fee ≤ after_fee b fee
unfolding after_fee
after_fee_mono a b fee h =
    let k = bps_denom - pos_part fee in
    ground (arith, mul-le-mul_right k h, div_mono (a * k) (b * k) bps_denom)

-- A buy never empties the token reserve.
pub tokens_out-lt-reserve :
    (q t x : ℕ) (fee tax : ℤ) → 0 < t → tokens_out_for_quote q t x fee tax < t
unfolding tokens_out_for_quote
tokens_out-lt-reserve q t x fee tax h =
    let net = after_fee x (fee +ℤ tax) in ground (arith, mul-div-lt_self t net (q + net))

-- A sell never empties the quote reserve.
pub quote_out-lt-reserve :
    (q t x : ℕ) (fee tax : ℤ) → 0 < q → quote_out_for_tokens q t x fee tax < q
unfolding quote_out_for_tokens
quote_out-lt-reserve q t x fee tax h =
    let gross = q * x / (t + x) in
    ground (arith, after_fee-le gross (fee +ℤ tax), mul-div-lt_self q x (t + x))

add-mul-le : (k q t n d : ℕ) → k ≤ t → k * (q + n) ≤ t * n → k * (q + (n + d)) ≤ t * (n + d)
add-mul-le k q t n d h e = omega (arith, mul-le-mul_right d h)

-- t * n / (q + n) grows with n.
share_mono : (q t n m : ℕ) → n ≤ m → 0 < q → t * n / (q + n) ≤ t * m / (q + m)
share_mono q t n m h p =
    let k = t * n / (q + n) in
    let small : k ≤ t = mul-div-le_self t n (q + n) (omega arith) (omega arith) in
    let more : n + (m - n) ≡ m = omega arith in
    (le-div_iff_mul-le {k = q + m} {x = k} {y = t * m} (omega arith)).1
      (rw more at (add-mul-le k q t n (m - n) small (div-mul-le_self (t * n) (q + n))))

-- Paying more never buys fewer tokens.
pub tokens_out_mono :
    (q t x y : ℕ) (fee tax : ℤ)
    → x ≤ y
    → tokens_out_for_quote q t x fee tax ≤ tokens_out_for_quote q t y fee tax
unfolding tokens_out_for_quote
tokens_out_mono q t x y fee tax h =
    let f = fee +ℤ tax in
    ground (arith, after_fee_mono x y f, share_mono q t (after_fee x f) (after_fee y f))
