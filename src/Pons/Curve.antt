-- ===== src/Pons/Curve.antt =====
-- internal/pons/curve.go: local pricing on the constant-product bonding curve.
-- Amounts are uint256 values of the chain, so they are numbers, and a nil pointer is 0, which the
-- functions treat alike (`sign` is 0 for both). Fees in basis points are int64 and may be negative.
pub mod Bounds
pub mod RoundTrip
use pons_mm_desktop.Prelude.{ℕ, ◌+◌, ◌-◌, ◌*◌, ◌/◌, Bool, ◌||◌, leb, ◌==◌, if◌then◌else◌}
use pons_mm_desktop.Prelude.Int.{ℤ, pos, pos_part, ◌+ℤ◌, leb_ℤ}

abbrev pub bps_denom : ℕ
bps_denom = 10000

unfoldable pub after_fee : ℕ → ℤ → ℕ
after_fee amount fee_bps =
    if leb_ℤ fee_bps (pos 0)
    then amount
    else if leb_ℤ (pos bps_denom) fee_bps
    then 0
    else amount * (bps_denom - pos_part fee_bps) / bps_denom

unfoldable pub tokens_out_for_quote : ℕ → ℕ → ℕ → ℤ → ℤ → ℕ
tokens_out_for_quote quote_reserve token_reserve quote_in fee_bps creator_tax_bps =
    if quote_reserve == 0 || token_reserve == 0 || quote_in == 0
    then 0
    else let net = after_fee quote_in (fee_bps +ℤ creator_tax_bps) in
      token_reserve * net / (quote_reserve + net)

unfoldable pub quote_out_for_tokens : ℕ → ℕ → ℕ → ℤ → ℤ → ℕ
quote_out_for_tokens quote_reserve token_reserve tokens_in fee_bps creator_tax_bps =
    if quote_reserve == 0 || token_reserve == 0 || tokens_in == 0
    then 0
    else after_fee (quote_reserve * tokens_in / (token_reserve + tokens_in))
        (fee_bps +ℤ creator_tax_bps)

-- The same shape as `after_fee`, for a slippage tolerance.
unfoldable pub apply_slippage_down : ℕ → ℤ → ℕ
apply_slippage_down amount slippage_bps =
    if leb_ℤ slippage_bps (pos 0)
    then amount
    else if leb_ℤ (pos bps_denom) slippage_bps
    then 0
    else amount * (bps_denom - pos_part slippage_bps) / bps_denom
