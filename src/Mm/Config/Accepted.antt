-- ===== src/Mm/Config/Accepted.antt =====
-- internal/ponsmm/config.go: what holds of a configuration that `Validate` accepts.
use pons_mm_desktop.Prelude.{
  ℕ, ◌≤◌, ◌<◌, ◌≡◌, refl, ◌⊎◌, Bool, true, false, not, ◌||◌, ◌&&◌, inl, inr, arith,
}
use pons_mm_desktop.Prelude.Int.{ℤ, pos, negsuc, leb_ℤ, ltb_ℤ}
use pons_mm_desktop.Prelude.Result.{ok, ◌>>◌, then-ok}
use pons_mm_desktop.Mm.Config.{
  Config, ConfigError, require, validate, check_values, check_response, check_bundle, check_window,
  bundle_max_blocks_or_default, bundle_buy_count_or_default, bundle_mode_name, window, atomic,
  none_text, BundleText, empty, off, false_text, other, protocol_name, is_v2, is_malformed,
  check_router, bad_blocks, bad_count, bad_router, bundle_needs_v2, no_endpoint, no_metadata,
  bad_protocol, bad_fee_wallet, bad_buy_fraction, bad_interval, bad_slippage, is_known,
  negative_value, at_most, more_than, less_than, times_unit,
}

require-ok : (test : Bool) (e : ConfigError) → require test e ≡ ok tt → test ≡ true
require-ok true e h = refl
require-ok false e h = ground (arith, h)

-- In atomic mode nothing; in window mode the effective bounds, which the defaults have as well.
pub WindowBounds : Config → Type 0
WindowBounds c =
    (bundle_mode_name c.bundle_mode ≡ atomic)
    ⊎ ((n : ℕ) × (bundle_max_blocks_or_default c.bundle_max_blocks ≡ pos n) × (1 ≤ n) × (n ≤ 50))
      × ((n : ℕ) × (bundle_buy_count_or_default c.bundle_buy_count ≡ pos n) × (1 ≤ n) × (n ≤ 31))

-- The integer settings of an accepted configuration; the bounds of a window only matter in that mode.
pub record Accepted (c : Config) : Type 0 where
  pub endpoint : c.has_endpoint ≡ true
  pub intervals : (leb_ℤ (pos 1) c.accumulate_interval && leb_ℤ (pos 1) c.sell_interval) ≡ true
  pub slippage : (n : ℕ) × (c.slippage_bps ≡ pos n) × (n < 10000)
  pub bundle :
      (bundle_mode_name c.bundle_mode ≡ none_text)
      ⊎ (is_v2 (protocol_name c.protocol) ≡ true) × WindowBounds c

slippage-within :
    (s : ℤ) → (leb_ℤ (pos 0) s && ltb_ℤ s (pos 10000)) ≡ true → (n : ℕ) × (s ≡ pos n) × (n < 10000)
slippage-within (pos n) h = (n, refl, ground (arith, h))
slippage-within (negsuc n) h = ground (arith, h)

within-bounds :
    (s : ℤ) (most : ℕ)
    → (leb_ℤ (pos 1) s && leb_ℤ s (pos most)) ≡ true
    → (n : ℕ) × (s ≡ pos n) × (1 ≤ n) × (n ≤ most)
within-bounds (pos n) most h = (n, refl, ground (arith, h), ground (arith, h))
within-bounds (negsuc n) most h = ground (arith, h)

window-bounds :
    (c : Config) → check_window c ≡ ok tt → bundle_mode_name c.bundle_mode ≡ window → WindowBounds c
unfolding check_window WindowBounds
window-bounds c h mode =
    let blocks = bundle_max_blocks_or_default c.bundle_max_blocks in
    let count = bundle_buy_count_or_default c.bundle_buy_count in
    let (first, second) =
      then-ok (require (leb_ℤ (pos 1) blocks && leb_ℤ blocks (pos 50)) bad_blocks)
        (require (leb_ℤ (pos 1) count && leb_ℤ count (pos 31)) bad_count) h in
    inr (
      within-bounds blocks 50
          (require-ok (leb_ℤ (pos 1) blocks && leb_ℤ blocks (pos 50)) bad_blocks first),
      within-bounds count 31
          (require-ok (leb_ℤ (pos 1) count && leb_ℤ count (pos 31)) bad_count second),
    )

router-v2 : (c : Config) → check_router c ≡ ok tt → is_v2 (protocol_name c.protocol) ≡ true
router-v2 c h =
    let v2_test = is_v2 (protocol_name c.protocol) in
    require-ok v2_test bundle_needs_v2
      (then-ok (require v2_test bundle_needs_v2)
        (require (not (is_malformed c.mm_router)) bad_router) h).0

bundle-ok :
    (c : Config) (m : BundleText)
    → bundle_mode_name c.bundle_mode ≡ m
    → check_bundle c ≡ ok tt
    → (bundle_mode_name c.bundle_mode ≡ none_text)
      ⊎ (is_v2 (protocol_name c.protocol) ≡ true) × WindowBounds c
unfolding check_bundle WindowBounds
bundle-ok c none_text mode h = inl mode
bundle-ok c window mode h =
    let (first, second) =
      then-ok (check_router c) (check_window c) (rw (mode, check_bundle) at h) in
    inr (router-v2 c first, window-bounds c second mode)
bundle-ok c atomic mode h = inr (router-v2 c (rw (mode, check_bundle) at h), inl mode)
bundle-ok c empty mode h = ground (arith, rw (mode, check_bundle) at h)
bundle-ok c off mode h = ground (arith, rw (mode, check_bundle) at h)
bundle-ok c false_text mode h = ground (arith, rw (mode, check_bundle) at h)
bundle-ok c (other m) mode h = ground (arith, rw (mode, check_bundle) at h)

values-ok :
    (c : Config) (launching : Bool)
    → check_values c launching ≡ ok tt
    → (c.has_endpoint ≡ true)
      × ((leb_ℤ (pos 1) c.accumulate_interval && leb_ℤ (pos 1) c.sell_interval) ≡ true)
      × ((leb_ℤ (pos 0) c.slippage_bps && ltb_ℤ c.slippage_bps (pos 10000)) ≡ true)
unfolding check_values
values-ok c launching h =
    let intervals = leb_ℤ (pos 1) c.accumulate_interval && leb_ℤ (pos 1) c.sell_interval in
    let slippage = leb_ℤ (pos 0) c.slippage_bps && ltb_ℤ c.slippage_bps (pos 10000) in
    let to_protocol = require (is_known (protocol_name c.protocol)) bad_protocol in
    let to_endpoint = to_protocol >> require c.has_endpoint no_endpoint in
    let to_metadata =
      to_endpoint >> require (not launching || (c.has_name && c.has_symbol)) no_metadata in
    let to_wallet = to_metadata >> require (not (is_malformed c.fee_wallet)) bad_fee_wallet in
    let to_fraction =
      to_wallet
      >> require (not (at_most c.buy_fraction (pos 0) || more_than c.buy_fraction (times_unit 1)))
          bad_buy_fraction in
    let to_intervals = to_fraction >> require intervals bad_interval in
    let to_slippage = to_intervals >> require slippage bad_slippage in
    let h1 =
      then-ok to_slippage
        (require
          (not (
            less_than c.gas_reserve_eth (pos 0)
            || (less_than c.priority_tip_gwei (pos 0) || less_than c.dev_buy_eth (pos 0))))
          negative_value)
        h in
    let h2 = then-ok to_intervals (require slippage bad_slippage) h1.0 in
    let h3 = then-ok to_fraction (require intervals bad_interval) h2.0 in
    let h4 =
      then-ok to_wallet
        (require (not (at_most c.buy_fraction (pos 0) || more_than c.buy_fraction (times_unit 1)))
          bad_buy_fraction)
        h3.0 in
    let h5 = then-ok to_metadata (require (not (is_malformed c.fee_wallet)) bad_fee_wallet) h4.0 in
    let h6 =
      then-ok to_endpoint (require (not launching || (c.has_name && c.has_symbol)) no_metadata)
        h5.0 in
    let h7 = then-ok to_protocol (require c.has_endpoint no_endpoint) h6.0 in
    (
      require-ok c.has_endpoint no_endpoint h7.1,
      require-ok intervals bad_interval h3.1,
      require-ok slippage bad_slippage h2.1,
    )

-- An accepted configuration has an endpoint, positive intervals, a slippage of 0 to 9999 basis points;
-- unless it bundles nothing, it is for v2, and in window mode the blocks and buys that take effect,
-- the defaults included, are from 1 to 50 and from 1 to 31.
pub validate-Accepted : (c : Config) (launching : Bool) → validate c launching ≡ ok tt → Accepted c
unfolding validate
validate-Accepted c launching h =
    let outer = then-ok (check_values c launching >> check_response c) (check_bundle c) h in
    let inner = then-ok (check_values c launching) (check_response c) outer.0 in
    let (endpoint, intervals, slippage) = values-ok c launching inner.0 in
    record {
      endpoint = endpoint;
      intervals = intervals;
      slippage = slippage-within c.slippage_bps slippage;
      bundle = bundle-ok c (bundle_mode_name c.bundle_mode) refl outer.1;
    }
