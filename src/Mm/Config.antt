-- ===== src/Mm/Config.antt =====
-- internal/ponsmm/config.go: the checks of an engine configuration. A string is its place among those
-- the code compares it with; that of the bundle mode is trimmed and lowered. Durations are integers.
pub mod Accepted
use pons_mm_desktop.Prelude.{
  ℕ, ◌+◌, ◌-◌, ◌^◌, ◌*◌, Bool, true, false, ◌&&◌, ◌||◌, not, Option, none, some, ◌==◌,
  if◌then◌else◌, ltb, leb,
}
use pons_mm_desktop.Prelude.Int.{ℤ, pos, negsuc, leb_ℤ, ltb_ℤ}
use pons_mm_desktop.Prelude.Result.{Result, ok, err, ◌>>=◌, ◌>>◌}

-- A float64: a finite one is an integer multiple of 2 ^ -1074. No comparison holds of NaN.
pub data Float : Type 0 where
  nan below above : Float
  finite : ℤ → Float

abbrev pub times_unit : ℕ → ℤ
times_unit n = pos (n * 2 ^ 1074)

abbrev pub minus_one : ℤ
minus_one = negsuc (2 ^ 1074 - 1)

-- x ≤ k and k < x, for a finite k.
abbrev pub at_most : Float → ℤ → Bool
at_most nan k = false
at_most below k = true
at_most above k = false
at_most (finite x) k = leb_ℤ x k

abbrev pub more_than : Float → ℤ → Bool
more_than nan k = false
more_than below k = false
more_than above k = true
more_than (finite x) k = ltb_ℤ k x

abbrev pub less_than : Float → ℤ → Bool
less_than nan k = false
less_than below k = true
less_than above k = false
less_than (finite x) k = ltb_ℤ x k

pub data ProtocolText : Type 0 where
  unset v1 v2 : ProtocolText
  other : ℕ → ProtocolText

pub data ResponseText : Type 0 where
  unset distribute target : ResponseText
  other : ℕ → ResponseText

pub data BundleText : Type 0 where
  empty none_text off false_text window atomic : BundleText
  other : ℕ → BundleText

pub data AddressText : Type 0 where
  empty malformed : AddressText
  address : ℕ → AddressText

-- The fields that `Validate` reads.
pub record Config : Type 0 where
  pub protocol : ProtocolText
  pub has_endpoint : Bool
  pub has_name : Bool
  pub has_symbol : Bool
  pub fee_wallet : AddressText
  pub buy_fraction : Float
  pub accumulate_interval : ℤ
  pub sell_interval : ℤ
  pub slippage_bps : ℤ
  pub gas_reserve_eth : Float
  pub priority_tip_gwei : Float
  pub dev_buy_eth : Float
  pub retail_response : ResponseText
  pub retail_target_ratio : Float
  pub bundle_mode : BundleText
  pub mm_router : AddressText
  pub bundle_max_blocks : ℤ
  pub bundle_buy_count : ℤ

pub data ConfigError : Type 0 where
  bad_protocol no_endpoint no_metadata bad_fee_wallet bad_buy_fraction bad_interval : ConfigError
  bad_slippage negative_value target_needs_v2 bad_ratio bad_response bundle_needs_v2 : ConfigError
  bad_router bad_blocks bad_count bad_mode : ConfigError

-- `BundleModeName`.
unfoldable pub bundle_mode_name : BundleText → BundleText
bundle_mode_name empty = none_text
bundle_mode_name off = none_text
bundle_mode_name false_text = none_text
bundle_mode_name m = m

unfoldable pub bundle_max_blocks_or_default : ℤ → ℤ
bundle_max_blocks_or_default n = if leb_ℤ n (pos 0) then pos 3 else n

unfoldable pub bundle_buy_count_or_default : ℤ → ℤ
bundle_buy_count_or_default n = if leb_ℤ n (pos 0) then pos 10 else n

unfoldable pub retail_response_name : ResponseText → ResponseText
retail_response_name unset = distribute
retail_response_name r = r

unfoldable pub protocol_name : ProtocolText → ProtocolText
protocol_name unset = v1
protocol_name p = p

abbrev pub is_v2 : ProtocolText → Bool
is_v2 v2 = true
is_v2 _ = false

abbrev pub is_known : ProtocolText → Bool
is_known v1 = true
is_known v2 = true
is_known _ = false

-- `FeeWalletAddr`.
unfoldable pub fee_wallet_addr : AddressText → Option ℕ
fee_wallet_addr (address a) = some a
fee_wallet_addr _ = none

abbrev pub is_malformed : AddressText → Bool
is_malformed malformed = true
is_malformed _ = false

abbrev pub require : Bool → ConfigError → Result ConfigError (Unit {0})
require true e = ok tt
require false e = err e

unfoldable pub check_response : Config → Result ConfigError (Unit {0})
unfolding retail_response_name protocol_name
check_response c = elim (retail_response_name c.retail_response) [
  | distribute ↦ ok tt
  | target ↦
      (require (is_v2 (protocol_name c.protocol)) target_needs_v2
        >> require
            (not (
              at_most c.retail_target_ratio minus_one
              || more_than c.retail_target_ratio (times_unit 10)))
            bad_ratio)
  | unset ↦ err bad_response
  | other r ↦ err bad_response
]

unfoldable pub check_window : Config → Result ConfigError (Unit {0})
unfolding bundle_max_blocks_or_default bundle_buy_count_or_default
check_window c =
    let blocks = bundle_max_blocks_or_default c.bundle_max_blocks in
    let count = bundle_buy_count_or_default c.bundle_buy_count in
    require (leb_ℤ (pos 1) blocks && leb_ℤ blocks (pos 50)) bad_blocks
    >> require (leb_ℤ (pos 1) count && leb_ℤ count (pos 31)) bad_count

abbrev pub check_router : Config → Result ConfigError (Unit {0})
check_router c =
    require (is_v2 (protocol_name c.protocol)) bundle_needs_v2
    >> require (not (is_malformed c.mm_router)) bad_router

unfoldable pub check_bundle : Config → Result ConfigError (Unit {0})
unfolding bundle_mode_name protocol_name check_window
check_bundle c = elim (bundle_mode_name c.bundle_mode) [
  | none_text ↦ ok tt
  | window ↦ check_router c >> check_window c
  | atomic ↦ check_router c
  | empty ↦ err bad_mode
  | off ↦ err bad_mode
  | false_text ↦ err bad_mode
  | other m ↦ err bad_mode
]

-- The checks of `Validate` before the two that depend on a mode.
unfoldable pub check_values : Config → Bool → Result ConfigError (Unit {0})
unfolding protocol_name
check_values c launching =
    require (is_known (protocol_name c.protocol)) bad_protocol
    >> require c.has_endpoint no_endpoint
    >> require (not launching || (c.has_name && c.has_symbol)) no_metadata
    >> require (not (is_malformed c.fee_wallet)) bad_fee_wallet
    >> require (not (at_most c.buy_fraction (pos 0) || more_than c.buy_fraction (times_unit 1)))
        bad_buy_fraction
    >> require (leb_ℤ (pos 1) c.accumulate_interval && leb_ℤ (pos 1) c.sell_interval) bad_interval
    >> require (leb_ℤ (pos 0) c.slippage_bps && ltb_ℤ c.slippage_bps (pos 10000)) bad_slippage
    >> require
        (not (
          less_than c.gas_reserve_eth (pos 0)
          || (less_than c.priority_tip_gwei (pos 0) || less_than c.dev_buy_eth (pos 0))))
        negative_value

-- `Validate`.
unfoldable pub validate : Config → Bool → Result ConfigError (Unit {0})
unfolding check_values check_response check_bundle
validate c launching = check_values c launching >> check_response c >> check_bundle c
