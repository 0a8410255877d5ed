-- ===== src/Control/Validation.antt =====
-- internal/control/models.go: the check of a strategy before it is stored or run, `Strategy.validate`.
-- `config` is the engine configuration that `engineConfig` makes of it, with the strategy's bundle mode.
pub mod Bundling
use pons_mm_desktop.Prelude.{
  ℕ, ◌+◌, Bool, true, false, ◌&&◌, ◌||◌, not, List, [], ◌∷◌, ◌==◌, if◌then◌else◌, length, elem,
}
use pons_mm_desktop.Prelude.Result.{Result, ok, err, ◌>>=◌, ◌>>◌}
use pons_mm_desktop.Mm.Config.{
  Config, ConfigError, BundleText, empty, none_text, is_known, validate,
}

pub data StrategyMode : Type 0 where
  launch existing : StrategyMode
  other_mode : ℕ → StrategyMode

pub record Draft : Type 0 where
  pub named : Bool
  pub wallet_ids : List ℕ
  pub mode : StrategyMode
  pub token_valid : Bool
  pub pool_valid : Bool
  pub router_valid : Bool
  pub config : Config

pub data DraftError : Type 0 where
  no_name no_wallet bad_mode bad_protocol bad_addresses bundle_needs_launch bad_router : DraftError
  rejected : ConfigError → DraftError
  selected_twice : ℕ → DraftError

abbrev pub known_mode : StrategyMode → Bool
known_mode launch = true
known_mode existing = true
known_mode (other_mode m) = false

abbrev pub is_launch : StrategyMode → Bool
is_launch launch = true
is_launch _ = false

abbrev pub is_existing : StrategyMode → Bool
is_existing existing = true
is_existing _ = false

-- The strategy's own test of the bundle mode.
unfoldable pub bundling : BundleText → Bool
bundling empty = false
bundling none_text = false
bundling _ = true

abbrev pub demand : Bool → DraftError → Result DraftError (Unit {0})
demand true e = ok tt
demand false e = err e

abbrev pub from_config : Result ConfigError (Unit {0}) → Result DraftError (Unit {0})
from_config (ok u) = ok u
from_config (err e) = err (rejected e)

unfoldable pub check_selected : List ℕ → List ℕ → Result DraftError (Unit {0})
check_selected seen [] = ok tt
check_selected seen (id ∷ ids) =
    let rest = check_selected (id ∷ seen) ids in
    if elem id seen then err (selected_twice id) else rest

-- The checks of `Strategy.validate` before that of the bundle mode.
unfoldable pub check_fields : Draft → Result DraftError (Unit {0})
check_fields d =
    demand d.named no_name
    >> demand (not (length d.wallet_ids == 0)) no_wallet
    >> demand (known_mode d.mode) bad_mode
    >> demand (is_known d.config.protocol) bad_protocol
    >> demand (not (is_existing d.mode) || (d.token_valid && d.pool_valid)) bad_addresses

-- `Strategy.validate`.
unfoldable pub validate_strategy : Draft → Result DraftError (Unit {0})
unfolding bundling check_selected check_fields
validate_strategy d =
    check_fields d
    >> demand (not (bundling d.config.bundle_mode) || is_launch d.mode) bundle_needs_launch
    >> demand d.router_valid bad_router
    >> from_config (validate d.config (is_launch d.mode))
    >> check_selected [] d.wallet_ids
