-- ===== src/Mm/Tests/Launch.antt =====
-- The configuration and the bundle of a launch, at concrete inputs: two makers, one of them poor.
use pons_mm_desktop.Prelude.{ℕ, ◌*◌, ◌≡◌, refl, true, none, some, List, [], ◌∷◌}
use pons_mm_desktop.Prelude.Int.{pos}
use pons_mm_desktop.Prelude.Result.{ok}
use pons_mm_desktop.Mm.Wallets.{Wallet}
use pons_mm_desktop.Mm.Bundle.{everything, BundleBuy, sent, send_window, DepositAnswers}
use pons_mm_desktop.Mm.Bundle.Sending.{WindowLaunch, send_window-WindowLaunch}
use pons_mm_desktop.Mm.Config.{
  Config, finite, v2, distribute, window, AddressText, validate, check_values, check_response,
  check_bundle, bundle_mode_name, protocol_name, retail_response_name, check_window,
  bundle_max_blocks_or_default, bundle_buy_count_or_default,
}
use pons_mm_desktop.Mm.Config.Accepted.{Accepted, validate-Accepted}
use pons_mm_desktop.Pons.Events.{Log, Abi}

abbrev maker : ℕ → ℕ → Wallet
maker addr eth = record { addr = addr; eth_wei = eth; token_raw = 0; nonce = 3 }

abbrev makers : List Wallet
makers = maker 11 2000000 ∷ maker 12 300000 ∷ []

abbrev buy : ℕ → ℕ → BundleBuy
buy addr spend = record { wallet = maker addr 2000000; spend = spend }

abbrev prepared : List BundleBuy
prepared = buy 11 500000 ∷ buy 12 500000 ∷ []

-- A deposit of 100000 that is ours, and a fee cap of 1.
abbrev partly_parked : DepositAnswers
partly_parked = record {
  deposit = some (100000, 9);
  fee_cap = some 1;
  sends = true;
  confirms = true;
}

abbrev funded : List BundleBuy
funded = buy 11 380000 ∷ buy 12 380000 ∷ []

send_window-WindowLaunch_example :
    WindowLaunch 10
      (maker 1 5)
      (send_window everything 1000 2 10 (λ a. true) sent none (maker 1 5) makers)
send_window-WindowLaunch_example =
    send_window-WindowLaunch everything 1000 2 10 (λ a. true) sent none (maker 1 5) makers

abbrev windowed : Config
windowed = record {
  protocol = v2;
  has_endpoint = true;
  has_name = true;
  has_symbol = true;
  fee_wallet = AddressText.empty;
  buy_fraction = finite (pos 1);
  accumulate_interval = pos 100;
  sell_interval = pos 1000;
  slippage_bps = pos 1500;
  gas_reserve_eth = finite (pos 0);
  priority_tip_gwei = finite (pos 1);
  dev_buy_eth = finite (pos 0);
  retail_response = distribute;
  retail_target_ratio = finite (pos 0);
  bundle_mode = window;
  mm_router = AddressText.empty;
  bundle_max_blocks = pos 0;
  bundle_buy_count = pos 31;
}

windowed-accepted : validate windowed true ≡ ok tt
unfolding validate check_values check_response check_bundle bundle_mode_name protocol_name
    retail_response_name check_window bundle_max_blocks_or_default bundle_buy_count_or_default
windowed-accepted = refl

validate-Accepted_example : Accepted windowed
validate-Accepted_example = validate-Accepted windowed true windowed-accepted

-- A router that filled both makers, and someone else.
abbrev abi : Abi
abi = record {
  launched_topic = 1;
  curve_buy_topic = 2;
  curve_sell_topic = 3;
  routed_buy_topic = 4;
  router_launched_topic = 5;
  unpack_launched = λ d. some 0;
  unpack_curve_buy = λ d. some (d, d);
  unpack_curve_sell = λ d. some (d, d);
  unpack_routed_buy = λ d. some (d, d * 10, 1, 0, 0);
  unpack_router_launched = λ d. some (d, d, d);
}

abbrev routed : ℕ → ℕ → Log
routed who amount = record {
  address = 99;
  topics = 4 ∷ who ∷ 50 ∷ who ∷ [];
  contents = amount;
  block = 7;
  index = 0;
  tx_hash = 1;
}

abbrev fills : List Log
fills = routed 11 300 ∷ routed 12 400 ∷ routed 15 500 ∷ []
