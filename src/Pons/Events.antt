-- ===== src/Pons/Events.antt =====
-- The events that internal/pons decodes from logs: launches and curve trades (internal/pons/watch.go) and
-- the router's (internal/pons/mmrouter.go). The ABI decoder is an argument; the data of a log is a number
-- that only it reads.
use pons_mm_desktop.Prelude.{
  ℕ, ◌%◌, ◌^◌, Bool, true, false, ◌||◌, not, Option, none, some, List, [], ◌∷◌, ◌==◌, ltb,
  if◌then◌else◌,
}

pub record Log : Type 0 where
  pub address : ℕ
  pub topics : List ℕ
  pub contents : ℕ
  pub block : ℕ
  pub index : ℕ
  pub tx_hash : ℕ

-- The topics of the events, and what their data unpacks to, in the order of their fields here below.
pub record Abi : Type 0 where
  pub launched_topic : ℕ
  pub curve_buy_topic : ℕ
  pub curve_sell_topic : ℕ
  pub routed_buy_topic : ℕ
  pub router_launched_topic : ℕ
  pub unpack_launched : ℕ → Option ℕ
  pub unpack_curve_buy : ℕ → Option (ℕ × ℕ)
  pub unpack_curve_sell : ℕ → Option (ℕ × ℕ)
  pub unpack_routed_buy : ℕ → Option (ℕ × ℕ × ℕ × ℕ × ℕ)
  pub unpack_router_launched : ℕ → Option (ℕ × ℕ × ℕ)

-- `common.BytesToAddress` of a topic: its last 20 bytes.
abbrev pub address_of : ℕ → ℕ
address_of topic = topic % 2 ^ 160

-- The values that a partial function gives for a list, in order.
abbrev pub with_choice {ℓ} : {B : Type ℓ} → Option B → List B → List B
with_choice none ys = ys
with_choice (some y) ys = y ∷ ys

abbrev pub choose {ℓ κ} : {A : Type ℓ} {B : Type κ} → (A → Option B) → List A → List B
choose f [] = []
choose f (x ∷ xs) = with_choice (f x) (choose f xs)

-- The first of these values.
abbrev pub first_of {ℓ κ} : {A : Type ℓ} {B : Type κ} → (A → Option B) → List A → Option B
first_of f [] = none
first_of f (x ∷ xs) = let rest = first_of f xs in elim (f x) [ none ↦ rest | some y ↦ some y ]

pub record LaunchEvent : Type 0 where
  pub token : ℕ
  pub curve : ℕ
  pub deployer : ℕ
  pub pair_token : ℕ
  pub block : ℕ

abbrev launch_of : Abi → Log → List ℕ → Option LaunchEvent
launch_of abi lg (topic ∷ token ∷ curve ∷ deployer ∷ more) =
    if not (topic == abi.launched_topic) then none else elim (abi.unpack_launched lg.contents) [
      | none ↦ none
      | some pair ↦ some (record {
        token = address_of token;
        curve = address_of curve;
        deployer = address_of deployer;
        pair_token = pair;
        block = lg.block;
      })
    ]
launch_of abi lg _ = none

-- `decodeLaunch`, without the fields that nothing reads.
unfoldable pub decode_launch : Abi → Log → Option LaunchEvent
decode_launch abi lg = launch_of abi lg lg.topics

pub record CurveTrade : Type 0 where
  pub is_buy : Bool
  pub token_amount : ℕ
  pub quote_amount : ℕ
  pub trader : ℕ
  pub recipient : ℕ
  pub block : ℕ
  pub log_index : ℕ
  pub tx_hash : ℕ

abbrev trade_with : Log → ℕ → ℕ → Bool → ℕ → ℕ → CurveTrade
trade_with lg trader recipient is_buy tokens quote = record {
  is_buy = is_buy;
  token_amount = tokens;
  quote_amount = quote;
  trader = address_of trader;
  recipient = address_of recipient;
  block = lg.block;
  log_index = lg.index;
  tx_hash = lg.tx_hash;
}

-- A buy unpacks to the quote and the tokens, a sale to the tokens and the quote.
abbrev trade_of : Abi → Log → List ℕ → Option CurveTrade
trade_of abi lg (topic ∷ trader ∷ recipient ∷ more) =
    if topic == abi.curve_buy_topic
    then elim (abi.unpack_curve_buy lg.contents) [
      | none ↦ none
      | some (quote, tokens) ↦ some (trade_with lg trader recipient true tokens quote)
    ]
    else if topic == abi.curve_sell_topic
    then elim (abi.unpack_curve_sell lg.contents) [
      | none ↦ none
      | some (tokens, quote) ↦ some (trade_with lg trader recipient false tokens quote)
    ]
    else none
trade_of abi lg _ = none

unfoldable pub decode_curve_trade : Abi → Log → Option CurveTrade
decode_curve_trade abi lg = trade_of abi lg lg.topics

unfoldable pub curve_trades_from_receipt : Abi → List Log → List CurveTrade
unfolding decode_curve_trade
curve_trades_from_receipt abi logs = choose (decode_curve_trade abi) logs

-- `FilterCurveTradeEvents` on what the node returns for the range.
unfoldable pub filter_curve_trade_events :
    Abi → ℕ → ℕ → Option (List Log) → Option (List CurveTrade)
unfolding curve_trades_from_receipt
filter_curve_trade_events abi from_block to_block none =
    if ltb to_block from_block then some [] else none
filter_curve_trade_events abi from_block to_block (some logs) =
    if ltb to_block from_block then some [] else some (curve_trades_from_receipt abi logs)

pub record RoutedBuy : Type 0 where
  pub caller : ℕ
  pub curve : ℕ
  pub recipient : ℕ
  pub quote_in : ℕ
  pub tokens_out : ℕ
  pub refunded : ℕ
  pub l2_block : ℕ
  pub max_l2_block : ℕ

abbrev routed_of : Abi → ℕ → Log → List ℕ → Option RoutedBuy
routed_of abi router lg (topic ∷ caller ∷ curve ∷ recipient ∷ more) =
    if not (lg.address == router) || not (topic == abi.routed_buy_topic)
    then none
    else elim (abi.unpack_routed_buy lg.contents) [
      | none ↦ none
      | some (quote_in, tokens_out, refunded, l2_block, max_l2_block) ↦ some (record {
        caller = address_of caller;
        curve = address_of curve;
        recipient = address_of recipient;
        quote_in = quote_in;
        tokens_out = tokens_out;
        refunded = refunded;
        l2_block = l2_block % 2 ^ 64;
        max_l2_block = max_l2_block % 2 ^ 64;
      })
    ]
routed_of abi router lg _ = none

unfoldable pub routed_buys_from_receipt : Abi → ℕ → List Log → List RoutedBuy
routed_buys_from_receipt abi router logs = choose (λ lg. routed_of abi router lg lg.topics) logs

abbrev credited_to : ℕ → RoutedBuy → Option RoutedBuy
credited_to recipient rb = if rb.recipient == recipient then some rb else none

unfoldable pub routed_buy_from_receipt : Abi → ℕ → ℕ → List Log → Option RoutedBuy
unfolding routed_buys_from_receipt
routed_buy_from_receipt abi router recipient logs =
    first_of (credited_to recipient) (routed_buys_from_receipt abi router logs)

pub record RouterLaunch : Type 0 where
  pub caller : ℕ
  pub token : ℕ
  pub curve : ℕ
  pub l2_block : ℕ
  pub quote_in : ℕ
  pub tokens_out : ℕ

abbrev router_launch_of : Abi → ℕ → Log → List ℕ → Option RouterLaunch
router_launch_of abi router lg (topic ∷ caller ∷ token ∷ curve ∷ more) =
    if not (lg.address == router) || not (topic == abi.router_launched_topic)
    then none
    else elim (abi.unpack_router_launched lg.contents) [
      | none ↦ none
      | some (l2_block, quote_in, tokens_out) ↦ some (record {
        caller = address_of caller;
        token = address_of token;
        curve = address_of curve;
        l2_block = l2_block % 2 ^ 64;
        quote_in = quote_in;
        tokens_out = tokens_out;
      })
    ]
router_launch_of abi router lg _ = none

unfoldable pub router_launch_from_receipt : Abi → ℕ → List Log → Option RouterLaunch
router_launch_from_receipt abi router logs =
    first_of (λ lg. router_launch_of abi router lg lg.topics) logs
