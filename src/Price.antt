-- ===== src/Price.antt =====
-- packages/shared/src/price.ts: freshness, approval and deviation of prices, and the minimum value
-- that a treasury exchange must bring in. Its `scale10`, `ceilDiv` and `checkedMul` are copies of
-- those of financial.ts, and are modelled there.
pub mod Exchange
pub mod Protection
use aurka.Prelude.{
  ℕ, ◌+◌, ◌-◌, ◌*◌, ◌/◌, ◌%◌, Bool, true, false, ◌&&◌, ◌||◌, not, List, [], ◌∷◌, Result, ok, err,
  ◌>>=◌, ◌>>◌, throw_if, ltb, leb, ◌==◌, if◌then◌else◌, length,
}
use aurka.Prelude.Int.{pos, negsuc}
use aurka.Prelude.Text.{Text, text_eq, lower_case, is_digit}
use aurka.Errors.{
  Error, not_a_safe_integer, above_basis_points, price_not_positive, not_bytes32, price_from_future,
  price_stale, price_token_mismatch, snapshot_not_approved, price_deviation, exchange_below_minimum,
}
use aurka.Financial.Integer.{
  IntegerLike, bigint, Num, int, not_integral, BpsLike, number, integer, to_uint256, safe_natural,
  bps_value, basis_points, max_safe_integer,
}
use aurka.Financial.Checked.{checked_mul, ceil_div, scale10}
use aurka.Financial.Asset.{AssetRate, Holding, calculate_asset_value, calculate_asset_value_down}

pub record PriceSnapshot : Type 0 where
  pub snapshot_id : Text
  pub token : Text
  pub price : IntegerLike
  pub price_decimals : Num
  pub observed_at : Num

-- One leg of `TreasuryExchangeInput`: an amount, its decimals, its price and the price's decimals.
pub record TreasuryExchangeInput : Type 0 where
  pub trader_input : Holding
  pub trader_output : Holding
  pub value_decimals : Num

pub record SettlementPriceProtection : Type 0 where
  pub trader_input_reference_price : PriceSnapshot
  pub trader_input_execution_price : PriceSnapshot
  pub trader_output_reference_price : PriceSnapshot
  pub trader_output_execution_price : PriceSnapshot
  pub approved_trader_input_snapshot_id : Text
  pub approved_trader_output_snapshot_id : Text
  pub trader_input_amount : IntegerLike
  pub trader_output_amount : IntegerLike
  pub trader_input_decimals : Num
  pub trader_output_decimals : Num
  pub value_decimals : Num
  pub now_seconds : Num
  pub maximum_price_age_seconds : Num
  pub maximum_price_deviation_bps : BpsLike

pub record TreasuryExchangeValues : Type 0 where
  pub treasury_input_value : ℕ
  pub treasury_output_value : ℕ
  pub minimum_treasury_input_value : ℕ
  pub maximum_deviation_bps : ℕ

-- a.toLowerCase() === b.toLowerCase()
abbrev pub same_text : Text → Text → Bool
same_text a b = text_eq (lower_case a) (lower_case b)

abbrev pub is_hex_digit : ℕ → Bool
is_hex_digit c = is_digit c || (leb b'a' c && leb c b'f') || (leb b'A' c && leb c b'F')

unfoldable pub all_hex : Text → Bool
all_hex [] = true
all_hex (c ∷ s) = is_hex_digit c && all_hex s

-- /^0x[0-9a-fA-F]{n}$/, of `bytes32Schema` and `addressSchema`.
unfoldable pub is_hex_of : ℕ → Text → Bool
unfolding all_hex
is_hex_of n [] = false
is_hex_of n (c ∷ []) = false
is_hex_of n (c ∷ d ∷ s) = c == b'0' && d == b'x' && all_hex s && length s == n

abbrev pub is_bytes32 : Text → Bool
is_bytes32 = is_hex_of 64

abbrev pub is_address : Text → Bool
is_address = is_hex_of 40

unfoldable pub ceil_mul_div_by_small : (value multiplier denominator : ℕ) → Result Error ℕ
ceil_mul_div_by_small value multiplier denominator = do
  part ← ceil_div (value % denominator * multiplier) denominator
  ok (value / denominator * multiplier + part)

unfoldable pub require_deviation : BpsLike → Result Error ℕ
require_deviation value = do
  deviation ← bps_value value
  if ltb basis_points deviation then err above_basis_points else ok deviation

-- A positive safe integer.
unfoldable pub positive_age : Num → Result Error ℕ
positive_age (int (pos n)) =
    if leb n max_safe_integer && ltb 0 n then ok n else err not_a_safe_integer
positive_age (int (negsuc n)) = err not_a_safe_integer
positive_age not_integral = err not_a_safe_integer

unfoldable pub assert_fresh_price : PriceSnapshot → Num → Num → Result Error (Unit {0})
assert_fresh_price snapshot now_seconds max_age_seconds = do
  observed_at ← safe_natural snapshot.observed_at
  now ← safe_natural now_seconds
  max_age ← positive_age max_age_seconds
  price ← to_uint256 snapshot.price
  throw_if (price == 0) price_not_positive
  scale ← scale10 snapshot.price_decimals
  throw_if (ltb now observed_at) price_from_future
  throw_if (ltb max_age (now - observed_at)) price_stale

unfoldable pub assert_approved_price_snapshot :
    PriceSnapshot → Text → Text → Result Error (Unit {0})
assert_approved_price_snapshot snapshot expected_token approved_snapshot_id = do
  throw_if (not (same_text snapshot.token expected_token)) price_token_mismatch
  throw_if (not (is_bytes32 snapshot.snapshot_id)) not_bytes32
  throw_if (not (is_bytes32 approved_snapshot_id)) not_bytes32
  throw_if (not (same_text snapshot.snapshot_id approved_snapshot_id)) snapshot_not_approved

unfoldable pub difference : ℕ → ℕ → ℕ
difference actual reference =
    if leb reference actual then actual - reference else reference - actual

unfoldable pub assert_price_within_deviation :
    PriceSnapshot → PriceSnapshot → BpsLike → Result Error (Unit {0})
unfolding difference
assert_price_within_deviation reference actual maximum_deviation_bps = do
  throw_if (not (same_text reference.token actual.token)) price_token_mismatch
  reference_price ← to_uint256 reference.price
  actual_price ← to_uint256 actual.price
  throw_if (reference_price == 0 || actual_price == 0) price_not_positive
  reference_scale ← scale10 reference.price_decimals
  actual_scale ← scale10 actual.price_decimals
  reference_normalized ← checked_mul reference_price actual_scale
  actual_normalized ← checked_mul actual_price reference_scale
  deviation ← require_deviation maximum_deviation_bps
  distance ← checked_mul (difference actual_normalized reference_normalized) basis_points
  bound ← checked_mul reference_normalized deviation
  throw_if (ltb bound distance) price_deviation

unfoldable pub calculate_minimum_treasury_input_value : IntegerLike → BpsLike → Result Error ℕ
calculate_minimum_treasury_input_value treasury_output_value maximum_deviation_bps = do
  output ← to_uint256 treasury_output_value
  deviation ← require_deviation maximum_deviation_bps
  ceil_mul_div_by_small output (basis_points - deviation) basis_points

unfoldable pub assert_minimum_treasury_exchange_value :
    IntegerLike → IntegerLike → BpsLike → Result Error TreasuryExchangeValues
assert_minimum_treasury_exchange_value treasury_input_value treasury_output_value
      maximum_deviation_bps =
    do
      input ← to_uint256 treasury_input_value
      output ← to_uint256 treasury_output_value
      deviation ← require_deviation maximum_deviation_bps
      minimum_input ←
          calculate_minimum_treasury_input_value (bigint (pos output))
            (integer (bigint (pos deviation)))
      throw_if (ltb input minimum_input) exchange_below_minimum
      ok (record {
        treasury_input_value = input;
        treasury_output_value = output;
        minimum_treasury_input_value = minimum_input;
        maximum_deviation_bps = deviation;
      })

unfoldable pub calculate_treasury_exchange_values :
    TreasuryExchangeInput → BpsLike → Result Error TreasuryExchangeValues
calculate_treasury_exchange_values input maximum_deviation_bps = do
  treasury_input ← calculate_asset_value_down input.trader_input input.value_decimals
  treasury_output ← calculate_asset_value input.trader_output input.value_decimals
  assert_minimum_treasury_exchange_value (bigint (pos treasury_input))
      (bigint (pos treasury_output)) maximum_deviation_bps

-- The loop over the four snapshots.
unfoldable pub assert_fresh_prices : List PriceSnapshot → Num → Num → Result Error (Unit {0})
assert_fresh_prices [] now_seconds max_age_seconds = ok tt
assert_fresh_prices (snapshot ∷ rest) now_seconds max_age_seconds = do
  assert_fresh_price snapshot now_seconds max_age_seconds
  assert_fresh_prices rest now_seconds max_age_seconds

-- An amount at an execution price.
abbrev pub holding_at : IntegerLike → Num → PriceSnapshot → Holding
holding_at amount decimals execution = record {
  rate = record {
    decimals = decimals;
    price = execution.price;
    price_decimals = execution.price_decimals;
  };
  balance = amount;
}

unfoldable pub assert_settlement_price_protection :
    SettlementPriceProtection → Result Error TreasuryExchangeValues
assert_settlement_price_protection input = do
  assert_fresh_prices
      (input.trader_input_reference_price ∷ input.trader_output_reference_price
        ∷ input.trader_input_execution_price ∷ input.trader_output_execution_price ∷ [])
      input.now_seconds input.maximum_price_age_seconds
  assert_approved_price_snapshot input.trader_input_execution_price
      input.trader_input_reference_price.token input.approved_trader_input_snapshot_id
  assert_approved_price_snapshot input.trader_output_execution_price
      input.trader_output_reference_price.token input.approved_trader_output_snapshot_id
  assert_price_within_deviation input.trader_input_reference_price
      input.trader_input_execution_price input.maximum_price_deviation_bps
  assert_price_within_deviation input.trader_output_reference_price
      input.trader_output_execution_price input.maximum_price_deviation_bps
  calculate_treasury_exchange_values
      (record {
        trader_input =
            holding_at input.trader_input_amount input.trader_input_decimals
              input.trader_input_execution_price;
        trader_output =
            holding_at input.trader_output_amount input.trader_output_decimals
              input.trader_output_execution_price;
        value_decimals = input.value_decimals;
      })
      input.maximum_price_deviation_bps
