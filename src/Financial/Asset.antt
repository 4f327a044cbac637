-- ===== src/Financial/Asset.antt =====
-- packages/shared/src/financial.ts: the value of a token balance, its exact conversion, and the
-- adjustment of a raw amount to a representable one.
pub mod Gcd
pub mod Laws
pub mod Rounding
pub mod Tests
use aurka.Prelude.{
  ℕ, zero, suc, ◌-◌, ◌/◌, ◌%◌, Bool, not, Result, ok, err, ◌>>=◌, ◌>>◌, throw_if, ◌==◌,
  if◌then◌else◌,
}
use aurka.Errors.{Error, price_not_positive, not_exactly_representable}
use aurka.Financial.Integer.{IntegerLike, Num, to_uint256}
use aurka.Financial.Checked.{checked_mul, ceil_div, scale10}
use Gcd.{greatest_common_divisor}

-- The precision and the price of a token.
pub record AssetRate : Type 0 where
  pub decimals : Num
  pub price : IntegerLike
  pub price_decimals : Num

pub record Holding : Type 0 where
  pub rate : AssetRate
  pub open rate use *
  pub balance : IntegerLike

-- The numerator and the denominator that the three conversions compute alike.
unfoldable pub value_fraction : Holding → Num → Result Error (ℕ × ℕ)
value_fraction asset value_decimals = do
  balance ← to_uint256 asset.balance
  price ← to_uint256 asset.price
  throw_if (price == 0) price_not_positive
  amount ← checked_mul balance price
  unit ← scale10 value_decimals
  numerator ← checked_mul amount unit
  balance_scale ← scale10 asset.decimals
  price_scale ← scale10 asset.price_decimals
  denominator ← checked_mul balance_scale price_scale
  ok (numerator, denominator)

unfoldable pub calculate_asset_value : Holding → Num → Result Error ℕ
calculate_asset_value asset value_decimals = do
  f ← value_fraction asset value_decimals
  ceil_div f.0 f.1

unfoldable pub calculate_asset_value_down : Holding → Num → Result Error ℕ
calculate_asset_value_down asset value_decimals = do
  f ← value_fraction asset value_decimals
  ok (f.0 / f.1)

unfoldable pub calculate_asset_value_exact : Holding → Num → Result Error ℕ
calculate_asset_value_exact asset value_decimals = do
  f ← value_fraction asset value_decimals
  throw_if (not (f.0 % f.1 == 0)) not_exactly_representable
  ok (f.0 / f.1)

pub record AssetAmountAdjustment : Type 0 where
  pub requested_amount : ℕ
  pub supported_amount : ℕ
  pub remainder : ℕ
  pub increment : ℕ

unfoldable pub calculate_asset_amount_increment : AssetRate → Num → Result Error ℕ
unfolding greatest_common_divisor
calculate_asset_amount_increment asset value_decimals = do
  price ← to_uint256 asset.price
  throw_if (price == 0) price_not_positive
  balance_scale ← scale10 asset.decimals
  price_scale ← scale10 asset.price_decimals
  denominator ← checked_mul balance_scale price_scale
  unit ← scale10 value_decimals
  value_per_raw_unit ← checked_mul price unit
  ok (denominator / greatest_common_divisor denominator value_per_raw_unit)

unfoldable pub adjust_asset_amount_down :
    IntegerLike → AssetRate → Num → Result Error AssetAmountAdjustment
unfolding calculate_asset_amount_increment
adjust_asset_amount_down amount asset value_decimals = do
  requested ← to_uint256 amount
  increment ← calculate_asset_amount_increment asset value_decimals
  let remainder = requested % increment
  ok (record {
    requested_amount = requested;
    supported_amount = requested - remainder;
    remainder = remainder;
    increment = increment;
  })
