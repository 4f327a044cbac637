-- ===== src/Financial/Fees.antt =====
-- packages/shared/src/financial.ts: the OptionSpace fee and its distribution.
pub mod Formula
pub mod Split
pub mod Distribution
use aurka.Prelude.{
  ℕ, ◌+◌, ◌-◌, ◌*◌, Bool, ◌||◌, not, Option, none, some, Result, ok, err, ◌>>=◌, ◌>>◌, throw_if,
  ltb, ◌==◌, if◌then◌else◌,
}
use aurka.Prelude.Int.{pos}
use aurka.Errors.{
  Error, invalid_fee_cap, utilization_out_of_range, utilization_decreases, fee_exceeds_cap,
  base_fee_distribution,
}
use aurka.Financial.Integer.{
  IntegerLike, bigint, BpsLike, integer, to_uint256, require_bps, basis_points, fixed_point_scale,
  maximum_total_fee_bps,
}
use aurka.Financial.Checked.{checked_add, checked_mul, ceil_div, floor_mul_div}

pub record OptionSpaceFee : Type 0 where
  pub fee_bps_scaled : ℕ
  pub premium_bps_scaled : ℕ
  pub utilization_before : ℕ
  pub utilization_after : ℕ

pub record FeeDistributionInput : Type 0 where
  pub trade_value : IntegerLike
  pub base_fee_bps : BpsLike
  pub treasury_base_fee_bps : BpsLike
  pub solver_fee_bps : BpsLike
  pub protocol_fee_bps : BpsLike
  pub slope_bps : BpsLike
  pub maximum_fee_bps : Option BpsLike
  pub utilization_before : IntegerLike
  pub utilization_after : IntegerLike

pub record FeeDistribution : Type 0 where
  pub base_fee_bps : ℕ
  pub option_space_premium_bps_scaled : ℕ
  pub total_fee_bps_scaled : ℕ
  pub base_fee_amount : ℕ
  pub treasury_base_fee_amount : ℕ
  pub option_space_premium_amount : ℕ
  pub total_fee_amount : ℕ
  pub treasury_amount : ℕ
  pub solver_amount : ℕ
  pub protocol_amount : ℕ

-- The arguments of the fee formula are in range.
unfoldable pub check_fee_arguments : (base slope u0 u1 maximum : ℕ) → Result Error (Unit {0})
check_fee_arguments base slope u0 u1 maximum = do
  throw_if (ltb maximum_total_fee_bps maximum || ltb maximum base || ltb maximum (base + slope))
      invalid_fee_cap
  throw_if (ltb fixed_point_scale u0 || ltb fixed_point_scale u1) utilization_out_of_range
  throw_if (ltb u1 u0) utilization_decreases

abbrev pub quadratic_sum : (u0 u1 : ℕ) → ℕ
quadratic_sum u0 u1 = u1 * u1 + u0 * u1 + u0 * u0

-- slope × (u1² + u0 u1 + u0²) / (3 × 10^18), rounded up.
unfoldable pub premium_of : (slope u0 u1 : ℕ) → Result Error ℕ
premium_of slope u0 u1 = do
  after_squared ← checked_mul u1 u1
  mixed ← checked_mul u0 u1
  before_squared ← checked_mul u0 u0
  scaled ← checked_mul slope (after_squared + mixed + before_squared)
  ceil_div scaled (3 * fixed_point_scale)

-- Past the conversion of the arguments.
unfoldable pub option_space_fee : (base slope u0 u1 maximum : ℕ) → Result Error OptionSpaceFee
unfolding check_fee_arguments
option_space_fee base slope u0 u1 maximum = do
  check_fee_arguments base slope u0 u1 maximum
  premium ← premium_of slope u0 u1
  base_fee ← checked_mul base fixed_point_scale
  fee ← checked_add base_fee premium
  throw_if (ltb (maximum * fixed_point_scale) fee) fee_exceeds_cap
  ok (record {
    fee_bps_scaled = fee;
    premium_bps_scaled = fee - base_fee;
    utilization_before = u0;
    utilization_after = u1;
  })

unfoldable pub calculate_option_space_fee :
    BpsLike → BpsLike → IntegerLike → IntegerLike → BpsLike → Result Error OptionSpaceFee
calculate_option_space_fee base_fee_bps slope_bps utilization_before utilization_after
      maximum_fee_bps =
    do
      base ← require_bps base_fee_bps
      slope ← require_bps slope_bps
      u0 ← to_uint256 utilization_before
      u1 ← to_uint256 utilization_after
      maximum ← require_bps maximum_fee_bps
      option_space_fee base slope u0 u1 maximum

-- The default of `maximumFeeBps`.
abbrev pub default_maximum_fee_bps : BpsLike
default_maximum_fee_bps = integer (bigint (pos 100))

unfoldable pub calculate_option_space_premium_bps :
    BpsLike → BpsLike → IntegerLike → IntegerLike → Result Error ℕ
calculate_option_space_premium_bps base_fee_bps slope_bps utilization_before utilization_after = do
  fee ←
      calculate_option_space_fee base_fee_bps slope_bps utilization_before utilization_after
        default_maximum_fee_bps
  ok fee.premium_bps_scaled

unfoldable pub fee_amount : (trade_value fee_bps_scaled : ℕ) → Result Error ℕ
fee_amount trade_value fee_bps_scaled = do
  product ← checked_mul trade_value fee_bps_scaled
  ceil_div product (basis_points * fixed_point_scale)

abbrev pub or_default : Option BpsLike → BpsLike → BpsLike
or_default none d = d
or_default (some b) d = b

-- The amounts, from the converted rates and the fee.
unfoldable pub fee_amounts :
    (trade_value base solver protocol : ℕ) → OptionSpaceFee → Result Error FeeDistribution
fee_amounts trade_value base solver protocol option = do
  base_amount ← fee_amount trade_value (base * fixed_point_scale)
  total_amount ← fee_amount trade_value option.fee_bps_scaled
  solver_part ← floor_mul_div base_amount solver (if base == 0 then 1 else base)
  protocol_part ← floor_mul_div base_amount protocol (if base == 0 then 1 else base)
  ok (record {
    base_fee_bps = base;
    option_space_premium_bps_scaled = option.premium_bps_scaled;
    total_fee_bps_scaled = option.fee_bps_scaled;
    base_fee_amount = base_amount;
    treasury_base_fee_amount = base_amount - solver_part - protocol_part;
    option_space_premium_amount = total_amount - base_amount;
    total_fee_amount = total_amount;
    treasury_amount = total_amount - solver_part - protocol_part;
    solver_amount = solver_part;
    protocol_amount = protocol_part;
  })

unfoldable pub distribute_fees : FeeDistributionInput → Result Error FeeDistribution
distribute_fees input = do
  trade_value ← to_uint256 input.trade_value
  base ← require_bps input.base_fee_bps
  treasury_base ← require_bps input.treasury_base_fee_bps
  solver ← require_bps input.solver_fee_bps
  protocol ← require_bps input.protocol_fee_bps
  throw_if (not (treasury_base + solver + protocol == base)) base_fee_distribution
  option ←
      calculate_option_space_fee (integer (bigint (pos base))) input.slope_bps
        input.utilization_before input.utilization_after
        (or_default input.maximum_fee_bps default_maximum_fee_bps)
  fee_amounts trade_value base solver protocol option
