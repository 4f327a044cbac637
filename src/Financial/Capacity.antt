-- ===== src/Financial/Capacity.antt =====
-- packages/shared/src/financial.ts: directional capacity and its consumption over an epoch.
pub mod Laws
use aurka.Prelude.{
  ℕ, ◌+◌, ◌-◌, ◌*◌, ◌/◌, Bool, ◌||◌, Option, none, some, Result, ok, err, ◌>>=◌, ◌>>◌, throw_if,
  ltb, leb, ◌==◌, if◌then◌else◌,
}
use aurka.Prelude.Int.{pos}
use aurka.Prelude.Text.{Text}
use aurka.Errors.{Error, consumed_exceeds_capacity, capacity_exhausted, reverse_exceeds_consumption}
use aurka.Financial.Integer.{IntegerLike, bigint, to_uint256, uint256_max, fixed_point_scale}
use aurka.Financial.Checked.{floor_mul_div}
use aurka.Financial.Policy.{FinancialPolicy}
use aurka.Financial.Portfolio.{PortfolioValuation}
use aurka.Financial.Constraints.{BindingConstraint}
use aurka.Financial.SafeFill.{find_maximum_safe_fill}

pub record DirectionalCapacityState : Type 0 where
  pub capacity_baseline_value : IntegerLike
  pub consumed_value : IntegerLike
  pub capacity_epoch_id : Option Text

pub record CalculatedDirectionalCapacity : Type 0 where
  pub trader_input_token : Text
  pub trader_output_token : Text
  pub capacity_baseline_value : ℕ
  pub consumed_value : ℕ
  pub remaining_value : ℕ
  pub maximum_value : ℕ
  pub utilization : ℕ
  pub binding_constraint : BindingConstraint
  pub binding_asset : Option Text

-- Past the conversion of the two arguments.
unfoldable pub utilization_of : (consumed capacity : ℕ) → Result Error ℕ
utilization_of consumed capacity =
    if capacity == 0
    then ok (if consumed == 0 then 0 else fixed_point_scale)
    else if ltb capacity consumed
    then err consumed_exceeds_capacity
    else floor_mul_div consumed fixed_point_scale capacity

unfoldable pub calculate_utilization : IntegerLike → IntegerLike → Result Error ℕ
calculate_utilization consumed_value capacity_value = do
  consumed ← to_uint256 consumed_value
  capacity ← to_uint256 capacity_value
  utilization_of consumed capacity

unfoldable pub state_baseline : Option DirectionalCapacityState → ℕ → Result Error ℕ
state_baseline none current = ok current
state_baseline (some state) current = to_uint256 state.capacity_baseline_value

unfoldable pub state_consumed : Option DirectionalCapacityState → Result Error ℕ
state_consumed none = ok 0
state_consumed (some state) = to_uint256 state.consumed_value

unfoldable pub calculate_directional_capacity :
    PortfolioValuation
    → FinancialPolicy
    → Text
    → Text
    → Option DirectionalCapacityState
    → Result Error CalculatedDirectionalCapacity
unfolding state_baseline state_consumed
calculate_directional_capacity portfolio policy input_token output_token state = do
  current ← find_maximum_safe_fill portfolio policy (record {
    trader_input_token = input_token;
    trader_output_token = output_token;
    requested = bigint (pos uint256_max);
  })
  baseline ← state_baseline state current.maximum_safe_fill
  consumed ← state_consumed state
  utilization ← calculate_utilization (bigint (pos consumed)) (bigint (pos baseline))
  let remaining = if leb consumed baseline then baseline - consumed else 0
  ok (record {
    trader_input_token = input_token;
    trader_output_token = output_token;
    capacity_baseline_value = baseline;
    consumed_value = consumed;
    remaining_value = remaining;
    maximum_value = current.maximum_safe_fill;
    utilization = utilization;
    binding_constraint = current.binding_constraint;
    binding_asset = current.binding_asset;
  })

unfoldable pub establish_directional_capacity :
    PortfolioValuation → FinancialPolicy → Text → Text → Result Error DirectionalCapacityState
establish_directional_capacity portfolio policy input_token output_token = do
  capacity ← calculate_directional_capacity portfolio policy input_token output_token none
  ok (record {
    capacity_baseline_value = bigint (pos capacity.capacity_baseline_value);
    consumed_value = bigint (pos 0);
    capacity_epoch_id = none;
  })

unfoldable pub consume_directional_capacity :
    DirectionalCapacityState → IntegerLike → Result Error DirectionalCapacityState
consume_directional_capacity state value = do
  baseline ← to_uint256 state.capacity_baseline_value
  consumed ← to_uint256 state.consumed_value
  amount ← to_uint256 value
  throw_if (ltb baseline consumed || ltb (baseline - consumed) amount) capacity_exhausted
  ok (record state {
    capacity_baseline_value = bigint (pos baseline);
    consumed_value = bigint (pos (consumed + amount));
  })

unfoldable pub reverse_directional_capacity :
    DirectionalCapacityState → IntegerLike → Result Error DirectionalCapacityState
reverse_directional_capacity state value = do
  baseline ← to_uint256 state.capacity_baseline_value
  consumed ← to_uint256 state.consumed_value
  amount ← to_uint256 value
  throw_if (ltb consumed amount) reverse_exceeds_consumption
  ok (record state {
    capacity_baseline_value = bigint (pos baseline);
    consumed_value = bigint (pos (consumed - amount));
  })
