-- ===== src/Financial/Tests.antt =====
-- Runs of the model of packages/shared/src/financial.ts, and its theorems at those inputs.
use aurka.Prelude.{
  ℕ, ◌+◌, ◌*◌, ◌≤◌, ◌≡◌, refl, ◌↔◌, ◌⊎◌, true, false, [], ◌∷◌, none, some, ok, err, arith, Returns,
}
use aurka.Prelude.Int.{pos}
use aurka.Prelude.Text.{text_eq, lower_case, is_blank}
use aurka.Errors.{capacity_exhausted}
use aurka.Bisect.{bisect_up}
use aurka.Financial.Samples.{
  usdc_input, weth_input, usdc_asset, weth_asset, portfolio, policy, fill_request, trade, fees,
  epoch_state,
}
use aurka.Financial.Integer.{bigint, int, to_uint256, require_bps}
use aurka.Financial.Checked.{
  checked_add, checked_sub, checked_mul, ceil_div, bps_of_down, bps_of_up, scale10,
}
use aurka.Financial.Weight.{weight_bps}
use aurka.Financial.Weight.Laws.{
  IsCeilingWeight, IsFloorWeight, weight_bps-IsCeilingWeight, weight_bps-IsFloorWeight,
}
use aurka.Financial.Asset.{value_fraction, calculate_asset_value}
use aurka.Financial.Policy.{
  normalize_token, has, find_policy_asset, policy_bounds, policy_totals, validate_policy,
}
use aurka.Financial.Portfolio.{
  PortfolioValuation, value_asset, value_assets, total_value, weigh_assets, find_index, asset_index,
  calculate_portfolio_valuation,
}
use aurka.Financial.Portfolio.Valued.{IsValued, calculate_portfolio_valuation-IsValued}
use aurka.Financial.Trade.{
  trade_indices, shift_value, shift_assets, move_value, apply_trade, move_value_after_fees,
  apply_fee_inclusive_trade,
}
use aurka.Financial.Trade.Laws.{KeepsTreasuryFee, apply_fee_inclusive_trade-IsValued}
use aurka.Financial.Constraints.{
  ConstraintEvaluation, unbound, maximum_weight, asset_violations, all_violations,
  evaluate_constraints,
}
use aurka.Financial.Constraints.Safety.{IsSafe, evaluate_constraints-safe}
use aurka.Financial.SafeFill.{
  SafeFillResult, output_asset, evaluate_fill, binding_past_cap, find_first_unsafe_binding,
  fill_binding, fill_result, find_maximum_safe_fill,
}
use aurka.Financial.SafeFill.Maximality.{IsMaximalFill, find_maximum_safe_fill-IsMaximalFill}
use aurka.Financial.Capacity.{
  DirectionalCapacityState, consume_directional_capacity, reverse_directional_capacity,
}
use aurka.Financial.Capacity.Laws.{
  IsOpen, consume_fits, reverse-consume, CapacityStep, CapacityHistory, history-IsOpen,
}
use aurka.Financial.Fees.{FeeDistribution, premium_of, option_space_fee}
use aurka.Financial.Fees.Formula.{IsFeeFor, option_space_fee-IsFeeFor}
use aurka.Financial.Fees.Split.{split_premium}

abbrev filled : PortfolioValuation
filled = record {
  value_decimals = int (pos 0);
  nav = 1000;
  assets =
      record usdc_asset { value = 600; weight_bps = 6000 }
      ∷ record weth_asset { value = 400; weight_bps = 4000 }
      ∷ [];
}

abbrev best_fill : SafeFillResult
best_fill = record {
  requested = 300;
  maximum_safe_fill = 100;
  binding_constraint = maximum_weight;
  binding_asset = some usdc_asset.token;
  post_trade = filled;
}

valuation_run :
    calculate_portfolio_valuation (usdc_input ∷ weth_input ∷ []) (int (pos 0)) ≡ ok portfolio
unfolding calculate_portfolio_valuation value_assets value_asset total_value weigh_assets weight_bps
    calculate_asset_value value_fraction scale10 checked_add checked_mul ceil_div require_bps
    to_uint256 normalize_token has text_eq lower_case is_blank
valuation_run = refl

portfolio-IsValued : IsValued portfolio
portfolio-IsValued =
    calculate_portfolio_valuation-IsValued (usdc_input ∷ weth_input ∷ []) (int (pos 0))
      valuation_run

apply_trade_run : apply_trade portfolio trade ≡ ok filled
unfolding apply_trade move_value trade_indices asset_index find_index shift_assets shift_value
    weigh_assets weight_bps checked_add checked_sub to_uint256 normalize_token text_eq lower_case
    is_blank
apply_trade_run = refl

find_maximum_safe_fill_run : find_maximum_safe_fill portfolio policy fill_request ≡ ok best_fill
unfolding find_maximum_safe_fill fill_result fill_binding find_first_unsafe_binding binding_past_cap
    output_asset evaluate_fill bisect_up validate_policy policy_totals policy_bounds
    find_policy_asset evaluate_constraints all_violations asset_violations bps_of_up bps_of_down
    ceil_div has require_bps apply_trade move_value trade_indices asset_index find_index
    shift_assets shift_value weigh_assets weight_bps checked_add checked_sub to_uint256
    normalize_token text_eq lower_case is_blank
find_maximum_safe_fill_run = refl

find_maximum_safe_fill-IsMaximalFill_example :
    IsMaximalFill portfolio policy fill_request 300 1000 500 best_fill
unfolding output_asset to_uint256 asset_index find_index normalize_token text_eq lower_case is_blank
find_maximum_safe_fill-IsMaximalFill_example =
    find_maximum_safe_fill-IsMaximalFill portfolio policy fill_request 300 1000 weth_asset refl refl
      refl find_maximum_safe_fill_run

abbrev after_fees : PortfolioValuation
after_fees = record {
  value_decimals = int (pos 0);
  nav = 1003;
  assets =
      record usdc_asset { value = 600; weight_bps = 5983 }
      ∷ record weth_asset { value = 403; weight_bps = 4018 }
      ∷ [];
}

apply_fee_inclusive_trade_run : apply_fee_inclusive_trade portfolio trade fees ≡ ok after_fees
unfolding apply_fee_inclusive_trade move_value_after_fees total_value trade_indices asset_index
    find_index shift_assets shift_value weigh_assets weight_bps checked_add checked_sub to_uint256
    normalize_token text_eq lower_case is_blank
apply_fee_inclusive_trade_run = refl

apply_fee_inclusive_trade-IsValued_example :
    KeepsTreasuryFee portfolio fees after_fees
    ⊎ ((to_uint256 trade.value ≡ ok 0) × (after_fees ≡ portfolio))
apply_fee_inclusive_trade-IsValued_example =
    apply_fee_inclusive_trade-IsValued portfolio trade fees portfolio-IsValued
      apply_fee_inclusive_trade_run

abbrev safe_evaluation : ConstraintEvaluation
safe_evaluation = record {
  safe = true;
  binding_constraint = unbound;
  binding_asset = none;
  violations = [];
}

evaluate_constraints_run :
    evaluate_constraints portfolio policy (bigint (pos 100)) ≡ ok safe_evaluation
unfolding evaluate_constraints all_violations asset_violations validate_policy policy_totals
    policy_bounds find_policy_asset has require_bps bps_of_up bps_of_down ceil_div weight_bps
    to_uint256 normalize_token text_eq lower_case is_blank
evaluate_constraints_run = refl

evaluate_constraints-safe_example : (safe_evaluation.safe ≡ true) ↔ IsSafe portfolio policy 100
unfolding to_uint256
evaluate_constraints-safe_example =
    evaluate_constraints-safe portfolio policy (bigint (pos 100)) 100 refl evaluate_constraints_run

epoch_state-IsOpen : IsOpen 100 30 epoch_state
unfolding to_uint256
epoch_state-IsOpen = record { baseline_reads = refl; consumed_reads = refl; within = omega arith }

consume_fits_example :
    consume_directional_capacity epoch_state (bigint (pos 71)) ≡ err capacity_exhausted
unfolding to_uint256
consume_fits_example = consume_fits epoch_state (bigint (pos 71)) 100 30 71 epoch_state-IsOpen refl

abbrev consumed_state : DirectionalCapacityState
consumed_state = record epoch_state { consumed_value = bigint (pos 75) }

consume_run : consume_directional_capacity epoch_state (bigint (pos 45)) ≡ ok consumed_state
unfolding consume_directional_capacity to_uint256
consume_run = refl

reverse-consume_example :
    reverse_directional_capacity consumed_state (bigint (pos 45)) ≡ ok epoch_state
reverse-consume_example =
    reverse-consume epoch_state (bigint (pos 45)) 100 30 epoch_state-IsOpen consume_run

epoch_history : CapacityHistory epoch_state consumed_state 45 0
unfolding to_uint256
epoch_history =
    CapacityHistory.then_step CapacityHistory.start
      (CapacityStep.consume (bigint (pos 45)) 45 refl consume_run) 45 0 refl refl

history-IsOpen_example : (c' : ℕ) × IsOpen 100 c' consumed_state × (c' + 0 ≡ 30 + 45)
history-IsOpen_example = history-IsOpen 100 30 epoch_state-IsOpen epoch_history

option_space_fee-IsFeeFor_example :
    Returns
      (option_space_fee 30 50 0 500_000_000_000_000_000 100)
      (IsFeeFor 30 50 0 500_000_000_000_000_000 100)
option_space_fee-IsFeeFor_example =
    option_space_fee-IsFeeFor 30 50 0 500_000_000_000_000_000 100 (omega arith) (omega arith)
      (omega arith) (omega arith)

abbrev half : ℕ
half = 500_000_000_000_000_000

first_half : premium_of 50 0 (0 + half) ≡ ok 4_166_666_666_666_666_667
unfolding premium_of checked_mul ceil_div
first_half = refl

second_half : premium_of 50 (0 + half) (0 + half + half) ≡ ok 29_166_666_666_666_666_667
unfolding premium_of checked_mul ceil_div
second_half = refl

whole_range : premium_of 50 0 (0 + half + half) ≡ ok 16_666_666_666_666_666_667
unfolding premium_of checked_mul ceil_div
whole_range = refl

split_premium_example :
    (half * 4_166_666_666_666_666_667 + half * 29_166_666_666_666_666_667
      ≤ (half + half) * 16_666_666_666_666_666_667 + (half + half))
    × ((half + half) * 16_666_666_666_666_666_667
        ≤ half * 4_166_666_666_666_666_667 + half * 29_166_666_666_666_666_667 + (half + half))
split_premium_example =
    split_premium 50 0 half half 4_166_666_666_666_666_667 29_166_666_666_666_666_667
      16_666_666_666_666_666_667 first_half second_half whole_range

abbrev distributed : FeeDistribution
distributed = record {
  base_fee_bps = 30;
  option_space_premium_bps_scaled = 4_166_666_666_666_666_667;
  total_fee_bps_scaled = 34_166_666_666_666_666_667;
  base_fee_amount = 3;
  treasury_base_fee_amount = 3;
  option_space_premium_amount = 1;
  total_fee_amount = 4;
  treasury_amount = 4;
  solver_amount = 0;
  protocol_amount = 0;
}

weight_bps-IsCeilingWeight_example : Returns (weight_bps 1 3 true) (IsCeilingWeight 1 3)
weight_bps-IsCeilingWeight_example = weight_bps-IsCeilingWeight 1 3

weight_bps-IsFloorWeight_example : Returns (weight_bps 1 3 false) (IsFloorWeight 1 3)
weight_bps-IsFloorWeight_example = weight_bps-IsFloorWeight 1 3

calculate_portfolio_valuation-IsValued_example : IsValued portfolio
calculate_portfolio_valuation-IsValued_example =
    calculate_portfolio_valuation-IsValued (usdc_input ∷ weth_input ∷ []) (int (pos 0))
      valuation_run
