-- ===== src/Settlement/Tests.antt =====
-- Runs of the models of packages/shared/src/settlement.ts, price.ts and epoch.ts, and their
-- theorems at those inputs.
use aurka.Prelude.{zero, suc, ◌≤◌, ◌<◌, true, arith, ℕ, ◌+◌, ◌≡◌, refl, ok, err, [], ◌∷◌, some}
use aurka.Prelude.Int.{pos}
use aurka.Prelude.Text.{text_eq, lower_case, is_blank}
use aurka.Errors.{underflows_uint256, exchange_below_minimum}
use aurka.Bisect.{bisect_up}
use aurka.Financial.Samples.{
  usdc_input, weth_input, usdc, weth, usdc_asset, weth_asset, portfolio, policy,
}
use aurka.Financial.Integer.{bigint, int, number, to_uint256, require_bps, safe_natural, bps_value}
use aurka.Financial.Checked.{
  checked_add, checked_sub, checked_mul, ceil_div, floor_mul_div, bps_of_down, bps_of_up, scale10,
}
use aurka.Financial.Weight.{weight_bps}
use aurka.Financial.Asset.{value_fraction, calculate_asset_value, calculate_asset_value_down}
use aurka.Financial.Policy.{
  normalize_token, has, find_policy_asset, policy_bounds, policy_totals, validate_policy,
}
use aurka.Financial.Portfolio.{
  AssetValuation, value_asset, value_assets, calculate_portfolio_valuation, total_value,
  weigh_assets, find_index, asset_index,
}
use aurka.Financial.Portfolio.Valued.{IsValued, calculate_portfolio_valuation-IsValued}
use aurka.Financial.Trade.{
  trade_indices, shift_value, shift_assets, move_value_after_fees, apply_fee_inclusive_trade,
}
use aurka.Financial.Constraints.{
  unbound, maximum_weight, asset_violations, all_violations, evaluate_constraints,
}
use aurka.Financial.Capacity.{calculate_utilization, utilization_of}
use aurka.Financial.Fees.{
  FeeDistribution, premium_of, option_space_fee, calculate_option_space_fee, fee_amount,
  fee_amounts, distribute_fees,
}
use aurka.Price.{
  TreasuryExchangeValues, is_hex_of, ceil_mul_div_by_small, require_deviation, positive_age,
  assert_fresh_price, assert_approved_price_snapshot, difference, assert_price_within_deviation,
  calculate_minimum_treasury_input_value, assert_minimum_treasury_exchange_value,
  calculate_treasury_exchange_values, assert_fresh_prices, assert_settlement_price_protection,
}
use aurka.Price.Protection.{
  IsProtectedSettlement, assert_settlement_price_protection-IsProtectedSettlement,
}
use aurka.Slots.{
  bytes_to_hex, hex_to_bytes, padded_hex, bytes32_slot, uint_slot, address_slot, concat_slots,
}
use aurka.Epoch.{
  hash_identifier, token_id, epoch_slots, compute_capacity_epoch_id, assert_capacity_epoch,
}
use aurka.Settlement.{
  DirectSettlementInput, DirectSettlementResult, fee_for, post_trade_for, find_asset, scales_match,
  assert_settlement_decimal_scales, evaluate_settlement, probe_binding, find_binding,
  settlement_binding, settlement_result, solve_settlement, check_commitments,
  calculate_direct_settlement,
}
use aurka.Settlement.Maximality.{IsMaximalSettlement, calculate_direct_settlement-IsMaximal}
use aurka.Settlement.Liveness.{calculate_direct_settlement_fills}
use aurka.Settlement.Accounting.{
  IsAccounted, calculate_direct_settlement-IsAccounted, calculate_direct_settlement-IsValued,
}
use aurka.Settlement.Commitments.{IsCommitted, calculate_direct_settlement-IsCommitted}
use aurka.Settlement.Samples.{constant_hash, ab_bytes32, epoch, settlement, protection, accounting}

abbrev protected_values : TreasuryExchangeValues
protected_values = record {
  treasury_input_value = 498;
  treasury_output_value = 502;
  minimum_treasury_input_value = 497;
  maximum_deviation_bps = 100;
}

protection_run : assert_settlement_price_protection protection ≡ ok protected_values
unfolding assert_settlement_price_protection assert_fresh_prices assert_fresh_price safe_natural
    positive_age to_uint256 scale10 assert_approved_price_snapshot is_hex_of text_eq lower_case
    assert_price_within_deviation difference checked_mul require_deviation
    calculate_treasury_exchange_values calculate_asset_value_down calculate_asset_value
    value_fraction ceil_div assert_minimum_treasury_exchange_value
    calculate_minimum_treasury_input_value ceil_mul_div_by_small bps_value
protection_run = refl

assert_settlement_price_protection_example : IsProtectedSettlement protection
assert_settlement_price_protection_example =
    assert_settlement_price_protection-IsProtectedSettlement protection protection_run

-- One unit less of the input is refused.
protection_refused :
    assert_settlement_price_protection
      (record protection { trader_input_amount = bigint (pos 496) })
    ≡ err exchange_below_minimum
unfolding assert_settlement_price_protection assert_fresh_prices assert_fresh_price safe_natural
    positive_age to_uint256 scale10 assert_approved_price_snapshot is_hex_of text_eq lower_case
    assert_price_within_deviation difference checked_mul require_deviation
    calculate_treasury_exchange_values calculate_asset_value_down calculate_asset_value
    value_fraction ceil_div assert_minimum_treasury_exchange_value
    calculate_minimum_treasury_input_value ceil_mul_div_by_small bps_value
protection_refused = refl

abbrev fees : FeeDistribution
fees = record {
  base_fee_bps = 30;
  option_space_premium_bps_scaled = 9041666666666666667;
  total_fee_bps_scaled = 39041666666666666667;
  base_fee_amount = 1;
  treasury_base_fee_amount = 1;
  option_space_premium_amount = 0;
  total_fee_amount = 1;
  treasury_amount = 1;
  solver_amount = 0;
  protocol_amount = 0;
}

abbrev settled : DirectSettlementResult
settled = record {
  requested_value = 300;
  maximum_safe_value = 100;
  executed_value = 100;
  capacity_baseline_value = 200;
  consumed_before = 30;
  consumed_after = 130;
  utilization_before = 150000000000000000;
  utilization_after = 650000000000000000;
  trader_input_token = usdc;
  trader_output_token = weth;
  fee_token = weth;
  trader_output_value = pos 99;
  treasury_output_value = pos 99;
  fees = fees;
  fee_accounting = accounting;
  capacity_epoch_id = ab_bytes32;
  initial_portfolio = portfolio;
  final_portfolio = record {
    value_decimals = int (pos 0);
    nav = 1001;
    assets =
        record usdc_asset { value = 600; weight_bps = 5995 }
        ∷ record weth_asset { value = 401; weight_bps = 4006 }
        ∷ [];
  };
  binding_constraint = maximum_weight;
  binding_asset = some usdc;
}

settlement_run : calculate_direct_settlement constant_hash settlement ≡ ok settled
unfolding calculate_direct_settlement to_uint256 check_commitments text_eq lower_case
    assert_settlement_decimal_scales find_asset scales_match assert_capacity_epoch is_hex_of
    compute_capacity_epoch_id epoch_slots hash_identifier bytes_to_hex bytes32_slot hex_to_bytes
    token_id uint_slot address_slot concat_slots assert_settlement_price_protection
    assert_fresh_prices assert_fresh_price safe_natural positive_age scale10
    assert_approved_price_snapshot assert_price_within_deviation difference checked_mul
    require_deviation bps_value calculate_treasury_exchange_values calculate_asset_value_down
    calculate_asset_value value_fraction ceil_div assert_minimum_treasury_exchange_value
    calculate_minimum_treasury_input_value ceil_mul_div_by_small solve_settlement bisect_up
    evaluate_settlement fee_for calculate_utilization utilization_of distribute_fees require_bps
    calculate_option_space_fee option_space_fee premium_of checked_add fee_amounts fee_amount
    floor_mul_div post_trade_for apply_fee_inclusive_trade move_value_after_fees trade_indices
    asset_index find_index normalize_token is_blank shift_assets shift_value checked_sub total_value
    weigh_assets weight_bps bps_of_down bps_of_up evaluate_constraints validate_policy policy_totals
    has all_violations asset_violations policy_bounds find_policy_asset settlement_result
    settlement_binding find_binding probe_binding padded_hex
settlement_run = refl

calculate_direct_settlement-IsAccounted_example : IsAccounted settled
calculate_direct_settlement-IsAccounted_example =
    calculate_direct_settlement-IsAccounted constant_hash settlement settlement_run

calculate_direct_settlement-IsCommitted_example : IsCommitted constant_hash settlement
calculate_direct_settlement-IsCommitted_example =
    calculate_direct_settlement-IsCommitted constant_hash settlement settlement_run

calculate_direct_settlement-IsMaximal_example :
    (requested : ℕ) × (baseline : ℕ) × (consumed : ℕ) × (cap : ℕ) × (output : AssetValuation)
    × (to_uint256 settlement.requested_value ≡ ok requested)
    × (to_uint256 settlement.capacity_baseline_value ≡ ok baseline)
    × (to_uint256 settlement.consumed_before ≡ ok consumed)
    × (to_uint256 settlement.policy.maximum_transaction_value ≡ ok cap)
    × (find_asset settlement.trader_output_token settlement.portfolio.assets ≡ some output)
    × IsMaximalSettlement settlement baseline consumed requested cap output.value settled
calculate_direct_settlement-IsMaximal_example =
    calculate_direct_settlement-IsMaximal constant_hash settlement settlement_run

portfolio-IsValued : IsValued portfolio
unfolding calculate_portfolio_valuation value_assets value_asset total_value weigh_assets weight_bps
    calculate_asset_value value_fraction scale10 checked_add checked_mul ceil_div require_bps
    to_uint256 normalize_token has text_eq lower_case is_blank
portfolio-IsValued =
    calculate_portfolio_valuation-IsValued (usdc_input ∷ weth_input ∷ []) (int (pos 0)) refl

calculate_direct_settlement-IsValued_example :
    IsValued settled.final_portfolio × (settled.final_portfolio.nav ≡ 1000 + 1)
calculate_direct_settlement-IsValued_example =
    calculate_direct_settlement-IsValued constant_hash settlement portfolio-IsValued settlement_run

-- A policy that allows the whole output asset to be sold, without fees, and a request for more than
-- the output asset's value.
abbrev beyond_balance : DirectSettlementInput
beyond_balance = record settlement {
  requested_value = bigint (pos 600);
  policy = record policy {
    assets =
        record {
          token = usdc;
          minimum_weight_bps = number (int (pos 0));
          maximum_weight_bps = number (int (pos 10000));
        }
        ∷ record {
          token = weth;
          minimum_weight_bps = number (int (pos 0));
          maximum_weight_bps = number (int (pos 10000));
        }
        ∷ [];
  };
  fee = record {
    base_fee_bps = number (int (pos 0));
    slope_bps = number (int (pos 0));
    maximum_fee_bps = number (int (pos 100));
    treasury_base_fee_bps = number (int (pos 0));
    solver_fee_bps = number (int (pos 0));
    protocol_fee_bps = number (int (pos 0));
  };
  capacity_baseline_value = bigint (pos 2000);
  capacity_epoch = record epoch { capacity_baseline_value = bigint (pos 2000) };
}

-- The probe of one unit more than the balance throws, and the settlement with it.
beyond_balance_run :
    calculate_direct_settlement constant_hash beyond_balance ≡ err underflows_uint256
unfolding calculate_direct_settlement to_uint256 check_commitments text_eq lower_case
    assert_settlement_decimal_scales find_asset scales_match assert_capacity_epoch is_hex_of
    compute_capacity_epoch_id epoch_slots hash_identifier bytes_to_hex bytes32_slot hex_to_bytes
    token_id uint_slot address_slot concat_slots assert_settlement_price_protection
    assert_fresh_prices assert_fresh_price safe_natural positive_age scale10
    assert_approved_price_snapshot assert_price_within_deviation difference checked_mul
    require_deviation bps_value calculate_treasury_exchange_values calculate_asset_value_down
    calculate_asset_value value_fraction ceil_div assert_minimum_treasury_exchange_value
    calculate_minimum_treasury_input_value ceil_mul_div_by_small solve_settlement bisect_up
    evaluate_settlement fee_for calculate_utilization utilization_of distribute_fees require_bps
    calculate_option_space_fee option_space_fee premium_of checked_add fee_amounts fee_amount
    floor_mul_div post_trade_for apply_fee_inclusive_trade move_value_after_fees trade_indices
    asset_index find_index normalize_token is_blank shift_assets shift_value checked_sub total_value
    weigh_assets weight_bps bps_of_down bps_of_up evaluate_constraints validate_policy policy_totals
    has all_violations asset_violations policy_bounds find_policy_asset settlement_result
    settlement_binding find_binding probe_binding padded_hex
beyond_balance_run = refl

-- A request of two units, each of which is safe.
abbrev small : DirectSettlementInput
small = record settlement { requested_value = bigint (pos 2) }

small_is_safe : (n : ℕ) → 0 < n → n ≤ 2 → evaluate_settlement small 200 30 n ≡ ok true
unfolding calculate_direct_settlement to_uint256 check_commitments text_eq lower_case
    assert_settlement_decimal_scales find_asset scales_match assert_capacity_epoch is_hex_of
    compute_capacity_epoch_id epoch_slots hash_identifier bytes_to_hex bytes32_slot hex_to_bytes
    token_id uint_slot address_slot concat_slots assert_settlement_price_protection
    assert_fresh_prices assert_fresh_price safe_natural positive_age scale10
    assert_approved_price_snapshot assert_price_within_deviation difference checked_mul
    require_deviation bps_value calculate_treasury_exchange_values calculate_asset_value_down
    calculate_asset_value value_fraction ceil_div assert_minimum_treasury_exchange_value
    calculate_minimum_treasury_input_value ceil_mul_div_by_small solve_settlement bisect_up
    evaluate_settlement fee_for calculate_utilization utilization_of distribute_fees require_bps
    calculate_option_space_fee option_space_fee premium_of checked_add fee_amounts fee_amount
    floor_mul_div post_trade_for apply_fee_inclusive_trade move_value_after_fees trade_indices
    asset_index find_index normalize_token is_blank shift_assets shift_value checked_sub total_value
    weigh_assets weight_bps bps_of_down bps_of_up evaluate_constraints validate_policy policy_totals
    has all_violations asset_violations policy_bounds find_policy_asset settlement_result
    settlement_binding find_binding probe_binding padded_hex
small_is_safe zero positive le = ground arith
small_is_safe (suc zero) positive le = refl
small_is_safe (suc (suc zero)) positive le = refl
small_is_safe (suc (suc (suc n))) positive le = ground arith

small_checked : check_commitments constant_hash small 200 30 ≡ ok tt
unfolding calculate_direct_settlement to_uint256 check_commitments text_eq lower_case
    assert_settlement_decimal_scales find_asset scales_match assert_capacity_epoch is_hex_of
    compute_capacity_epoch_id epoch_slots hash_identifier bytes_to_hex bytes32_slot hex_to_bytes
    token_id uint_slot address_slot concat_slots assert_settlement_price_protection
    assert_fresh_prices assert_fresh_price safe_natural positive_age scale10
    assert_approved_price_snapshot assert_price_within_deviation difference checked_mul
    require_deviation bps_value calculate_treasury_exchange_values calculate_asset_value_down
    calculate_asset_value value_fraction ceil_div assert_minimum_treasury_exchange_value
    calculate_minimum_treasury_input_value ceil_mul_div_by_small solve_settlement bisect_up
    evaluate_settlement fee_for calculate_utilization utilization_of distribute_fees require_bps
    calculate_option_space_fee option_space_fee premium_of checked_add fee_amounts fee_amount
    floor_mul_div post_trade_for apply_fee_inclusive_trade move_value_after_fees trade_indices
    asset_index find_index normalize_token is_blank shift_assets shift_value checked_sub total_value
    weigh_assets weight_bps bps_of_down bps_of_up evaluate_constraints validate_policy policy_totals
    has all_violations asset_violations policy_bounds find_policy_asset settlement_result
    settlement_binding find_binding probe_binding padded_hex
small_checked = refl

calculate_direct_settlement_fills_example :
    (r : DirectSettlementResult) × (calculate_direct_settlement constant_hash small ≡ ok r)
    × (r.executed_value ≡ 2)
    × (r.binding_constraint ≡ unbound)
unfolding to_uint256 find_asset text_eq lower_case
calculate_direct_settlement_fills_example =
    calculate_direct_settlement_fills constant_hash small 2 200 30 1000 weth_asset refl refl refl
      small_checked refl refl (omega arith) (omega arith) (omega arith) (omega arith) small_is_safe
