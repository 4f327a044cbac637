-- ===== src/Settlement.antt =====
-- packages/shared/src/settlement.ts: the largest direct fill of one pair, with its fees, its final
-- portfolio and what binds the next unit.
pub mod Maximality
pub mod Accounting
pub mod Commitments
pub mod Liveness
pub mod Samples
mod Tests
use aurka.Prelude.{
  ℕ, ◌+◌, ◌-◌, Bool, true, false, ◌&&◌, ◌||◌, List, [], ◌∷◌, not, Option, none, some, Result, ok,
  err, ◌>>=◌, ◌>>◌, throw_if, catch, ltb, leb, ◌==◌, if◌then◌else◌,
}
use aurka.Prelude.Int.{ℤ, pos, negsuc, sub_ℕ}
use aurka.Prelude.Text.{Text, codes, text_eq}
use aurka.Errors.{
  Error, consumed_exceeds_capacity, fee_token_mismatch, epoch_state_mismatch,
  epoch_direction_mismatch, decimal_scales_mismatch, price_token_mismatch, not_in_portfolio,
}
use aurka.Bisect.{bisect_up}
use aurka.Financial.Integer.{IntegerLike, bigint, BpsLike, Num, int, not_integral, to_uint256}
use aurka.Financial.Policy.{FinancialPolicy}
use aurka.Financial.Portfolio.{AssetValuation, PortfolioValuation}
use aurka.Financial.Trade.{TradeFees, apply_fee_inclusive_trade}
use aurka.Financial.Constraints.{
  BindingConstraint, transaction_cap, capacity_exhausted, minimum_weight, fee_exceeds_output,
  unbound, evaluate_constraints,
}
use aurka.Financial.SafeFill.{Binding}
use aurka.Financial.Capacity.{calculate_utilization}
use aurka.Financial.Fees.{
  FeeDistribution, OptionSpaceFee, distribute_fees, calculate_option_space_fee,
}
use aurka.Price.{SettlementPriceProtection, same_text, assert_settlement_price_protection}
use aurka.Epoch.{CapacityEpoch, assert_capacity_epoch}

pub record FinancialFeeConfig : Type 0 where
  pub base_fee_bps : BpsLike
  pub slope_bps : BpsLike
  pub maximum_fee_bps : BpsLike
  pub treasury_base_fee_bps : BpsLike
  pub solver_fee_bps : BpsLike
  pub protocol_fee_bps : BpsLike

pub record FeeAccounting : Type 0 where
  pub fee_token : Text
  pub fee_payment_mode : Text
  pub treasury_recipient : Text
  pub solver_recipient : Text
  pub protocol_recipient : Text

pub record DirectSettlementInput : Type 0 where
  pub portfolio : PortfolioValuation
  pub policy : FinancialPolicy
  pub fee : FinancialFeeConfig
  pub fee_accounting : FeeAccounting
  pub trader_input_token : Text
  pub trader_output_token : Text
  pub requested_value : IntegerLike
  pub capacity_baseline_value : IntegerLike
  pub consumed_before : IntegerLike
  pub capacity_epoch_id : Text
  pub capacity_epoch : CapacityEpoch
  pub price_protection : SettlementPriceProtection

pub record DirectSettlementResult : Type 0 where
  pub requested_value : ℕ
  pub maximum_safe_value : ℕ
  pub executed_value : ℕ
  pub capacity_baseline_value : ℕ
  pub consumed_before : ℕ
  pub consumed_after : ℕ
  pub utilization_before : ℕ
  pub utilization_after : ℕ
  pub trader_input_token : Text
  pub trader_output_token : Text
  pub fee_token : Text
  pub trader_output_value : ℤ
  pub treasury_output_value : ℤ
  pub fees : FeeDistribution
  pub fee_accounting : FeeAccounting
  pub capacity_epoch_id : Text
  pub initial_portfolio : PortfolioValuation
  pub final_portfolio : PortfolioValuation
  pub binding_constraint : BindingConstraint
  pub binding_asset : Option Text

abbrev pub settlement_value_decimals : ℕ
settlement_value_decimals = 0

unfoldable pub fee_for :
    (value : ℕ)
    → FinancialFeeConfig
    → (consumed_before consumed_after capacity_baseline : ℕ) → Result Error FeeDistribution
fee_for value fee consumed_before consumed_after capacity_baseline = do
  before ← calculate_utilization (bigint (pos consumed_before)) (bigint (pos capacity_baseline))
  after ← calculate_utilization (bigint (pos consumed_after)) (bigint (pos capacity_baseline))
  distribute_fees (record {
    trade_value = bigint (pos value);
    base_fee_bps = fee.base_fee_bps;
    treasury_base_fee_bps = fee.treasury_base_fee_bps;
    solver_fee_bps = fee.solver_fee_bps;
    protocol_fee_bps = fee.protocol_fee_bps;
    slope_bps = fee.slope_bps;
    maximum_fee_bps = some fee.maximum_fee_bps;
    utilization_before = bigint (pos before);
    utilization_after = bigint (pos after);
  })

-- The part of a distribution that the trade reads.
abbrev pub trade_fees : FeeDistribution → TradeFees
trade_fees f = record {
  total_fee_amount = f.total_fee_amount;
  solver_amount = f.solver_amount;
  protocol_amount = f.protocol_amount;
}

unfoldable pub post_trade_for :
    PortfolioValuation → Text → Text → ℕ → FeeDistribution → Result Error PortfolioValuation
post_trade_for portfolio trader_input_token trader_output_token value fees =
    apply_fee_inclusive_trade portfolio
      (record {
        trader_input_token = trader_input_token;
        trader_output_token = trader_output_token;
        value = bigint (pos value);
      })
      (trade_fees fees)

-- portfolio.assets.find((asset) => asset.token.toLowerCase() === token.toLowerCase())
unfoldable pub find_asset : Text → List AssetValuation → Option AssetValuation
find_asset token [] = none
find_asset token (asset ∷ rest) =
    if same_text asset.token token then some asset else find_asset token rest

-- a === b, for numbers. A number that is no integer is unequal to all here: where the source
-- compares two of them, the price check that follows throws in either case.
abbrev pub same_num : Num → Num → Bool
same_num (int (pos a)) (int (pos b)) = a == b
same_num (int (negsuc a)) (int (negsuc b)) = a == b
same_num (int (pos a)) (int (negsuc b)) = false
same_num (int (negsuc a)) (int (pos b)) = false
same_num (int a) not_integral = false
same_num not_integral (int b) = false
same_num not_integral not_integral = false

unfoldable pub scales_match :
    Option AssetValuation → Option AssetValuation → SettlementPriceProtection → Num → Bool
scales_match none output protection value_decimals = false
scales_match (some input) none protection value_decimals = false
scales_match (some input) (some output) protection value_decimals =
    same_num protection.trader_input_decimals input.decimals
    && same_num protection.trader_output_decimals output.decimals
    && same_num protection.value_decimals (int (pos settlement_value_decimals))
    && same_num value_decimals (int (pos settlement_value_decimals))

unfoldable pub assert_settlement_decimal_scales : DirectSettlementInput → Result Error (Unit {0})
unfolding scales_match
assert_settlement_decimal_scales input =
    throw_if
      (not (
        scales_match (find_asset input.trader_input_token input.portfolio.assets)
          (find_asset input.trader_output_token input.portfolio.assets) input.price_protection
          input.portfolio.value_decimals))
      decimal_scales_mismatch

-- Fees, trade and constraints of one candidate value.
unfoldable pub evaluate_settlement :
    DirectSettlementInput → (baseline consumed value : ℕ) → Result Error Bool
evaluate_settlement input baseline consumed value = do
  fees ← fee_for value input.fee consumed (consumed + value) baseline
  post_trade ←
      post_trade_for input.portfolio input.trader_input_token input.trader_output_token value fees
  evaluation ← evaluate_constraints post_trade input.policy (bigint (pos value))
  ok evaluation.safe

-- A candidate that throws is not safe.
abbrev pub settlement_is_safe :
    DirectSettlementInput → (baseline consumed value : ℕ) → Result Error Bool
settlement_is_safe input baseline consumed value =
    ok (catch (evaluate_settlement input baseline consumed value) false)

-- The last test of `findBinding`, on the unit past the safe value.
unfoldable pub probe_binding :
    DirectSettlementInput → (baseline consumed probe : ℕ) → Result Error Binding
probe_binding input baseline consumed probe =
    elim (fee_for probe input.fee consumed (consumed + probe) baseline) [
      | err e ↦ ok (record { constraint = fee_exceeds_output; binding_asset = none })
      | ok probe_fees ↦ do
        post_trade ←
            post_trade_for input.portfolio input.trader_input_token input.trader_output_token probe
              probe_fees
        evaluation ← evaluate_constraints post_trade input.policy (bigint (pos probe))
        ok (record {
          constraint = evaluation.binding_constraint;
          binding_asset = evaluation.binding_asset;
        })
    ]

unfoldable pub find_binding :
    DirectSettlementInput → (baseline consumed safe_value requested : ℕ) → Result Error Binding
find_binding input baseline consumed safe_value requested = do
  cap ← to_uint256 input.policy.maximum_transaction_value
  let available = if leb consumed baseline then baseline - consumed else 0
  let probed = probe_binding input baseline consumed (safe_value + 1)
  if safe_value == cap && ltb cap requested
      then ok (record { constraint = transaction_cap; binding_asset = none })
      else if safe_value == available && ltb available requested
      then ok (record { constraint = capacity_exhausted; binding_asset = none })
      else if safe_value == 0 && ltb 0 requested
      then ok (record { constraint = minimum_weight; binding_asset = none })
      else probed

unfoldable pub settlement_binding :
    DirectSettlementInput → (baseline consumed executed requested : ℕ) → Result Error Binding
settlement_binding input baseline consumed executed requested =
    if ltb executed requested
    then find_binding input baseline consumed executed requested
    else ok (record { constraint = unbound; binding_asset = none })

-- min(requested, cap), then the rest of the capacity, then the output asset's value.
abbrev pub settlement_limit : (requested cap remaining available : ℕ) → ℕ
settlement_limit requested cap remaining available =
    let high = if ltb requested cap then requested else cap in
    let within = if ltb remaining high then remaining else high in
    if ltb available within then available else within

-- The returned object.
abbrev pub settlement_report :
    DirectSettlementInput
    → (requested baseline consumed executed : ℕ) → FeeDistribution
    → PortfolioValuation
    → OptionSpaceFee
    → Binding
    → DirectSettlementResult
settlement_report input requested baseline consumed executed fees final_portfolio option binding =
    record {
      requested_value = requested;
      maximum_safe_value = executed;
      executed_value = executed;
      capacity_baseline_value = baseline;
      consumed_before = consumed;
      consumed_after = consumed + executed;
      utilization_before = option.utilization_before;
      utilization_after = option.utilization_after;
      trader_input_token = input.trader_input_token;
      trader_output_token = input.trader_output_token;
      fee_token = input.trader_output_token;
      trader_output_value = sub_ℕ executed fees.total_fee_amount;
      treasury_output_value = sub_ℕ executed fees.treasury_amount;
      fees = fees;
      fee_accounting = input.fee_accounting;
      capacity_epoch_id = input.capacity_epoch_id;
      initial_portfolio = input.portfolio;
      final_portfolio = final_portfolio;
      binding_constraint = binding.constraint;
      binding_asset = binding.binding_asset;
    }

-- Past the bisection, which ended at `executed`.
unfoldable pub settlement_result :
    DirectSettlementInput
    → (requested baseline consumed executed : ℕ) → Result Error DirectSettlementResult
settlement_result input requested baseline consumed executed = do
  fees ← fee_for executed input.fee consumed (consumed + executed) baseline
  final_portfolio ←
      post_trade_for input.portfolio input.trader_input_token input.trader_output_token executed
        fees
  before ← calculate_utilization (bigint (pos consumed)) (bigint (pos baseline))
  after ← calculate_utilization (bigint (pos (consumed + executed))) (bigint (pos baseline))
  option ←
      calculate_option_space_fee input.fee.base_fee_bps input.fee.slope_bps (bigint (pos before))
        (bigint (pos after)) input.fee.maximum_fee_bps
  binding ← settlement_binding input baseline consumed executed requested
  ok (
      settlement_report input requested baseline consumed executed fees final_portfolio option
        binding)

abbrev pub required_asset : Option AssetValuation → Result Error AssetValuation
required_asset none = err not_in_portfolio
required_asset (some asset) = ok asset

-- The second conversion is made only where the first agrees.
abbrev pub epoch_consumption :
    DirectSettlementInput → (epoch_baseline baseline : ℕ) → Result Error ℕ
epoch_consumption input epoch_baseline baseline =
    if epoch_baseline == baseline
    then to_uint256 input.capacity_epoch.consumed_before
    else err epoch_state_mismatch

-- From the transaction cap on, past every check of the commitments.
unfoldable pub solve_settlement :
    DirectSettlementInput → (requested baseline consumed : ℕ) → Result Error DirectSettlementResult
solve_settlement input requested baseline consumed = do
  cap ← to_uint256 input.policy.maximum_transaction_value
  output ← required_asset (find_asset input.trader_output_token input.portfolio.assets)
  let high = settlement_limit requested cap (baseline - consumed) output.value
  executed ← bisect_up (settlement_is_safe input baseline consumed) high 0 high
  settlement_result input requested baseline consumed executed

module _ (keccak_256 : List ℕ → List ℕ) where
  -- The checks of the fee token, the epoch, the decimals and the prices.
  unfoldable pub check_commitments :
      DirectSettlementInput → (baseline consumed : ℕ) → Result Error (Unit {0})
  check_commitments input baseline consumed = do
    throw_if
        (not (text_eq input.fee_accounting.fee_payment_mode (codes "OUTPUT_TOKEN"))
          || not (same_text input.fee_accounting.fee_token input.trader_output_token))
        fee_token_mismatch
    epoch_baseline ← to_uint256 input.capacity_epoch.capacity_baseline_value
    epoch_consumed ← epoch_consumption input epoch_baseline baseline
    throw_if (not (epoch_consumed == consumed)) epoch_state_mismatch
    throw_if
        (not (same_text input.capacity_epoch.trader_input_token input.trader_input_token)
          || not (same_text input.capacity_epoch.trader_output_token input.trader_output_token))
        epoch_direction_mismatch
    assert_settlement_decimal_scales input
    assert_capacity_epoch keccak_256 input.capacity_epoch input.capacity_epoch_id
    throw_if
        (not (
            same_text input.price_protection.trader_input_reference_price.token
              input.trader_input_token)
          || not (
              same_text input.price_protection.trader_output_reference_price.token
                input.trader_output_token))
        price_token_mismatch
    values ← assert_settlement_price_protection input.price_protection
    ok tt

  unfoldable pub calculate_direct_settlement :
      DirectSettlementInput → Result Error DirectSettlementResult
  calculate_direct_settlement input = do
    requested ← to_uint256 input.requested_value
    consumed ← to_uint256 input.consumed_before
    baseline ← to_uint256 input.capacity_baseline_value
    throw_if (ltb baseline consumed) consumed_exceeds_capacity
    check_commitments input baseline consumed
    solve_settlement input requested baseline consumed
