-- ===== src/Financial/SafeFill.antt =====
-- packages/shared/src/financial.ts: the largest fill that a bisection finds safe, and what binds
-- the next unit.
pub mod Maximality
use aurka.Prelude.{
  ℕ, ◌+◌, Bool, true, false, ◌&&◌, Option, none, some, Result, ok, err, ◌>>=◌, ◌>>◌, ltb, ◌==◌,
  if◌then◌else◌, get_elem?,
}
use aurka.Prelude.Int.{pos}
use aurka.Prelude.Text.{Text}
use aurka.Errors.{Error, lookup_failed}
use aurka.Bisect.{bisect_up}
use aurka.Financial.Integer.{IntegerLike, bigint, to_uint256}
use aurka.Financial.Policy.{FinancialPolicy, validate_policy}
use aurka.Financial.Portfolio.{AssetValuation, PortfolioValuation, asset_index}
use aurka.Financial.Trade.{ValueTrade, apply_trade}
use aurka.Financial.Constraints.{
  BindingConstraint, transaction_cap, available_balance, unbound, ConstraintEvaluation,
  evaluate_constraints,
}

-- Omit<ValueTrade, "value"> & { requested }
pub record FillRequest : Type 0 where
  pub trader_input_token : Text
  pub trader_output_token : Text
  pub requested : IntegerLike

pub record SafeFillResult : Type 0 where
  pub requested : ℕ
  pub maximum_safe_fill : ℕ
  pub binding_constraint : BindingConstraint
  pub binding_asset : Option Text
  pub post_trade : PortfolioValuation

-- { constraint, bindingAsset? }
pub record Binding : Type 0 where
  pub constraint : BindingConstraint
  pub binding_asset : Option Text

-- { ...trade, value }
abbrev pub with_value : FillRequest → ℕ → ValueTrade
with_value trade value = record {
  trader_input_token = trade.trader_input_token;
  trader_output_token = trade.trader_output_token;
  value = bigint (pos value);
}

unfoldable pub output_asset : PortfolioValuation → Text → Result Error AssetValuation
output_asset portfolio token = do
  index ← asset_index portfolio token
  elim (get_elem? portfolio.assets index) [ none ↦ err lookup_failed | some asset ↦ ok asset ]

-- evaluateConstraints(applyTrade(portfolio, { ...trade, value }), policy, value)
unfoldable pub evaluate_fill :
    PortfolioValuation → FinancialPolicy → FillRequest → ℕ → Result Error ConstraintEvaluation
evaluate_fill portfolio policy trade value = do
  post_trade ← apply_trade portfolio (with_value trade value)
  evaluate_constraints post_trade policy (bigint (pos value))

abbrev pub fill_is_safe : PortfolioValuation → FinancialPolicy → FillRequest → ℕ → Result Error Bool
fill_is_safe portfolio policy trade value = do
  evaluation ← evaluate_fill portfolio policy trade value
  ok evaluation.safe

-- The tests past the one of the transaction cap.
unfoldable pub binding_past_cap :
    PortfolioValuation
    → FinancialPolicy
    → FillRequest
    → (safe_fill requested : ℕ) → Result Error Binding
binding_past_cap portfolio policy trade safe_fill requested = do
  output ← output_asset portfolio trade.trader_output_token
  let unsafe = evaluate_fill portfolio policy trade (safe_fill + 1) >>= λ u.
      ok (record { constraint = u.binding_constraint; binding_asset = u.binding_asset })
  if safe_fill == output.value && ltb output.value requested
      then ok (record { constraint = available_balance; binding_asset = some output.token })
      else if ltb output.value (safe_fill + 1)
      then ok (record { constraint = available_balance; binding_asset = some output.token })
      else unsafe

unfoldable pub find_first_unsafe_binding :
    PortfolioValuation
    → FinancialPolicy
    → FillRequest
    → (safe_fill requested : ℕ) → Result Error Binding
unfolding binding_past_cap
find_first_unsafe_binding portfolio policy trade safe_fill requested = do
  cap ← to_uint256 policy.maximum_transaction_value
  if safe_fill == cap && ltb cap requested
      then ok (record { constraint = transaction_cap; binding_asset = none })
      else binding_past_cap portfolio policy trade safe_fill requested

-- The upper end of the bisection.
abbrev pub fill_limit : (requested cap available : ℕ) → ℕ
fill_limit requested cap available =
    let high = if ltb requested cap then requested else cap in
    if ltb available high then available else high

abbrev pub or_else : Option Text → Option Text → Option Text
or_else none other = other
or_else (some a) other = some a

unfoldable pub fill_binding :
    PortfolioValuation → FinancialPolicy → FillRequest → (low requested : ℕ) → Result Error Binding
fill_binding portfolio policy trade low requested =
    if ltb low requested
    then find_first_unsafe_binding portfolio policy trade low requested
    else ok (record { constraint = unbound; binding_asset = none })

-- Past the bisection, which ended at `low`.
unfoldable pub fill_result :
    PortfolioValuation
    → FinancialPolicy
    → FillRequest
    → (requested low : ℕ) → Result Error SafeFillResult
fill_result portfolio policy trade requested low = do
  post_trade ← apply_trade portfolio (with_value trade low)
  evaluation ← evaluate_constraints post_trade policy (bigint (pos low))
  binding ← fill_binding portfolio policy trade low requested
  ok (record {
    requested = requested;
    maximum_safe_fill = low;
    binding_constraint = binding.constraint;
    binding_asset = or_else binding.binding_asset evaluation.binding_asset;
    post_trade = post_trade;
  })

unfoldable pub find_maximum_safe_fill :
    PortfolioValuation → FinancialPolicy → FillRequest → Result Error SafeFillResult
find_maximum_safe_fill portfolio policy trade = do
  validate_policy policy
  requested ← to_uint256 trade.requested
  cap ← to_uint256 policy.maximum_transaction_value
  output ← output_asset portfolio trade.trader_output_token
  let high = fill_limit requested cap output.value
  low ← bisect_up (fill_is_safe portfolio policy trade) high 0 high
  fill_result portfolio policy trade requested low
