-- ===== src/Financial/Constraints.antt =====
-- packages/shared/src/financial.ts: the hard constraints of a policy on a portfolio.
pub mod Safety
use aurka.Prelude.{
  ℕ, Bool, true, false, List, [], ◌∷◌, ◌++◌, Option, none, some, Result, ok, ◌>>=◌, ◌>>◌, ltb,
  if◌then◌else◌,
}
use aurka.Prelude.Int.{ℤ, sub_ℕ}
use aurka.Prelude.Text.{Text}
use aurka.Errors.{Error}
use aurka.Financial.Integer.{IntegerLike, to_uint256}
use aurka.Financial.Checked.{bps_of_down, bps_of_up}
use aurka.Financial.Weight.{weight_bps}
use aurka.Financial.Policy.{FinancialPolicy, WeightBounds, policy_bounds, validate_policy}
use aurka.Financial.Portfolio.{AssetValuation, PortfolioValuation}

-- `bindingConstraintSchema` of packages/shared/src/trading.ts.
pub data BindingConstraint : Type 0 where
  requested_amount : BindingConstraint
  transaction_cap : BindingConstraint
  available_balance : BindingConstraint
  capacity_exhausted : BindingConstraint
  minimum_weight : BindingConstraint
  maximum_weight : BindingConstraint
  risk_limit : BindingConstraint
  fee_exceeds_output : BindingConstraint
  paused : BindingConstraint
  unbound : BindingConstraint

pub record ConstraintViolation : Type 0 where
  pub constraint : BindingConstraint
  pub token : Option Text
  pub actual : ℕ
  pub bound : ℕ
  pub excess : ℤ

pub record ConstraintEvaluation : Type 0 where
  pub safe : Bool
  pub binding_constraint : BindingConstraint
  pub binding_asset : Option Text
  pub violations : List ConstraintViolation

-- What an asset below its minimum, and one above its maximum, adds to the violations.
unfoldable pub minimum_violations :
    AssetValuation → (exposure least minimum : ℕ) → List ConstraintViolation
minimum_violations asset exposure least minimum =
    if ltb asset.value least
    then record {
      constraint = minimum_weight;
      token = some asset.token;
      actual = exposure;
      bound = minimum;
      excess = sub_ℕ minimum exposure;
    }
      ∷ []
    else []

unfoldable pub maximum_violations : AssetValuation → (most maximum : ℕ) → List ConstraintViolation
maximum_violations asset most maximum =
    if ltb most asset.value
    then record {
      constraint = maximum_weight;
      token = some asset.token;
      actual = asset.weight_bps;
      bound = maximum;
      excess = sub_ℕ asset.weight_bps maximum;
    }
      ∷ []
    else []

-- One round of the loop over the assets.
unfoldable pub asset_violations :
    FinancialPolicy → ℕ → AssetValuation → Result Error (List ConstraintViolation)
unfolding minimum_violations maximum_violations
asset_violations policy nav asset = do
  bounds ← policy_bounds policy asset.token
  exposure ← weight_bps asset.value nav false
  least ← bps_of_up nav bounds.minimum
  ok (
      minimum_violations asset exposure least bounds.minimum
      ++ maximum_violations asset (bps_of_down nav bounds.maximum) bounds.maximum)

unfoldable pub all_violations :
    FinancialPolicy → ℕ → List AssetValuation → Result Error (List ConstraintViolation)
all_violations policy nav [] = ok []
all_violations policy nav (asset ∷ rest) = do
  here ← asset_violations policy nav asset
  others ← all_violations policy nav rest
  ok (here ++ others)

unfoldable pub cap_violations : (amount cap : ℕ) → List ConstraintViolation
cap_violations amount cap =
    if ltb cap amount
    then record {
      constraint = transaction_cap;
      token = none;
      actual = amount;
      bound = cap;
      excess = sub_ℕ amount cap;
    }
      ∷ []
    else []

-- The evaluation of a list of violations: the first one binds.
unfoldable pub evaluation_of : List ConstraintViolation → ConstraintEvaluation
evaluation_of [] = record {
  safe = true;
  binding_constraint = unbound;
  binding_asset = none;
  violations = [];
}
evaluation_of (first ∷ rest) = record {
  safe = false;
  binding_constraint = first.constraint;
  binding_asset = first.token;
  violations = first ∷ rest;
}

unfoldable pub evaluate_constraints :
    PortfolioValuation → FinancialPolicy → IntegerLike → Result Error ConstraintEvaluation
unfolding cap_violations evaluation_of
evaluate_constraints portfolio policy trade_value = do
  validate_policy policy
  amount ← to_uint256 trade_value
  cap ← to_uint256 policy.maximum_transaction_value
  violations ← all_violations policy portfolio.nav portfolio.assets
  ok (evaluation_of (cap_violations amount cap ++ violations))
