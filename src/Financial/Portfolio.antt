-- ===== src/Financial/Portfolio.antt =====
-- packages/shared/src/financial.ts: the valuation of a portfolio.
pub mod Valued
use aurka.Prelude.{
  ℕ, zero, suc, Bool, true, List, [], ◌∷◌, Option, Result, ok, err, ◌>>=◌, ◌>>◌, throw_if, ltb,
  ◌==◌, if◌then◌else◌,
}
use aurka.Prelude.Text.{Text, text_eq}
use aurka.Errors.{
  Error, duplicate_asset, minimum_exceeds_maximum, empty_portfolio, nav_not_positive,
  not_in_portfolio,
}
use aurka.Financial.Integer.{BpsLike, Num, to_uint256, require_bps}
use aurka.Financial.Checked.{checked_add}
use aurka.Financial.Weight.{weight_bps}
use aurka.Financial.Asset.{Holding, calculate_asset_value}
use aurka.Financial.Policy.{normalize_token, has}

pub record FinancialAssetInput : Type 0 where
  pub holding : Holding
  pub open holding use *
  pub token : Text
  pub symbol : Option Text
  pub minimum_weight_bps : BpsLike
  pub maximum_weight_bps : BpsLike

pub record AssetValuation : Type 0 where
  pub token : Text
  pub symbol : Option Text
  pub balance : ℕ
  pub decimals : Num
  pub price : ℕ
  pub price_decimals : Num
  pub value : ℕ
  pub weight_bps : ℕ
  pub minimum_weight_bps : ℕ
  pub maximum_weight_bps : ℕ

pub record PortfolioValuation : Type 0 where
  pub value_decimals : Num
  pub nav : ℕ
  pub assets : List AssetValuation

-- The body of the first `assets.map`, past the test of the token.
unfoldable pub value_asset : FinancialAssetInput → Num → Result Error AssetValuation
value_asset asset value_decimals = do
  minimum ← require_bps asset.minimum_weight_bps
  maximum ← require_bps asset.maximum_weight_bps
  throw_if (ltb maximum minimum) minimum_exceeds_maximum
  balance ← to_uint256 asset.balance
  price ← to_uint256 asset.price
  value ← calculate_asset_value asset.holding value_decimals
  ok (record {
    token = asset.token;
    symbol = asset.symbol;
    balance = balance;
    decimals = asset.decimals;
    price = price;
    price_decimals = asset.price_decimals;
    value = value;
    weight_bps = 0;
    minimum_weight_bps = minimum;
    maximum_weight_bps = maximum;
  })

unfoldable pub value_assets :
    List Text → List FinancialAssetInput → Num → Result Error (List AssetValuation)
value_assets seen [] value_decimals = ok []
value_assets seen (asset ∷ rest) value_decimals = do
  token ← normalize_token asset.token
  throw_if (has seen token) duplicate_asset
  valued ← value_asset asset value_decimals
  others ← value_assets (token ∷ seen) rest value_decimals
  ok (valued ∷ others)

-- assets.reduce((sum, asset) => checkedAdd(sum, asset.value), 0n)
unfoldable pub total_value : ℕ → List AssetValuation → Result Error ℕ
total_value sum [] = ok sum
total_value sum (asset ∷ rest) = do next ← checked_add sum asset.value; total_value next rest

-- assets.map((asset) => ({ ...asset, weightBps: weightBps(asset.value, nav, true) }))
unfoldable pub weigh_assets : ℕ → List AssetValuation → Result Error (List AssetValuation)
weigh_assets nav [] = ok []
weigh_assets nav (asset ∷ rest) = do
  weight ← weight_bps asset.value nav true
  others ← weigh_assets nav rest
  ok (record asset { weight_bps = weight } ∷ others)

abbrev is_empty : List FinancialAssetInput → Bool
is_empty [] = true
is_empty (x ∷ xs) = Bool.false

unfoldable pub calculate_portfolio_valuation :
    List FinancialAssetInput → Num → Result Error PortfolioValuation
calculate_portfolio_valuation assets value_decimals = do
  throw_if (is_empty assets) empty_portfolio
  raw ← value_assets [] assets value_decimals
  nav ← total_value 0 raw
  throw_if (nav == 0) nav_not_positive
  valued ← weigh_assets nav raw
  ok (record { value_decimals = value_decimals; nav = nav; assets = valued })

-- portfolio.assets.findIndex(...), where a blank token on the way throws.
unfoldable pub find_index : Text → List AssetValuation → Result Error ℕ
find_index normalized [] = err not_in_portfolio
find_index normalized (asset ∷ rest) = do
  let later = find_index normalized rest >>= λ i. ok (suc i)
  token ← normalize_token asset.token
  if text_eq token normalized then ok 0 else later

unfoldable pub asset_index : PortfolioValuation → Text → Result Error ℕ
asset_index portfolio token = do
  normalized ← normalize_token token
  find_index normalized portfolio.assets
