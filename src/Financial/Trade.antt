-- ===== src/Financial/Trade.antt =====
-- packages/shared/src/financial.ts: the portfolio after a trade, with and without fees.
pub mod Laws
use aurka.Prelude.{
  ℕ, suc, ◌-◌, Bool, true, false, ◌||◌, List, [], ◌∷◌, Option, none, some, Result, ok, err, ◌>>=◌,
  ◌>>◌, throw_if, ltb, ◌==◌, if◌then◌else◌, get_elem?,
}
use aurka.Prelude.Text.{Text, text_eq}
use aurka.Errors.{Error, trade_assets_equal, lookup_failed, fee_exceeds_output, nav_not_positive}
use aurka.Financial.Integer.{IntegerLike, to_uint256}
use aurka.Financial.Checked.{checked_add, checked_sub}
use aurka.Financial.Policy.{normalize_token}
use aurka.Financial.Portfolio.{
  AssetValuation, PortfolioValuation, total_value, weigh_assets, asset_index,
}

pub record ValueTrade : Type 0 where
  pub trader_input_token : Text
  pub trader_output_token : Text
  pub value : IntegerLike

abbrev pub is_missing : Option AssetValuation → Bool
is_missing none = true
is_missing (some a) = false

-- The checks that both operations make before they move value: the two indices.
unfoldable pub trade_indices : PortfolioValuation → ValueTrade → Result Error (ℕ × ℕ)
trade_indices portfolio trade = do
  input_token ← normalize_token trade.trader_input_token
  output_token ← normalize_token trade.trader_output_token
  throw_if (text_eq input_token output_token) trade_assets_equal
  input_index ← asset_index portfolio trade.trader_input_token
  output_index ← asset_index portfolio trade.trader_output_token
  throw_if
      (is_missing (get_elem? portfolio.assets input_index)
        || is_missing (get_elem? portfolio.assets output_index))
      lookup_failed
  ok (input_index, output_index)

-- The value of the asset at an index, after `added` at the input and `taken` at the output.
unfoldable pub shift_value : (input output added taken index value : ℕ) → Result Error ℕ
shift_value input output added taken index value =
    if index == input
    then checked_add value added
    else if index == output
    then checked_sub value taken
    else ok value

-- The `map` over the assets, from an index on.
unfoldable pub shift_assets :
    (input output added taken index : ℕ) → List AssetValuation → Result Error (List AssetValuation)
shift_assets input output added taken index [] = ok []
shift_assets input output added taken index (asset ∷ rest) = do
  value ← shift_value input output added taken index asset.value
  others ← shift_assets input output added taken (suc index) rest
  ok (record asset { value = value } ∷ others)

-- Past the test for a trade of zero.
unfoldable pub move_value : PortfolioValuation → ValueTrade → ℕ → Result Error PortfolioValuation
move_value portfolio trade value = do
  i ← trade_indices portfolio trade
  updated ← shift_assets i.0 i.1 value value 0 portfolio.assets
  valued ← weigh_assets portfolio.nav updated
  ok (record portfolio { assets = valued })

unfoldable pub apply_trade : PortfolioValuation → ValueTrade → Result Error PortfolioValuation
apply_trade portfolio trade = do
  value ← to_uint256 trade.value
  if value == 0 then ok portfolio else move_value portfolio trade value

-- The three amounts of a fee distribution that a trade reads.
pub record TradeFees : Type 0 where
  pub total_fee_amount : ℕ
  pub solver_amount : ℕ
  pub protocol_amount : ℕ

unfoldable pub move_value_after_fees :
    PortfolioValuation → ValueTrade → TradeFees → ℕ → Result Error PortfolioValuation
move_value_after_fees portfolio trade fees value = do
  i ← trade_indices portfolio trade
  external_fees ← checked_add fees.solver_amount fees.protocol_amount
  throw_if (ltb value fees.total_fee_amount) fee_exceeds_output
  throw_if (ltb value external_fees) fee_exceeds_output
  let trader_output_value = value - fees.total_fee_amount
  leaving ← checked_add trader_output_value external_fees
  updated ← shift_assets i.0 i.1 value leaving 0 portfolio.assets
  nav ← total_value 0 updated
  throw_if (nav == 0) nav_not_positive
  valued ← weigh_assets nav updated
  ok (record portfolio { nav = nav; assets = valued })

unfoldable pub apply_fee_inclusive_trade :
    PortfolioValuation → ValueTrade → TradeFees → Result Error PortfolioValuation
apply_fee_inclusive_trade portfolio trade fees = do
  value ← to_uint256 trade.value
  if value == 0 then ok portfolio else move_value_after_fees portfolio trade fees value
