-- ===== src/Financial/Asset/Tests.antt =====
-- Runs of the amount adjustment of packages/shared/src/financial.ts.
use aurka.Prelude.{ℕ, ◌≡◌, refl, ok}
use aurka.Prelude.Int.{pos}
use aurka.Financial.Integer.{bigint, int, to_uint256}
use aurka.Financial.Checked.{checked_mul, ceil_div, scale10}
use aurka.Financial.Asset.{
  AssetRate, AssetAmountAdjustment, value_fraction, calculate_asset_value,
  calculate_asset_value_exact, calculate_asset_amount_increment, adjust_asset_amount_down,
}
use aurka.Financial.Asset.Gcd.{greatest_common_divisor}
use aurka.Financial.Asset.Rounding.{AreRounded, calculate_asset_value-AreRounded}
use aurka.Financial.Asset.Laws.{IsExactAdjustment, adjust_asset_amount_down-IsExactAdjustment}

-- A token of one decimal at a price of 4: five raw units are worth two.
abbrev rate : AssetRate
rate = record { decimals = int (pos 1); price = bigint (pos 4); price_decimals = int (pos 0) }

abbrev adjusted : AssetAmountAdjustment
adjusted = record { requested_amount = 13; supported_amount = 10; remainder = 3; increment = 5 }

adjust_asset_amount_down_run :
    adjust_asset_amount_down (bigint (pos 13)) rate (int (pos 0)) ≡ ok adjusted
unfolding adjust_asset_amount_down calculate_asset_amount_increment greatest_common_divisor
    to_uint256 scale10 checked_mul
adjust_asset_amount_down_run = refl

supported_amount_run :
    calculate_asset_value_exact (record { rate = rate; balance = bigint (pos 10) }) (int (pos 0))
    ≡ ok 4
unfolding calculate_asset_value_exact value_fraction to_uint256 scale10 checked_mul
supported_amount_run = refl

adjust_asset_amount_down-IsExactAdjustment_example :
    (n : ℕ) × (to_uint256 (bigint (pos 13)) ≡ ok n)
    × IsExactAdjustment n rate (int (pos 0)) adjusted
adjust_asset_amount_down-IsExactAdjustment_example =
    adjust_asset_amount_down-IsExactAdjustment (bigint (pos 13)) rate (int (pos 0))
      adjust_asset_amount_down_run

calculate_asset_value_run :
    calculate_asset_value (record { rate = rate; balance = bigint (pos 13) }) (int (pos 0)) ≡ ok 6
unfolding calculate_asset_value value_fraction to_uint256 scale10 checked_mul ceil_div
calculate_asset_value_run = refl

calculate_asset_value-AreRounded_example :
    AreRounded (record { rate = rate; balance = bigint (pos 13) }) (int (pos 0)) 6
calculate_asset_value-AreRounded_example =
    calculate_asset_value-AreRounded (record { rate = rate; balance = bigint (pos 13) })
      (int (pos 0)) calculate_asset_value_run
