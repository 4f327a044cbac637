-- ===== src/Financial/Samples.antt =====
-- A portfolio of two assets and a policy for it, for the tests.
use aurka.Prelude.{[], ◌∷◌, none, some}
use aurka.Prelude.Int.{pos}
use aurka.Prelude.Text.{Text, codes}
use aurka.Financial.Integer.{bigint, text, int, number}
use aurka.Financial.Policy.{FinancialPolicy}
use aurka.Financial.Portfolio.{FinancialAssetInput, AssetValuation, PortfolioValuation}
use aurka.Financial.SafeFill.{FillRequest}
use aurka.Financial.Trade.{ValueTrade, TradeFees}
use aurka.Financial.Capacity.{DirectionalCapacityState}
use aurka.Financial.Fees.{FeeDistributionInput}

abbrev pub usdc : Text
usdc = codes "0xA1"

abbrev pub weth : Text
weth = codes "0xb2"

-- 500 whole tokens at a price of 1, with no decimals.
abbrev pub usdc_input : FinancialAssetInput
usdc_input = record {
  holding = record {
    rate = record { decimals = int (pos 0); price = bigint (pos 1); price_decimals = int (pos 0) };
    balance = text (codes "500");
  };
  token = usdc;
  symbol = none;
  minimum_weight_bps = number (int (pos 4000));
  maximum_weight_bps = number (int (pos 6000));
}

-- 2 whole tokens of one decimal at a price of 250.
abbrev pub weth_input : FinancialAssetInput
weth_input = record {
  holding = record {
    rate = record {
      decimals = int (pos 1);
      price = bigint (pos 250);
      price_decimals = int (pos 0);
    };
    balance = bigint (pos 20);
  };
  token = weth;
  symbol = some (codes "WETH");
  minimum_weight_bps = number (int (pos 4000));
  maximum_weight_bps = number (int (pos 6000));
}

abbrev pub usdc_asset : AssetValuation
usdc_asset = record {
  token = usdc;
  symbol = none;
  balance = 500;
  decimals = int (pos 0);
  price = 1;
  price_decimals = int (pos 0);
  value = 500;
  weight_bps = 5000;
  minimum_weight_bps = 4000;
  maximum_weight_bps = 6000;
}

abbrev pub weth_asset : AssetValuation
weth_asset = record {
  token = weth;
  symbol = some (codes "WETH");
  balance = 20;
  decimals = int (pos 1);
  price = 250;
  price_decimals = int (pos 0);
  value = 500;
  weight_bps = 5000;
  minimum_weight_bps = 4000;
  maximum_weight_bps = 6000;
}

abbrev pub portfolio : PortfolioValuation
portfolio = record {
  value_decimals = int (pos 0);
  nav = 1000;
  assets = usdc_asset ∷ weth_asset ∷ [];
}

abbrev pub policy : FinancialPolicy
policy = record {
  maximum_transaction_value = bigint (pos 1000);
  assets =
      record {
        token = usdc;
        minimum_weight_bps = number (int (pos 4000));
        maximum_weight_bps = number (int (pos 6000));
      }
      ∷ record {
        token = weth;
        minimum_weight_bps = number (int (pos 4000));
        maximum_weight_bps = number (int (pos 6000));
      }
      ∷ [];
}

abbrev pub fill_request : FillRequest
fill_request = record {
  trader_input_token = usdc;
  trader_output_token = weth;
  requested = bigint (pos 300);
}

abbrev pub trade : ValueTrade
trade = record { trader_input_token = usdc; trader_output_token = weth; value = bigint (pos 100) }

abbrev pub fees : TradeFees
fees = record { total_fee_amount = 5; solver_amount = 1; protocol_amount = 1 }

abbrev pub epoch_state : DirectionalCapacityState
epoch_state = record {
  capacity_baseline_value = bigint (pos 100);
  consumed_value = bigint (pos 30);
  capacity_epoch_id = none;
}

abbrev pub fee_input : FeeDistributionInput
fee_input = record {
  trade_value = bigint (pos 1000);
  base_fee_bps = number (int (pos 30));
  treasury_base_fee_bps = number (int (pos 20));
  solver_fee_bps = number (int (pos 5));
  protocol_fee_bps = number (int (pos 5));
  slope_bps = number (int (pos 50));
  maximum_fee_bps = none;
  utilization_before = bigint (pos 0);
  utilization_after = text (codes "500000000000000000");
}
