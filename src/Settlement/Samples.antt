-- ===== src/Settlement/Samples.antt =====
-- A settlement of the sample portfolio with its epoch and its prices, for the tests.
use aurka.Prelude.{ℕ, List, [], ◌∷◌, ◌++◌}
use aurka.Prelude.Int.{pos}
use aurka.Prelude.Text.{Text, codes}
use aurka.Financial.Samples.{usdc, weth, portfolio, policy}
use aurka.Financial.Integer.{bigint, int, number}
use aurka.Price.{PriceSnapshot, SettlementPriceProtection}
use aurka.Epoch.{CapacityEpoch}
use aurka.Settlement.{FinancialFeeConfig, FeeAccounting, DirectSettlementInput}

-- A stand-in for the hash: always the same 32 bytes.
abbrev pub constant_hash : List ℕ → List ℕ
constant_hash bytes =
    let eight = 171 ∷ 171 ∷ 171 ∷ 171 ∷ 171 ∷ 171 ∷ 171 ∷ 171 ∷ [] in
    eight ++ (eight ++ (eight ++ eight))

abbrev pub ab_bytes32 : Text
ab_bytes32 = codes "0xABababababababababababababababababababababababababababababababab"

abbrev pub contract : Text
contract = codes "0x00000000000000000000000000000000000000Cc"

abbrev pub epoch : CapacityEpoch
epoch = record {
  position_id = codes "position";
  trader_input_token = usdc;
  trader_output_token = weth;
  balance_snapshot = ab_bytes32;
  price_snapshot = ab_bytes32;
  portfolio_price_snapshot = ab_bytes32;
  policy_nonce = bigint (pos 1);
  risk_certificate_hash = ab_bytes32;
  aqua_strategy_hash = ab_bytes32;
  capacity_baseline_value = bigint (pos 200);
  consumed_before = bigint (pos 30);
  chain_id = bigint (pos 1);
  verifying_contract = contract;
}

abbrev pub usdc_price : PriceSnapshot
usdc_price = record {
  snapshot_id = ab_bytes32;
  token = usdc;
  price = bigint (pos 1);
  price_decimals = int (pos 0);
  observed_at = int (pos 1000);
}

abbrev pub weth_price : PriceSnapshot
weth_price = record {
  snapshot_id = ab_bytes32;
  token = weth;
  price = bigint (pos 250);
  price_decimals = int (pos 0);
  observed_at = int (pos 990);
}

abbrev pub protection : SettlementPriceProtection
protection = record {
  trader_input_reference_price = usdc_price;
  trader_input_execution_price = usdc_price;
  trader_output_reference_price = weth_price;
  trader_output_execution_price = record weth_price { price = bigint (pos 251) };
  approved_trader_input_snapshot_id = ab_bytes32;
  approved_trader_output_snapshot_id = ab_bytes32;
  trader_input_amount = bigint (pos 498);
  trader_output_amount = bigint (pos 20);
  trader_input_decimals = int (pos 0);
  trader_output_decimals = int (pos 1);
  value_decimals = int (pos 0);
  now_seconds = int (pos 1010);
  maximum_price_age_seconds = int (pos 60);
  maximum_price_deviation_bps = number (int (pos 100));
}

abbrev pub fee_config : FinancialFeeConfig
fee_config = record {
  base_fee_bps = number (int (pos 30));
  slope_bps = number (int (pos 50));
  maximum_fee_bps = number (int (pos 100));
  treasury_base_fee_bps = number (int (pos 20));
  solver_fee_bps = number (int (pos 5));
  protocol_fee_bps = number (int (pos 5));
}

abbrev pub accounting : FeeAccounting
accounting = record {
  fee_token = weth;
  fee_payment_mode = codes "OUTPUT_TOKEN";
  treasury_recipient = contract;
  solver_recipient = contract;
  protocol_recipient = contract;
}

abbrev pub settlement : DirectSettlementInput
settlement = record {
  portfolio = portfolio;
  policy = policy;
  fee = fee_config;
  fee_accounting = accounting;
  trader_input_token = usdc;
  trader_output_token = weth;
  requested_value = bigint (pos 300);
  capacity_baseline_value = bigint (pos 200);
  consumed_before = bigint (pos 30);
  capacity_epoch_id = ab_bytes32;
  capacity_epoch = epoch;
  price_protection = protection;
}
