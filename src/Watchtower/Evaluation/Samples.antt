-- ===== src/Watchtower/Evaluation/Samples.antt =====
-- A configuration, two observations and an input, for the tests.
use aurka.Prelude.{ℕ, [], ◌∷◌, Option, none, some, false}
use aurka.Prelude.Int.{pos, negsuc}
use aurka.Prelude.Text.{Text, codes}
use aurka.Watchtower.Evaluation.{WatchtowerEvaluation}
use aurka.Watchtower.{
  RiskMode, normal, cautious, shock, paused, dex_liquidity, final, WatchtowerObservation,
  WatchtowerBound, BoundSet, WatchtowerConfiguration, EvaluateRiskInput,
}

abbrev pub hash : Text
hash = codes "0xAB"

-- Liquidity fell by 15, as one source saw it.
abbrev pub fall_seen : WatchtowerObservation
fall_seen = record {
  id = codes "1";
  source_id = codes "dex";
  chain_id = 1;
  deployment_id = codes "main";
  signal = dex_liquidity;
  metric_value = negsuc 14;
  sample_size = 9;
  affected_assets = [];
  indexed_block = 99;
  indexed_block_hash = codes "0xab";
  observed_at = 1000;
  retrieved_at = 1001;
  finality = final;
}

abbrev pub calm_seen : WatchtowerObservation
calm_seen = record fall_seen { source_id = codes "graph"; metric_value = pos 3 }

abbrev pub bound : ℕ → ℕ → WatchtowerBound
bound minimum maximum = record {
  token = codes "0xA100000000000000000000000000000000000000";
  minimum_weight_bps = minimum;
  maximum_weight_bps = maximum;
  paused = false;
}

abbrev pub bound_set : RiskMode → ℕ → ℕ → ℕ → BoundSet
bound_set mode cap minimum maximum = record {
  mode = mode;
  maximum_trade_value = cap;
  active_bounds = bound minimum maximum ∷ [];
}

abbrev pub configuration : WatchtowerConfiguration
configuration = record {
  version = codes "v1";
  max_observation_age_seconds = 60;
  max_indexed_lag_blocks = 5;
  minimum_sample_size = 3;
  required_quorum = 1;
  fail_safe_mode = cautious;
  recovery_quorum = 2;
  cooldown_seconds = 300;
  thresholds =
      record {
        signal = dex_liquidity;
        cautious_at = some (negsuc 9);
        shock_at = some (negsuc 19);
        pause_at = none;
        affected_assets = [];
        reason_code = codes "LIQUIDITY";
      }
      ∷ [];
  bound_sets =
      bound_set normal 1000 0 10000
      ∷ bound_set cautious 750 1000 10000
      ∷ bound_set shock 400 2000 10000
      ∷ bound_set paused 0 0 0
      ∷ [];
}

abbrev pub block_hashes : ℕ → Option Text
block_hashes n = some hash

abbrev pub input : EvaluateRiskInput
input = record {
  observations = fall_seen ∷ calm_seen ∷ [];
  source_failures = [];
  configuration = configuration;
  hard_maximum_trade_value = 1000;
  hard_bounds = bound 0 10000 ∷ [];
  chain_id = 1;
  deployment_id = codes "main";
  canonical_block = 100;
  canonical_block_hashes = block_hashes;
  now_seconds = 1010;
  current_state = none;
}

-- Calm evidence of one source, after a shock.
abbrev pub after_shock : EvaluateRiskInput
after_shock = record input {
  observations = calm_seen ∷ [];
  current_state = some (record { mode = shock; changed_at = 900; cooldown_until = 1000 });
}

abbrev pub fallen : WatchtowerEvaluation
fallen = record {
  version = codes "v1";
  mode = cautious;
  reason_code = codes "LIQUIDITY";
  selected_bounds = bound 1000 10000 ∷ [];
  maximum_trade_value = 750;
  evaluated_at = 1010;
  indexed_through_block = 99;
  previous_mode = normal;
  valid_observation_count = 2;
  source_count = 2;
  fail_safe = false;
}
