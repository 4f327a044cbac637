-- ===== src/Watchtower.antt =====
-- packages/agents/watchtower/src/index.ts: the evaluation of risk evidence. This file holds the
-- parsed data of its schemas: a decimal string is the number that it denotes.
pub mod Observation
pub mod Triggers
pub mod Bounds
pub mod Evaluation
use aurka.Prelude.{ℕ, Bool, true, false, List, Option, ◌==◌}
use aurka.Prelude.Int.{ℤ}
use aurka.Prelude.Text.{Text}

pub data RiskMode : Type 0 where
  normal : RiskMode
  cautious : RiskMode
  shock : RiskMode
  paused : RiskMode

unfoldable pub risk_mode_rank : RiskMode → ℕ
risk_mode_rank normal = 0
risk_mode_rank cautious = 1
risk_mode_rank shock = 2
risk_mode_rank paused = 3

unfoldable pub same_mode : RiskMode → RiskMode → Bool
unfolding risk_mode_rank
same_mode a b = risk_mode_rank a == risk_mode_rank b

pub data Signal : Type 0 where
  dex_liquidity : Signal
  dex_volume : Signal
  directional_flow : Signal
  aurka_executions : Signal
  aurka_reverts : Signal
  boundary_pressure : Signal

abbrev pub signal_number : Signal → ℕ
signal_number dex_liquidity = 0
signal_number dex_volume = 1
signal_number directional_flow = 2
signal_number aurka_executions = 3
signal_number aurka_reverts = 4
signal_number boundary_pressure = 5

abbrev pub same_signal : Signal → Signal → Bool
same_signal a b = signal_number a == signal_number b

pub data Finality : Type 0 where
  final : Finality
  safe : Finality
  unfinalized : Finality

-- The fields that the evaluation reads; the others enter its digest only.
pub record WatchtowerObservation : Type 0 where
  pub id : Text
  pub source_id : Text
  pub chain_id : ℕ
  pub deployment_id : Text
  pub signal : Signal
  pub metric_value : ℤ
  pub sample_size : ℕ
  pub affected_assets : List Text
  pub indexed_block : ℕ
  pub indexed_block_hash : Text
  pub observed_at : ℕ
  pub retrieved_at : ℕ
  pub finality : Finality

pub record WatchtowerBound : Type 0 where
  pub token : Text
  pub minimum_weight_bps : ℕ
  pub maximum_weight_bps : ℕ
  pub paused : Bool

pub record Threshold : Type 0 where
  pub signal : Signal
  pub cautious_at : Option ℤ
  pub shock_at : Option ℤ
  pub pause_at : Option ℤ
  pub affected_assets : List Text
  pub reason_code : Text

pub record BoundSet : Type 0 where
  pub mode : RiskMode
  pub maximum_trade_value : ℕ
  pub active_bounds : List WatchtowerBound

pub record WatchtowerConfiguration : Type 0 where
  pub version : Text
  pub max_observation_age_seconds : ℕ
  pub max_indexed_lag_blocks : ℕ
  pub minimum_sample_size : ℕ
  pub required_quorum : ℕ
  pub fail_safe_mode : RiskMode
  pub recovery_quorum : ℕ
  pub cooldown_seconds : ℕ
  pub thresholds : List Threshold
  pub bound_sets : List BoundSet

-- The fields of the current state that the evaluation reads.
pub record WatchtowerState : Type 0 where
  pub mode : RiskMode
  pub changed_at : ℕ
  pub cooldown_until : ℕ

-- `canonicalBlockHashes` is keyed by the decimal string of a block number.
pub record EvaluateRiskInput : Type 0 where
  pub observations : List WatchtowerObservation
  pub source_failures : List Text
  pub configuration : WatchtowerConfiguration
  pub hard_maximum_trade_value : ℕ
  pub hard_bounds : List WatchtowerBound
  pub chain_id : ℕ
  pub deployment_id : Text
  pub canonical_block : ℕ
  pub canonical_block_hashes : ℕ → Option Text
  pub now_seconds : ℕ
  pub current_state : Option WatchtowerState

-- The errors that the evaluation throws.
pub data RiskError : Type 0 where
  invalid_configuration : RiskError
  invalid_bound : RiskError
  missing_bound_set : RiskError
  cap_not_governance_ratio : RiskError
  cap_widened : RiskError
  paused_capacity : RiskError
  bound_omitted : RiskError
  bounds_widened : RiskError
  no_valid_portfolio : RiskError
  shock_widens_cautious : RiskError
