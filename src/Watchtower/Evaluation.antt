-- ===== src/Watchtower/Evaluation.antt =====
-- packages/agents/watchtower/src/index.ts: `evaluateRisk`. Of its result the evidence summary, the
-- affected assets and the two hashes are left out: they are computed from the rest.
pub mod Tightening
pub mod Samples
pub mod Tests
use aurka.Prelude.{
  ℕ, ◌+◌, Bool, true, false, ◌&&◌, ◌||◌, not, List, [], ◌∷◌, ◌++◌, Option, none, some, Result, ok,
  err, ◌>>=◌, ◌>>◌, throw_if, ltb, leb, ◌==◌, if◌then◌else◌, length,
}
use aurka.Prelude.Text.{Text, codes, lower_case}
use aurka.Watchtower.{
  RiskMode, normal, cautious, shock, paused, risk_mode_rank, same_mode, WatchtowerObservation,
  WatchtowerBound, BoundSet, WatchtowerConfiguration, WatchtowerState, EvaluateRiskInput, RiskError,
  invalid_configuration, invalid_bound,
}
use aurka.Watchtower.Observation.{has_text, add_text, Filtered, filter_valid}
use aurka.Watchtower.Triggers.{
  Triggers, no_triggers, reason_of, trigger_observations, triggered_mode, sources_where,
  missing_coverage, recovery_sources,
}
use aurka.Watchtower.Bounds.{selected_bound_set, validate_tightening, check_shock}

pub record WatchtowerEvaluation : Type 0 where
  pub version : Text
  pub mode : RiskMode
  pub reason_code : Text
  pub selected_bounds : List WatchtowerBound
  pub maximum_trade_value : ℕ
  pub evaluated_at : ℕ
  pub indexed_through_block : ℕ
  pub previous_mode : RiskMode
  pub valid_observation_count : ℕ
  pub source_count : ℕ
  pub fail_safe : Bool

-- `watchtowerBoundSchema`
unfoldable pub is_valid_bound : WatchtowerBound → Bool
is_valid_bound bound =
    leb bound.minimum_weight_bps 10000
    && leb bound.maximum_weight_bps 10000
    && leb bound.minimum_weight_bps bound.maximum_weight_bps

unfoldable pub are_valid_bounds : List WatchtowerBound → Bool
are_valid_bounds [] = true
are_valid_bounds (bound ∷ rest) = is_valid_bound bound && are_valid_bounds rest

unfoldable pub are_valid_sets : List BoundSet → Bool
are_valid_sets [] = true
are_valid_sets (set ∷ rest) = are_valid_bounds set.active_bounds && are_valid_sets rest

unfoldable pub has_mode : RiskMode → List BoundSet → Bool
has_mode mode [] = false
has_mode mode (set ∷ rest) = same_mode set.mode mode || has_mode mode rest

abbrev pub is_fail_safe_mode : RiskMode → Bool
is_fail_safe_mode normal = false
is_fail_safe_mode cautious = true
is_fail_safe_mode shock = false
is_fail_safe_mode paused = true

abbrev pub is_nonempty {ℓ} : {A : Type ℓ} → List A → Bool
is_nonempty [] = false
is_nonempty (x ∷ xs) = true

-- The tests of `watchtowerConfigurationSchema` that a parsed configuration can still fail, less
-- those of the single thresholds.
unfoldable pub is_valid_configuration : WatchtowerConfiguration → Bool
is_valid_configuration configuration =
    ltb 0 configuration.max_observation_age_seconds
    && ltb 0 configuration.required_quorum
    && leb configuration.required_quorum 100
    && is_fail_safe_mode configuration.fail_safe_mode
    && ltb 0 configuration.recovery_quorum
    && leb configuration.recovery_quorum 100
    && is_nonempty configuration.thresholds
    && (length configuration.bound_sets == 4)
    && are_valid_sets configuration.bound_sets
    && has_mode normal configuration.bound_sets
    && has_mode cautious configuration.bound_sets
    && has_mode shock configuration.bound_sets
    && has_mode paused configuration.bound_sets
    && leb configuration.required_quorum configuration.recovery_quorum

-- input.currentState?.mode ?? "NORMAL"
unfoldable pub mode_before : Option WatchtowerState → RiskMode
mode_before none = normal
mode_before (some state) = state.mode

unfoldable pub cooldown_complete : Option WatchtowerState → ℕ → Bool
cooldown_complete none now_seconds = true
cooldown_complete (some state) now_seconds = leb state.cooldown_until now_seconds

unfoldable pub is_fail_safe : EvaluateRiskInput → Filtered → Bool
is_fail_safe input filtered =
    is_nonempty input.source_failures
    || missing_coverage input.configuration.required_quorum filtered.valid
        input.configuration.thresholds
    || is_nonempty filtered.invalid_reasons

abbrev pub raise_to_fail_safe : (fail_safe : Bool) → (fail_safe_mode desired : RiskMode) → RiskMode
raise_to_fail_safe fail_safe fail_safe_mode desired =
    if fail_safe && ltb (risk_mode_rank desired) (risk_mode_rank fail_safe_mode)
    then fail_safe_mode
    else desired

-- A milder mode than the last needs complete evidence, a completed cooldown and the quorum.
unfoldable pub recover :
    EvaluateRiskInput
    → (fail_safe : Bool) → (recovering : ℕ) → (previous desired : RiskMode) → RiskMode
recover input fail_safe recovering previous desired =
    if ltb (risk_mode_rank desired) (risk_mode_rank previous)
    then (if not fail_safe
          && cooldown_complete input.current_state input.now_seconds
          && leb input.configuration.recovery_quorum recovering
        then desired
        else previous)
    else desired

-- The mode, from the accepted evidence.
unfoldable pub desired_mode : EvaluateRiskInput → Filtered → Triggers → RiskMode
desired_mode input filtered t =
    recover input (is_fail_safe input filtered) (length (recovery_sources t filtered.valid))
      (mode_before input.current_state)
      (raise_to_fail_safe (is_fail_safe input filtered) input.configuration.fail_safe_mode
        (triggered_mode input.configuration.required_quorum t))

-- The least indexed block of the valid observations, or 0.
unfoldable pub least_block : ℕ → List WatchtowerObservation → ℕ
least_block minimum [] = minimum
least_block minimum (observation ∷ rest) =
    least_block
      (if ltb observation.indexed_block minimum then observation.indexed_block else minimum) rest

unfoldable pub indexed_through : List WatchtowerObservation → ℕ
indexed_through [] = 0
indexed_through (observation ∷ rest) = least_block observation.indexed_block (observation ∷ rest)

abbrev pub mode_name : RiskMode → Text
mode_name normal = codes "NORMAL"
mode_name cautious = codes "CAUTIOUS"
mode_name shock = codes "SHOCK"
mode_name paused = codes "PAUSED"

unfoldable pub default_reason : RiskMode → Text
default_reason normal = codes "NORMAL_EVIDENCE"
default_reason cautious = codes "RECOVERY_" ++ mode_name cautious
default_reason shock = codes "RECOVERY_" ++ mode_name shock
default_reason paused = codes "RECOVERY_" ++ mode_name paused

abbrev pub or_text : Option Text → Text → Text
or_text none other = other
or_text (some t) other = t

unfoldable pub evaluation_reason :
    EvaluateRiskInput → (fail_safe : Bool) → RiskMode → Triggers → Text
evaluation_reason input fail_safe mode t =
    if fail_safe
    then codes "FAIL_SAFE_" ++ mode_name input.configuration.fail_safe_mode
    else or_text (reason_of mode t) (default_reason mode)

-- Past the choice of the mode.
unfoldable pub evaluation_of :
    EvaluateRiskInput → Filtered → Triggers → RiskMode → Result RiskError WatchtowerEvaluation
evaluation_of input filtered t mode = do
  selected ← selected_bound_set input.configuration mode
  check_shock input.configuration mode selected
  selected_bounds ←
      validate_tightening mode selected.active_bounds input.hard_bounds selected.maximum_trade_value
        input.hard_maximum_trade_value
  ok (record {
    version = input.configuration.version;
    mode = mode;
    reason_code = evaluation_reason input (is_fail_safe input filtered) mode t;
    selected_bounds = selected_bounds;
    maximum_trade_value = selected.maximum_trade_value;
    evaluated_at = input.now_seconds;
    indexed_through_block = indexed_through filtered.valid;
    previous_mode = mode_before input.current_state;
    valid_observation_count = length filtered.valid;
    source_count = length (sources_where (λ o. true) filtered.valid);
    fail_safe = is_fail_safe input filtered;
  })

abbrev pub triggers_of : EvaluateRiskInput → Filtered → Triggers
triggers_of input filtered =
    trigger_observations filtered.valid input.configuration.thresholds no_triggers

unfoldable pub evaluate_risk : EvaluateRiskInput → Result RiskError WatchtowerEvaluation
evaluate_risk input = do
  throw_if (not (is_valid_configuration input.configuration)) invalid_configuration
  throw_if (not (are_valid_bounds input.hard_bounds)) invalid_bound
  let filtered = filter_valid input [] input.observations
  let t = triggers_of input filtered
  evaluation_of input filtered t (desired_mode input filtered t)
