-- ===== src/Watchtower/Evaluation/Tests.antt =====
-- Runs of the model of packages/agents/watchtower/src/index.ts, and its theorems at those inputs.
use aurka.Prelude.{◌≡◌, refl, false, ◌||◌, ok, [], ◌∷◌, length, All}
use aurka.Prelude.Text.{text_eq, lower_case, codes}
use aurka.Watchtower.{cautious, shock, risk_mode_rank, same_mode, BoundSet}
use aurka.Watchtower.Observation.{
  has_text, add_text, metric_triggers, some_in, assets_overlap, is_canonical_hash,
  observation_invalid, filter_valid,
}
use aurka.Watchtower.Observation.Validity.{IsAcceptable, AreFresh}
use aurka.Watchtower.Triggers.Laws.{any_evidence, trigger_observations-sources}
use aurka.Watchtower.Triggers.{
  no_triggers, sources_of, reason_of, add_trigger, threshold_value, reaches_value, applies,
  trigger_mode, trigger_modes, trigger_thresholds, trigger_observations, triggered_mode,
  sources_where, missing_coverage, recovery_sources,
}
use aurka.Watchtower.Bounds.{
  find_bound_set, selected_bound_set, bound_of, expected_maximum, tighten_bound, tighten_bounds,
  validate_tightening, within_cautious, check_shock_bounds, check_shock,
}
use aurka.Watchtower.Bounds.Laws.{IsTightened}
use aurka.Watchtower.Evaluation.{
  WatchtowerEvaluation, is_valid_bound, are_valid_bounds, are_valid_sets, has_mode,
  is_valid_configuration, mode_before, cooldown_complete, is_fail_safe, recover, desired_mode,
  least_block, indexed_through, default_reason, evaluation_reason, evaluation_of, evaluate_risk,
  triggers_of,
}
use aurka.Watchtower.Evaluation.Tightening.{
  IsTighteningMode, HasQuorum, evidence, evaluate_risk_complete, triggered_mode-HasQuorum,
  evaluate_risk-IsTighteningMode, evaluate_risk-IsTightened,
}
use aurka.Watchtower.Evaluation.Samples.{bound, input, after_shock, fallen}

pub fall_run : evaluate_risk input ≡ ok fallen
unfolding evaluate_risk is_valid_configuration are_valid_sets are_valid_bounds is_valid_bound
    has_mode same_mode evaluation_of selected_bound_set find_bound_set desired_mode recover
    is_fail_safe missing_coverage sources_where filter_valid has_text observation_invalid lower_case
    text_eq bound_of check_shock check_shock_bounds expected_maximum tighten_bound tighten_bounds
    validate_tightening within_cautious cooldown_complete default_reason evaluation_reason
    indexed_through least_block mode_before add_text assets_overlap is_canonical_hash
    metric_triggers some_in add_trigger applies reaches_value reason_of recovery_sources sources_of
    threshold_value trigger_mode trigger_modes trigger_observations trigger_thresholds
    triggered_mode risk_mode_rank
fall_run = refl

-- One calm source is no recovery quorum: the mode stays SHOCK.
abbrev still_shocked : WatchtowerEvaluation
still_shocked = record {
  version = codes "v1";
  mode = shock;
  reason_code = codes "RECOVERY_SHOCK";
  selected_bounds = bound 2000 10000 ∷ [];
  maximum_trade_value = 400;
  evaluated_at = 1010;
  indexed_through_block = 99;
  previous_mode = shock;
  valid_observation_count = 1;
  source_count = 1;
  fail_safe = false;
}

after_shock_run : evaluate_risk after_shock ≡ ok still_shocked
unfolding evaluate_risk is_valid_configuration are_valid_sets are_valid_bounds is_valid_bound
    has_mode same_mode evaluation_of selected_bound_set find_bound_set desired_mode recover
    is_fail_safe missing_coverage sources_where filter_valid has_text observation_invalid lower_case
    text_eq bound_of check_shock check_shock_bounds expected_maximum tighten_bound tighten_bounds
    validate_tightening within_cautious cooldown_complete default_reason evaluation_reason
    indexed_through least_block mode_before add_text assets_overlap is_canonical_hash
    metric_triggers some_in add_trigger applies reaches_value reason_of recovery_sources sources_of
    threshold_value trigger_mode trigger_modes trigger_observations trigger_thresholds
    triggered_mode risk_mode_rank
after_shock_run = refl

evaluate_risk-IsTighteningMode_example :
    (still_shocked.previous_mode ≡ mode_before after_shock.current_state)
    × (still_shocked.fail_safe ≡ is_fail_safe after_shock (evidence after_shock))
    × IsTighteningMode after_shock
        (evidence after_shock)
        (triggers_of after_shock (evidence after_shock))
        still_shocked.mode
evaluate_risk-IsTighteningMode_example = evaluate_risk-IsTighteningMode after_shock after_shock_run

evaluate_risk-IsTightened_example :
    (selected : BoundSet) × (selected_bound_set input.configuration cautious ≡ ok selected)
    × IsTightened cautious selected.active_bounds input.hard_bounds 750 1000 (bound 1000 10000 ∷ [])
evaluate_risk-IsTightened_example = evaluate_risk-IsTightened input fall_run

evaluate_risk_complete_example :
    (input.source_failures ≡ [])
    × (missing_coverage 1 input.observations input.configuration.thresholds ≡ false)
    × All (IsAcceptable input) input.observations
    × AreFresh [] input.observations
    × (2 ≡ length input.observations)
evaluate_risk_complete_example = evaluate_risk_complete input fall_run refl

trigger_observations-sources_example :
    has_text
      (sources_of cautious
        (trigger_observations input.observations input.configuration.thresholds no_triggers))
      (codes "dex")
    ≡ (any_evidence cautious (codes "dex") input.configuration.thresholds input.observations
        || has_text (sources_of cautious no_triggers) (codes "dex"))
trigger_observations-sources_example =
    trigger_observations-sources cautious input.observations input.configuration.thresholds
      no_triggers (codes "dex")

triggered_mode-HasQuorum_example :
    HasQuorum 1
      (trigger_observations input.observations input.configuration.thresholds no_triggers)
      (triggered_mode 1
        (trigger_observations input.observations input.configuration.thresholds no_triggers))
triggered_mode-HasQuorum_example =
    triggered_mode-HasQuorum 1
      (trigger_observations input.observations input.configuration.thresholds no_triggers)
