-- ===== src/Watchtower/Triggers.antt =====
-- packages/agents/watchtower/src/index.ts: the sources whose evidence triggers each mode.
pub mod Laws
use aurka.Prelude.{
  ℕ, Bool, true, false, ◌&&◌, List, [], ◌∷◌, Option, none, some, not, ltb, leb, if◌then◌else◌,
  length, ◌||◌,
}
use aurka.Prelude.Int.{ℤ}
use aurka.Prelude.Text.{Text}
use aurka.Watchtower.{
  RiskMode, normal, cautious, shock, paused, same_signal, WatchtowerObservation, Threshold,
}
use aurka.Watchtower.Observation.{has_text, add_text, metric_triggers, assets_overlap}

-- The two maps, from a mode to its sources and to its last reason code.
pub record Triggers : Type 0 where
  pub cautious_sources : List Text
  pub shock_sources : List Text
  pub paused_sources : List Text
  pub cautious_reason : Option Text
  pub shock_reason : Option Text
  pub paused_reason : Option Text

abbrev pub no_triggers : Triggers
no_triggers = record {
  cautious_sources = [];
  shock_sources = [];
  paused_sources = [];
  cautious_reason = none;
  shock_reason = none;
  paused_reason = none;
}

-- triggered.get(mode) ?? new Set()
unfoldable pub sources_of : RiskMode → Triggers → List Text
sources_of normal t = []
sources_of cautious t = t.cautious_sources
sources_of shock t = t.shock_sources
sources_of paused t = t.paused_sources

unfoldable pub reason_of : RiskMode → Triggers → Option Text
reason_of normal t = none
reason_of cautious t = t.cautious_reason
reason_of shock t = t.shock_reason
reason_of paused t = t.paused_reason

-- Both `set` calls.
unfoldable pub add_trigger : RiskMode → (source reason : Text) → Triggers → Triggers
add_trigger normal source reason t = t
add_trigger cautious source reason t = record t {
  cautious_sources = add_text source t.cautious_sources;
  cautious_reason = some reason;
}
add_trigger shock source reason t = record t {
  shock_sources = add_text source t.shock_sources;
  shock_reason = some reason;
}
add_trigger paused source reason t = record t {
  paused_sources = add_text source t.paused_sources;
  paused_reason = some reason;
}

unfoldable pub threshold_value : RiskMode → Threshold → Option ℤ
threshold_value normal threshold = none
threshold_value cautious threshold = threshold.cautious_at
threshold_value shock threshold = threshold.shock_at
threshold_value paused threshold = threshold.pause_at

-- value !== undefined && metricTriggers(metric, value)
unfoldable pub reaches_value : Option ℤ → ℤ → Bool
reaches_value none metric = false
reaches_value (some value) metric = metric_triggers metric value

unfoldable pub applies : Threshold → WatchtowerObservation → Bool
applies threshold observation =
    same_signal threshold.signal observation.signal
    && assets_overlap threshold.affected_assets observation.affected_assets

-- One round of the loop over the modes.
unfoldable pub trigger_mode : RiskMode → WatchtowerObservation → Threshold → Triggers → Triggers
trigger_mode mode observation threshold t =
    if applies threshold observation
      && reaches_value (threshold_value mode threshold) observation.metric_value
    then add_trigger mode observation.source_id threshold.reason_code t
    else t

-- The loop over the three modes; where the threshold does not apply, none of them does.
unfoldable pub trigger_modes : WatchtowerObservation → Threshold → Triggers → Triggers
trigger_modes observation threshold t =
    trigger_mode paused observation threshold
      (trigger_mode shock observation threshold (trigger_mode cautious observation threshold t))

unfoldable pub trigger_thresholds : WatchtowerObservation → List Threshold → Triggers → Triggers
trigger_thresholds observation [] t = t
trigger_thresholds observation (threshold ∷ rest) t =
    trigger_thresholds observation rest (trigger_modes observation threshold t)

unfoldable pub trigger_observations :
    List WatchtowerObservation → List Threshold → Triggers → Triggers
trigger_observations [] thresholds t = t
trigger_observations (observation ∷ rest) thresholds t =
    trigger_observations rest thresholds (trigger_thresholds observation thresholds t)

abbrev pub escalate : ℕ → RiskMode → Triggers → RiskMode → RiskMode
escalate required_quorum mode t desired =
    if leb required_quorum (length (sources_of mode t)) then mode else desired

-- The loop over the modes, from the mildest on.
unfoldable pub triggered_mode : ℕ → Triggers → RiskMode
triggered_mode required_quorum t =
    escalate required_quorum paused t
      (escalate required_quorum shock t (escalate required_quorum cautious t normal))

-- The set of sources of the observations that pass a test.
unfoldable pub sources_where :
    (WatchtowerObservation → Bool) → List WatchtowerObservation → List Text
sources_where test [] = []
sources_where test (observation ∷ rest) =
    let later = sources_where test rest in
    if test observation then add_text observation.source_id later else later

unfoldable pub missing_coverage : ℕ → List WatchtowerObservation → List Threshold → Bool
missing_coverage required_quorum valid [] = false
missing_coverage required_quorum valid (threshold ∷ rest) =
    ltb (length (sources_where (applies threshold) valid)) required_quorum
    || missing_coverage required_quorum valid rest

-- [...triggered.values()].some((set) => set.has(source))
abbrev pub has_triggered : Triggers → Text → Bool
has_triggered t source =
    has_text t.cautious_sources source
    || has_text t.shock_sources source
    || has_text t.paused_sources source

unfoldable pub recovery_sources : Triggers → List WatchtowerObservation → List Text
recovery_sources t valid = sources_where (λ o. not (has_triggered t o.source_id)) valid
