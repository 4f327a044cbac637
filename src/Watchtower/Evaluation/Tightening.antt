-- ===== src/Watchtower/Evaluation/Tightening.antt =====
-- Evidence only tightens: the mode of an evaluation against the last mode and the evidence, and its
-- bounds against the hard policy.
use aurka.Prelude.{
  ℕ, ◌≤◌, ◌≡◌, refl, sym, ◌∙◌, ap, subst, ◌⊎◌, inl, inr, Bool, true, false, ◌&&◌, ◌||◌, not, List,
  [], ◌∷◌, ok, arith, >>=-eq-ok, ok-injective, throw_if_inv, ltb, leb, length, Bool-cases, All,
}
use aurka.Watchtower.{
  RiskMode, normal, cautious, shock, paused, risk_mode_rank, BoundSet, EvaluateRiskInput,
  invalid_configuration, invalid_bound,
}
use aurka.Watchtower.Observation.{Filtered, filter_valid}
use aurka.Watchtower.Observation.Validity.{IsAcceptable, AreFresh, filter_valid-IsFiltered}
use aurka.Watchtower.Triggers.{
  Triggers, sources_of, escalate, triggered_mode, missing_coverage, recovery_sources,
}
use aurka.Watchtower.Bounds.{selected_bound_set, validate_tightening, check_shock}
use aurka.Watchtower.Bounds.Laws.{IsTightened, validate_tightening-IsTightened}
use aurka.Watchtower.Evaluation.{
  WatchtowerEvaluation, is_valid_configuration, are_valid_bounds, is_nonempty, mode_before,
  cooldown_complete, is_fail_safe, raise_to_fail_safe, recover, desired_mode, triggers_of,
  evaluation_of, evaluate_risk,
}

-- A mode with a quorum of sources bounds the triggered mode from below.
triggered_mode-ge :
    (quorum : ℕ) (t : Triggers) (m : RiskMode)
    → quorum ≤ length (sources_of m t)
    → risk_mode_rank m ≤ risk_mode_rank (triggered_mode quorum t)
unfolding triggered_mode risk_mode_rank
triggered_mode-ge quorum t normal h = omega arith
triggered_mode-ge quorum t cautious h = ground arith
triggered_mode-ge quorum t shock h = ground arith
triggered_mode-ge quorum t paused h = ground arith

abbrev pub HasQuorum : ℕ → Triggers → RiskMode → Type 0
HasQuorum quorum t m = (m ≡ normal) ⊎ (quorum ≤ length (sources_of m t))

escalate-HasQuorum :
    (quorum : ℕ) (m : RiskMode) (t : Triggers) (desired : RiskMode)
    → HasQuorum quorum t desired
    → HasQuorum quorum t (escalate quorum m t desired)
escalate-HasQuorum quorum m t desired h = elim (Bool-cases (leb quorum (length (sources_of m t)))) [
  | inl enough ↦ rw enough (inr (ground (arith, enough)))
  | inr few ↦ rw few h
]

-- The triggered mode is NORMAL or has a quorum of sources.
pub triggered_mode-HasQuorum :
    (quorum : ℕ) (t : Triggers) → HasQuorum quorum t (triggered_mode quorum t)
unfolding triggered_mode
triggered_mode-HasQuorum quorum t =
    escalate-HasQuorum quorum paused t _
      (escalate-HasQuorum quorum shock t _ (escalate-HasQuorum quorum cautious t normal (inl refl)))

raise-ge :
    (fail_safe : Bool) (floor desired : RiskMode)
    → (risk_mode_rank desired ≤ risk_mode_rank (raise_to_fail_safe fail_safe floor desired))
      × (fail_safe ≡ true
          → risk_mode_rank floor ≤ risk_mode_rank (raise_to_fail_safe fail_safe floor desired))
raise-ge true floor desired =
    elim (Bool-cases (ltb (risk_mode_rank desired) (risk_mode_rank floor))) [
      | inl below ↦ rw below (ground (arith, below), λ e. omega arith)
      | inr above ↦ rw above (omega arith, λ e. ground (arith, above))
    ]
raise-ge false floor desired = (omega arith, λ e. cc)

-- Recovery: complete evidence, a completed cooldown and a quorum of recovering sources.
pub record IsRecovery (input : EvaluateRiskInput) (fail_safe : Bool) (recovering : ℕ) : Type 0 where
  pub complete : fail_safe ≡ false
  pub cooled : cooldown_complete input.current_state input.now_seconds ≡ true
  pub quorum : input.configuration.recovery_quorum ≤ recovering

granted-IsRecovery :
    (input : EvaluateRiskInput) (fail_safe : Bool) (recovering : ℕ)
    → (not fail_safe
        && cooldown_complete input.current_state input.now_seconds
        && leb input.configuration.recovery_quorum recovering)
      ≡ true
    → IsRecovery input fail_safe recovering
granted-IsRecovery input fail_safe recovering h = record {
  complete = ground (arith, h);
  cooled = ground (arith, h);
  quorum = ground (arith, h);
}

recover-ge :
    (input : EvaluateRiskInput) (fail_safe : Bool) (recovering : ℕ) (previous desired : RiskMode)
    → (risk_mode_rank desired
        ≤ risk_mode_rank (recover input fail_safe recovering previous desired))
      × ((risk_mode_rank previous
            ≤ risk_mode_rank (recover input fail_safe recovering previous desired))
          ⊎ IsRecovery input fail_safe recovering)
unfolding recover
recover-ge input fail_safe recovering previous desired =
    let permit =
      not fail_safe
      && cooldown_complete input.current_state input.now_seconds
      && leb input.configuration.recovery_quorum recovering in
    elim (Bool-cases (ltb (risk_mode_rank desired) (risk_mode_rank previous))) [
      | inl milder ↦ elim (Bool-cases permit) [
        | inl granted ↦
            rw (milder, granted)
              (omega arith, inr (granted-IsRecovery input fail_safe recovering granted))
        | inr refused ↦ rw (milder, refused) (ground (arith, milder), inl (omega arith))
      ]
      | inr stricter ↦ rw stricter (omega arith, inl (ground (arith, stricter)))
    ]

-- What the mode promises, against the evidence that was accepted.
pub record IsTighteningMode (input : EvaluateRiskInput) (filtered : Filtered) (t : Triggers)
    (mode : RiskMode) : Type 0 where
  pub never_milder :
      (risk_mode_rank (mode_before input.current_state) ≤ risk_mode_rank mode)
      ⊎ IsRecovery input (is_fail_safe input filtered) (length (recovery_sources t filtered.valid))
  pub quorum_floor :
      (m : RiskMode)
      → input.configuration.required_quorum ≤ length (sources_of m t)
      → risk_mode_rank m ≤ risk_mode_rank mode
  pub fail_safe_floor :
      is_fail_safe input filtered ≡ true
      → risk_mode_rank input.configuration.fail_safe_mode ≤ risk_mode_rank mode

pub desired_mode-IsTighteningMode :
    (input : EvaluateRiskInput) (filtered : Filtered) (t : Triggers)
    → IsTighteningMode input filtered t (desired_mode input filtered t)
unfolding desired_mode
desired_mode-IsTighteningMode input filtered t =
    let quorum = input.configuration.required_quorum in
    let fail_safe = is_fail_safe input filtered in
    let floor = input.configuration.fail_safe_mode in
    let (raised, floored) = raise-ge fail_safe floor (triggered_mode quorum t) in
    let (kept, milder) =
      recover-ge input fail_safe (length (recovery_sources t filtered.valid))
        (mode_before input.current_state)
        (raise_to_fail_safe fail_safe floor (triggered_mode quorum t)) in
    record {
      never_milder = milder;
      quorum_floor = λ m h. omega (arith, triggered_mode-ge quorum t m h, raised, kept);
      fail_safe_floor = λ e. omega (arith, floored e, kept);
    }

-- The parts of a returned evaluation.
pub record IsEvaluation (input : EvaluateRiskInput) (filtered : Filtered) (t : Triggers)
    (mode : RiskMode) (ev : WatchtowerEvaluation) : Type 0 where
  pub mode_reads : ev.mode ≡ mode
  pub previous_reads : ev.previous_mode ≡ mode_before input.current_state
  pub fail_safe_reads : ev.fail_safe ≡ is_fail_safe input filtered
  pub count_reads : ev.valid_observation_count ≡ length filtered.valid
  pub selected : BoundSet
  pub selected_reads : selected_bound_set input.configuration mode ≡ ok selected
  pub shock_checked : check_shock input.configuration mode selected ≡ ok tt
  pub bounds :
      IsTightened mode selected.active_bounds input.hard_bounds ev.maximum_trade_value
        input.hard_maximum_trade_value ev.selected_bounds

evaluation_of-IsEvaluation :
    (input : EvaluateRiskInput) (filtered : Filtered) (t : Triggers) (mode : RiskMode)
    {ev : WatchtowerEvaluation}
    → evaluation_of input filtered t mode ≡ ok ev
    → IsEvaluation input filtered t mode ev
unfolding evaluation_of
evaluation_of-IsEvaluation input filtered t mode e =
    let (selected, es, e1) = >>=-eq-ok (selected_bound_set input.configuration mode) _ e in
    let (_, ec, e2) = >>=-eq-ok (check_shock input.configuration mode selected) _ e1 in
    let (bounds, eb, e3) =
      >>=-eq-ok
        (validate_tightening mode selected.active_bounds input.hard_bounds
          selected.maximum_trade_value input.hard_maximum_trade_value)
        _ e2 in
    subst (IsEvaluation input filtered t mode) (ok-injective e3) (record {
      mode_reads = refl;
      previous_reads = refl;
      fail_safe_reads = refl;
      count_reads = refl;
      selected = selected;
      selected_reads = es;
      shock_checked = ec;
      bounds = validate_tightening-IsTightened mode _ _ _ _ eb;
    })

-- The accepted evidence of an input.
abbrev pub evidence : EvaluateRiskInput → Filtered
evidence input = filter_valid input [] input.observations

evaluate_risk-IsEvaluation :
    (input : EvaluateRiskInput) {ev : WatchtowerEvaluation}
    → evaluate_risk input ≡ ok ev
    → IsEvaluation input
        (evidence input)
        (triggers_of input (evidence input))
        (desired_mode input (evidence input) (triggers_of input (evidence input)))
        ev
unfolding evaluate_risk
evaluate_risk-IsEvaluation input e =
    let (_, e1) =
      throw_if_inv (not (is_valid_configuration input.configuration)) invalid_configuration _ e in
    let (_, e2) = throw_if_inv (not (are_valid_bounds input.hard_bounds)) invalid_bound _ e1 in
    evaluation_of-IsEvaluation input (evidence input) (triggers_of input (evidence input)) _ e2

-- A returned evaluation never has a milder mode than the current state, unless the evidence is
-- complete, the cooldown is over and a recovery quorum of sources triggered nothing; its mode is at
-- least every mode that a quorum of sources triggers; and when it fails safe, at least the
-- configured fail-safe mode.
pub evaluate_risk-IsTighteningMode :
    (input : EvaluateRiskInput) {ev : WatchtowerEvaluation}
    → evaluate_risk input ≡ ok ev
    → (ev.previous_mode ≡ mode_before input.current_state)
      × (ev.fail_safe ≡ is_fail_safe input (evidence input))
      × IsTighteningMode input (evidence input) (triggers_of input (evidence input)) ev.mode
evaluate_risk-IsTighteningMode input {ev} e =
    let h = evaluate_risk-IsEvaluation input e in
    let f = evidence input in
    let t = triggers_of input f in
    (
      h.previous_reads,
      h.fail_safe_reads,
      subst (IsTighteningMode input f t) (sym h.mode_reads)
          (desired_mode-IsTighteningMode input f t),
    )

-- A returned evaluation has, for every hard bound in order, a bound of the same token inside it; its
-- cap is the hard cap's share for its mode and at most the hard cap; and unless it is paused its
-- bounds can hold a portfolio: the minimum weights add up to at most 10000 and the maximum weights
-- to at least 10000.
pub evaluate_risk-IsTightened :
    (input : EvaluateRiskInput) {ev : WatchtowerEvaluation}
    → evaluate_risk input ≡ ok ev
    → (selected : BoundSet) × (selected_bound_set input.configuration ev.mode ≡ ok selected)
      × IsTightened ev.mode selected.active_bounds input.hard_bounds ev.maximum_trade_value
          input.hard_maximum_trade_value ev.selected_bounds
evaluate_risk-IsTightened input {ev} e =
    let h = evaluate_risk-IsEvaluation input e in
    (
      h.selected,
      subst (λ m. selected_bound_set input.configuration m ≡ ok h.selected) (sym h.mode_reads)
          h.selected_reads,
      subst
          (λ m.
            IsTightened m h.selected.active_bounds input.hard_bounds ev.maximum_trade_value
              input.hard_maximum_trade_value ev.selected_bounds)
          (sym h.mode_reads) h.bounds,
    )

nonempty-eq-nil : {A : Type 0} (xs : List A) → is_nonempty xs ≡ false → xs ≡ []
nonempty-eq-nil [] h = refl
nonempty-eq-nil (x ∷ xs) h = cc

neither : (a b c : Bool) → (a || b || c) ≡ false → (a ≡ false) × (b ≡ false) × (c ≡ false)
neither true true c h = cc
neither true false c h = cc
neither false true c h = cc
neither false false c h = (refl, refl, h)

-- A returned evaluation that does not fail safe has read complete evidence: no source failed, every
-- observation was accepted, each passes all the tests of validity and no two have one key, and every
-- threshold is covered by a quorum of sources.
pub evaluate_risk_complete :
    (input : EvaluateRiskInput) {ev : WatchtowerEvaluation}
    → evaluate_risk input ≡ ok ev
    → ev.fail_safe ≡ false
    → (input.source_failures ≡ [])
      × (missing_coverage input.configuration.required_quorum input.observations
            input.configuration.thresholds
          ≡ false)
      × All (IsAcceptable input) input.observations
      × AreFresh [] input.observations
      × (ev.valid_observation_count ≡ length input.observations)
unfolding is_fail_safe
evaluate_risk_complete input {ev} e clear =
    let h = evaluate_risk-IsEvaluation input e in
    let f = filter_valid-IsFiltered input [] input.observations in
    let (no_failure, covered, no_reason) =
      neither (is_nonempty input.source_failures)
        (missing_coverage input.configuration.required_quorum (evidence input).valid
          input.configuration.thresholds)
        (is_nonempty (evidence input).invalid_reasons) (sym h.fail_safe_reads ∙ clear) in
    let all_valid = f.complete (nonempty-eq-nil _ no_reason) in
    (
      nonempty-eq-nil _ no_failure,
      subst
          (λ os.
            missing_coverage input.configuration.required_quorum os input.configuration.thresholds
            ≡ false)
          all_valid covered,
      subst (All (IsAcceptable input)) all_valid f.acceptable,
      subst (AreFresh []) all_valid f.fresh,
      h.count_reads ∙ ap length all_valid,
    )
