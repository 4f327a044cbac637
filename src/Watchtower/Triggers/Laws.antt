-- ===== src/Watchtower/Triggers/Laws.antt =====
-- The trigger sets against an independent description: a source is in the set of a mode exactly
-- when one of its observations reaches the mode's value of a threshold that applies to it.
use aurka.Prelude.{
  ◌≡◌, refl, sym, ◌∙◌, ap, inl, inr, Bool, true, false, ◌&&◌, ◌||◌, List, [], ◌∷◌, arith,
  Bool-cases,
}
use aurka.Prelude.Text.{Text, text_eq, text_eq→eq}
use aurka.Watchtower.{RiskMode, normal, cautious, shock, paused, WatchtowerObservation, Threshold}
use aurka.Watchtower.Observation.{has_text, add_text}
use aurka.Watchtower.Triggers.{
  Triggers, sources_of, add_trigger, threshold_value, reaches_value, applies, trigger_mode,
  trigger_modes, trigger_thresholds, trigger_observations,
}

-- The threshold applies to the observation, which reaches its value for the mode.
abbrev pub is_triggered : RiskMode → WatchtowerObservation → Threshold → Bool
is_triggered mode o threshold =
    applies threshold o && reaches_value (threshold_value mode threshold) o.metric_value

unfoldable pub any_threshold : RiskMode → WatchtowerObservation → List Threshold → Bool
any_threshold mode o [] = false
any_threshold mode o (t ∷ ts) = is_triggered mode o t || any_threshold mode o ts

-- One of the source's observations triggers the mode.
unfoldable pub any_evidence : RiskMode → Text → List Threshold → List WatchtowerObservation → Bool
any_evidence mode source thresholds [] = false
any_evidence mode source thresholds (o ∷ os) =
    (text_eq o.source_id source && any_threshold mode o thresholds)
    || any_evidence mode source thresholds os

has_text-same :
    (s x : Text) (ts : List Text)
    → has_text ts s ≡ true
    → has_text ts x ≡ (text_eq s x || has_text ts x)
has_text-same s x ts present = elim (Bool-cases (text_eq s x)) [
  | inl same ↦ rw same (ap (has_text ts) (sym (text_eq→eq s x same)) ∙ present)
  | inr other ↦ rw other refl
]

has_text-add :
    (s x : Text) (ts : List Text) → has_text (add_text s ts) x ≡ (text_eq s x || has_text ts x)
unfolding add_text has_text
has_text-add s x ts = elim (Bool-cases (has_text ts s)) [
  | inl present ↦ rw present (has_text-same s x ts present)
  | inr absent ↦ rw absent refl
]

-- What one test adds to the set of its mode, and that it leaves the other sets alone.
trigger_mode-same :
    (m : RiskMode) (o : WatchtowerObservation) (th : Threshold) (t : Triggers) (x : Text)
    → has_text (sources_of m (trigger_mode m o th t)) x
      ≡ ((text_eq o.source_id x && is_triggered m o th) || has_text (sources_of m t) x)
unfolding trigger_mode sources_of add_trigger threshold_value reaches_value
trigger_mode-same normal o th t x = ground arith
trigger_mode-same cautious o th t x = ground (arith, has_text-add o.source_id x t.cautious_sources)
trigger_mode-same shock o th t x = ground (arith, has_text-add o.source_id x t.shock_sources)
trigger_mode-same paused o th t x = ground (arith, has_text-add o.source_id x t.paused_sources)

trigger_mode-other :
    (m n : RiskMode) (o : WatchtowerObservation) (th : Threshold) (t : Triggers)
    → (m ≡ n → ⊥)
    → sources_of m (trigger_mode n o th t) ≡ sources_of m t
unfolding trigger_mode sources_of add_trigger
trigger_mode-other normal n o th t ne = refl
trigger_mode-other cautious normal o th t ne = ground arith
trigger_mode-other cautious cautious o th t ne = ground (arith, ne refl)
trigger_mode-other cautious shock o th t ne = ground arith
trigger_mode-other cautious paused o th t ne = ground arith
trigger_mode-other shock normal o th t ne = ground arith
trigger_mode-other shock cautious o th t ne = ground arith
trigger_mode-other shock shock o th t ne = ground (arith, ne refl)
trigger_mode-other shock paused o th t ne = ground arith
trigger_mode-other paused normal o th t ne = ground arith
trigger_mode-other paused cautious o th t ne = ground arith
trigger_mode-other paused shock o th t ne = ground arith
trigger_mode-other paused paused o th t ne = ground (arith, ne refl)

regroup : (a b c d : Bool) → ((a && c) || ((a && b) || d)) ≡ ((a && (b || c)) || d)
regroup true true true d = refl
regroup true true false d = refl
regroup true false c d = refl
regroup false b c d = refl

swap : (a b c : Bool) → (b || (a || c)) ≡ ((a || b) || c)
swap true true c = refl
swap true false c = refl
swap false b c = refl

never : (a b : Bool) → false ≡ ((a && (b && false)) || false)
never true true = refl
never true false = refl
never false b = refl

-- No evidence is for the mode NORMAL.
normal_sources :
    (o : WatchtowerObservation) (th : Threshold) (t₁ t : Triggers) (x : Text)
    → has_text (sources_of normal t₁) x
      ≡ ((text_eq o.source_id x && is_triggered normal o th) || has_text (sources_of normal t) x)
unfolding sources_of has_text threshold_value reaches_value
normal_sources o th t₁ t x = never (text_eq o.source_id x) (applies th o)

trigger_modes-sources :
    (m : RiskMode) (o : WatchtowerObservation) (th : Threshold) (t : Triggers) (x : Text)
    → has_text (sources_of m (trigger_modes o th t)) x
      ≡ ((text_eq o.source_id x && is_triggered m o th) || has_text (sources_of m t) x)
unfolding trigger_modes
trigger_modes-sources normal o th t x = normal_sources o th _ t x
trigger_modes-sources cautious o th t x =
    rw
      (
        trigger_mode-other cautious paused o th
            (trigger_mode shock o th (trigger_mode cautious o th t)) (λ e. cc),
        trigger_mode-other cautious shock o th (trigger_mode cautious o th t) (λ e. cc),
      )
      (trigger_mode-same cautious o th t x)
trigger_modes-sources shock o th t x =
    rw
      (
        trigger_mode-other shock paused o th
            (trigger_mode shock o th (trigger_mode cautious o th t)) (λ e. cc),
        trigger_mode-same shock o th (trigger_mode cautious o th t) x,
        trigger_mode-other shock cautious o th t (λ e. cc),
      )
      refl
trigger_modes-sources paused o th t x =
    rw
      (
        trigger_mode-same paused o th (trigger_mode shock o th (trigger_mode cautious o th t)) x,
        trigger_mode-other paused shock o th (trigger_mode cautious o th t) (λ e. cc),
        trigger_mode-other paused cautious o th t (λ e. cc),
      )
      refl

trigger_thresholds-sources :
    (m : RiskMode) (o : WatchtowerObservation) (ths : List Threshold) (t : Triggers) (x : Text)
    → has_text (sources_of m (trigger_thresholds o ths t)) x
      ≡ ((text_eq o.source_id x && any_threshold m o ths) || has_text (sources_of m t) x)
unfolding trigger_thresholds any_threshold
trigger_thresholds-sources m o [] t x = ground arith
trigger_thresholds-sources m o (th ∷ ths) t x =
    let later = trigger_thresholds-sources m o ths (trigger_modes o th t) x in
    let here = trigger_modes-sources m o th t x in
    later
    ∙ ap (λ b. (text_eq o.source_id x && any_threshold m o ths) || b) here
    ∙ regroup (text_eq o.source_id x) (is_triggered m o th) (any_threshold m o ths)
        (has_text (sources_of m t) x)

-- A source is counted for a mode exactly when it was before or one of its observations reaches the
-- mode's value of a threshold that applies to it.
pub trigger_observations-sources :
    (m : RiskMode) (os : List WatchtowerObservation) (ths : List Threshold) (t : Triggers)
    (x : Text)
    → has_text (sources_of m (trigger_observations os ths t)) x
      ≡ (any_evidence m x ths os || has_text (sources_of m t) x)
unfolding trigger_observations any_evidence
trigger_observations-sources m [] ths t x = refl
trigger_observations-sources m (o ∷ os) ths t x =
    let later = trigger_observations-sources m os ths (trigger_thresholds o ths t) x in
    let here = trigger_thresholds-sources m o ths t x in
    later
    ∙ ap (λ b. any_evidence m x ths os || b) here
    ∙ swap (text_eq o.source_id x && any_threshold m o ths) (any_evidence m x ths os)
        (has_text (sources_of m t) x)
