-- ===== src/Watchtower/Observation/Validity.antt =====
-- Which observations are accepted: an independent description of the tests and of the filter.
use aurka.Prelude.{
  ◌+◌, ◌≤◌, ◌≡◌, ◌↔◌, refl, ap, inl, inr, true, false, List, [], ◌∷◌, Option, none, some, arith,
  length, All, Bool-cases,
}
use aurka.Prelude.Text.{Text, text_eq}
use aurka.Watchtower.{WatchtowerObservation, EvaluateRiskInput}
use aurka.Watchtower.Observation.{
  InvalidReason, duplicate_observation, has_text, is_unfinalized, is_canonical_hash,
  observation_invalid, observation_key, Filtered, reject, judge, filter_valid,
}

-- Evidence of this deployment, recent, final, of a canonical block that is not far behind, and of
-- enough samples.
pub record IsAcceptable (input : EvaluateRiskInput) (o : WatchtowerObservation) : Type 0 where
  pub chain : o.chain_id ≡ input.chain_id
  pub deployment : text_eq o.deployment_id input.deployment_id ≡ true
  pub retrieved : o.observed_at ≤ o.retrieved_at
  pub not_future : o.observed_at ≤ input.now_seconds
  pub recent : input.now_seconds ≤ o.observed_at + input.configuration.max_observation_age_seconds
  pub indexed : o.indexed_block ≤ input.canonical_block
  pub close : input.canonical_block ≤ o.indexed_block + input.configuration.max_indexed_lag_blocks
  pub finalized : is_unfinalized o.finality ≡ false
  pub canonical :
      is_canonical_hash (input.canonical_block_hashes o.indexed_block) o.indexed_block_hash ≡ true
  pub sampled : input.configuration.minimum_sample_size ≤ o.sample_size

pub observation_invalid-IsAcceptable :
    (input : EvaluateRiskInput) (o : WatchtowerObservation)
    → (observation_invalid o input ≡ none) ↔ IsAcceptable input o
unfolding observation_invalid
observation_invalid-IsAcceptable input o = (
  λ e. record {
    chain = ground arith;
    deployment = ground arith;
    retrieved = ground arith;
    not_future = ground arith;
    recent = ground arith;
    indexed = ground arith;
    close = ground arith;
    finalized = ground arith;
    canonical = ground arith;
    sampled = ground arith;
  },
  λ h. ground (
    arith, h.chain, h.deployment, h.retrieved, h.not_future, h.recent, h.indexed, h.close,
    h.finalized, h.canonical, h.sampled,
  ),
)

-- No key is in the list of keys seen, or twice.
abbrev pub AreFresh : List Text → List WatchtowerObservation → Type 0
AreFresh seen [] = Unit
AreFresh seen (o ∷ os) =
    (has_text seen (observation_key o) ≡ false) × AreFresh (observation_key o ∷ seen) os

AreFresh-mono :
    (small big : List Text) (os : List WatchtowerObservation)
    → ((x : Text) → has_text big x ≡ false → has_text small x ≡ false)
    → AreFresh big os
    → AreFresh small os
unfolding has_text
AreFresh-mono small big [] le h = tt
AreFresh-mono small big (o ∷ os) le (h, hs) = (
  le (observation_key o) h,
  AreFresh-mono (observation_key o ∷ small) (observation_key o ∷ big) os
      (λ x e. ground (arith, le x)) hs,
)

AreFresh-drop :
    (k : Text) (seen : List Text) (os : List WatchtowerObservation)
    → AreFresh (k ∷ seen) os
    → AreFresh seen os
unfolding has_text
AreFresh-drop k seen os h = AreFresh-mono seen (k ∷ seen) os (λ x e. ground arith) h

pub record IsFiltered (input : EvaluateRiskInput) (seen : List Text)
    (os : List WatchtowerObservation) (f : Filtered) : Type 0 where
  pub acceptable : All (IsAcceptable input) f.valid
  pub fresh : AreFresh seen f.valid
  pub counted : length f.valid + length f.invalid_reasons ≡ length os
  pub complete : f.invalid_reasons ≡ [] → f.valid ≡ os

module _ (input : EvaluateRiskInput) (seen : List Text) (o : WatchtowerObservation)
    (os : List WatchtowerObservation) (f : Filtered) where
  reject-IsFiltered :
      (reason : InvalidReason)
      → IsFiltered input seen os f
      → IsFiltered input seen (o ∷ os) (reject reason f)
  reject-IsFiltered reason h = record {
    acceptable = h.acceptable;
    fresh = h.fresh;
    counted = omega (arith, h.counted);
    complete = λ e. cc;
  }

  judge-IsFiltered :
      (verdict : Option InvalidReason)
      → observation_invalid o input ≡ verdict
      → has_text seen (observation_key o) ≡ false
      → IsFiltered input (observation_key o ∷ seen) os f
      → IsFiltered input seen (o ∷ os) (judge verdict o f)
  judge-IsFiltered none e new h = record {
    acceptable = ((observation_invalid-IsAcceptable input o).0 e, h.acceptable);
    fresh = (new, h.fresh);
    counted = omega (arith, h.counted);
    complete = λ none_rejected. ap (λ t. o ∷ t) (h.complete none_rejected);
  }
  judge-IsFiltered (some reason) e new h = record {
    acceptable = h.acceptable;
    fresh = AreFresh-drop (observation_key o) seen f.valid h.fresh;
    counted = omega (arith, h.counted);
    complete = λ none_rejected. cc;
  }

-- Every accepted observation passes all the tests, no two have one key, each observation is either
-- accepted or gives one reason, and without a reason all are accepted.
pub filter_valid-IsFiltered :
    (input : EvaluateRiskInput) (seen : List Text) (os : List WatchtowerObservation)
    → IsFiltered input seen os (filter_valid input seen os)
unfolding filter_valid
filter_valid-IsFiltered input seen [] = record {
  acceptable = tt;
  fresh = tt;
  counted = refl;
  complete = λ e. refl;
}
filter_valid-IsFiltered input seen (o ∷ os) =
    elim (Bool-cases (has_text seen (observation_key o))) [
      | inl old ↦ rw old (
          reject-IsFiltered input seen o os _ duplicate_observation
            (filter_valid-IsFiltered input seen os))
      | inr new ↦ rw new (
          judge-IsFiltered input seen o os _ (observation_invalid o input) refl new
            (filter_valid-IsFiltered input (observation_key o ∷ seen) os))
    ]
