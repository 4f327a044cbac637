-- ===== src/Watchtower/Observation.antt =====
-- packages/agents/watchtower/src/index.ts: which observations count, and why others do not.
pub mod Validity
use aurka.Prelude.{
  ℕ, ◌+◌, ◌-◌, Bool, true, false, ◌||◌, List, [], ◌∷◌, ◌++◌, map, Option, none, some, not, ltb,
  ◌==◌, if◌then◌else◌,
}
use aurka.Prelude.Int.{ℤ, pos, ltb_ℤ, leb_ℤ}
use aurka.Prelude.Text.{Text, text_eq, lower_case}
use aurka.Price.{same_text}
use aurka.Watchtower.{Finality, final, safe, unfinalized, WatchtowerObservation, EvaluateRiskInput}

pub data InvalidReason : Type 0 where
  wrong_chain : InvalidReason
  wrong_deployment : InvalidReason
  future_observation : InvalidReason
  stale_observation : InvalidReason
  future_index : InvalidReason
  lagging_index : InvalidReason
  unfinalized_observation : InvalidReason
  reorged_observation : InvalidReason
  insufficient_sample : InvalidReason
  duplicate_observation : InvalidReason

-- A Set of strings is the list of its members, each once.
unfoldable pub has_text : List Text → Text → Bool
has_text [] s = false
has_text (t ∷ ts) s = text_eq t s || has_text ts s

unfoldable pub add_text : Text → List Text → List Text
add_text s ts = if has_text ts s then ts else s ∷ ts

unfoldable pub metric_triggers : (metric threshold : ℤ) → Bool
metric_triggers metric threshold =
    if ltb_ℤ threshold (pos 0) then leb_ℤ metric threshold else leb_ℤ threshold metric

-- left.some((item) => rightSet.has(item.toLowerCase()))
unfoldable pub some_in : List Text → List Text → Bool
some_in [] right = false
some_in (s ∷ left) right = has_text (map lower_case right) (lower_case s) || some_in left right

unfoldable pub assets_overlap : List Text → List Text → Bool
assets_overlap [] right = true
assets_overlap (s ∷ left) [] = true
assets_overlap (s ∷ left) (t ∷ right) = some_in (s ∷ left) (t ∷ right)

abbrev pub is_unfinalized : Finality → Bool
is_unfinalized final = false
is_unfinalized safe = false
is_unfinalized unfinalized = true

unfoldable pub is_canonical_hash : Option Text → Text → Bool
is_canonical_hash none hash = false
is_canonical_hash (some canonical) hash = same_text canonical hash

unfoldable pub observation_invalid :
    WatchtowerObservation → EvaluateRiskInput → Option InvalidReason
observation_invalid observation input =
    if not (observation.chain_id == input.chain_id)
    then some wrong_chain
    else if not (text_eq observation.deployment_id input.deployment_id)
    then some wrong_deployment
    else if ltb observation.retrieved_at observation.observed_at
        || ltb input.now_seconds observation.observed_at
    then some future_observation
    else if ltb input.configuration.max_observation_age_seconds
        (input.now_seconds - observation.observed_at)
    then some stale_observation
    else if ltb input.canonical_block observation.indexed_block
    then some future_index
    else if ltb input.configuration.max_indexed_lag_blocks
        (input.canonical_block - observation.indexed_block)
    then some lagging_index
    else if is_unfinalized observation.finality
    then some unfinalized_observation
    else if not (
        is_canonical_hash (input.canonical_block_hashes observation.indexed_block)
          observation.indexed_block_hash)
    then some reorged_observation
    else if ltb observation.sample_size input.configuration.minimum_sample_size
    then some insufficient_sample
    else none

-- `${observation.sourceId}:${observation.id}`
abbrev pub observation_key : WatchtowerObservation → Text
observation_key observation = observation.source_id ++ (b':' ∷ observation.id)

pub record Filtered : Type 0 where
  pub valid : List WatchtowerObservation
  pub invalid_reasons : List InvalidReason

abbrev pub accept : WatchtowerObservation → Filtered → Filtered
accept observation rest = record rest { valid = observation ∷ rest.valid }

abbrev pub reject : InvalidReason → Filtered → Filtered
reject reason rest = record rest { invalid_reasons = reason ∷ rest.invalid_reasons }

abbrev pub judge : Option InvalidReason → WatchtowerObservation → Filtered → Filtered
judge none observation rest = accept observation rest
judge (some reason) observation rest = reject reason rest

-- The filter with its `seen` set and its list of reasons.
unfoldable pub filter_valid : EvaluateRiskInput → List Text → List WatchtowerObservation → Filtered
filter_valid input seen [] = record { valid = []; invalid_reasons = [] }
filter_valid input seen (observation ∷ rest) =
    let key = observation_key observation in
    let after_duplicate = filter_valid input seen rest in
    let after_new = filter_valid input (key ∷ seen) rest in
    if has_text seen key
    then reject duplicate_observation after_duplicate
    else judge (observation_invalid observation input) observation after_new
