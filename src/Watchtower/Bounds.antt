-- ===== src/Watchtower/Bounds.antt =====
-- packages/agents/watchtower/src/index.ts: the bound set of a mode, and its check against the hard
-- policy.
pub mod Laws
use aurka.Prelude.{
  ℕ, ◌+◌, ◌*◌, ◌/◌, Bool, true, false, ◌&&◌, ◌||◌, not, List, [], ◌∷◌, Option, none, some, Result,
  ok, err, ◌>>=◌, ◌>>◌, throw_if, ltb, leb, ◌==◌, if◌then◌else◌, sum_of,
}
use aurka.Prelude.Text.{Text}
use aurka.Price.{same_text}
use aurka.Watchtower.{
  RiskMode, normal, cautious, shock, paused, same_mode, WatchtowerBound, BoundSet,
  WatchtowerConfiguration, RiskError, missing_bound_set, cap_not_governance_ratio, cap_widened,
  paused_capacity, bound_omitted, bounds_widened, no_valid_portfolio, shock_widens_cautious,
}

unfoldable pub find_bound_set : RiskMode → List BoundSet → Result RiskError BoundSet
find_bound_set mode [] = err missing_bound_set
find_bound_set mode (set ∷ rest) =
    if same_mode set.mode mode then ok set else find_bound_set mode rest

unfoldable pub selected_bound_set : WatchtowerConfiguration → RiskMode → Result RiskError BoundSet
selected_bound_set configuration mode = find_bound_set mode configuration.bound_sets

-- The map from a lower-case token to its bound: a later entry replaces an earlier one.
unfoldable pub bound_of : Text → List WatchtowerBound → Option WatchtowerBound
bound_of token [] = none
bound_of token (bound ∷ rest) = elim (bound_of token rest) [
  | some later ↦ some later
  | none ↦ if same_text bound.token token then some bound else none
]

unfoldable pub expected_maximum : RiskMode → (hard_maximum_trade_value : ℕ) → ℕ
expected_maximum normal hard = hard
expected_maximum cautious hard = hard * 75 / 100
expected_maximum shock hard = hard * 40 / 100
expected_maximum paused hard = 0

abbrev pub is_paused : RiskMode → Bool
is_paused normal = false
is_paused cautious = false
is_paused shock = false
is_paused paused = true

-- One round of the `map` over the hard bounds.
unfoldable pub tighten_bound :
    WatchtowerBound → Option WatchtowerBound → Result RiskError WatchtowerBound
tighten_bound hard none = err bound_omitted
tighten_bound hard (some candidate) =
    if ltb candidate.minimum_weight_bps hard.minimum_weight_bps
      || ltb hard.maximum_weight_bps candidate.maximum_weight_bps
      || ltb candidate.maximum_weight_bps candidate.minimum_weight_bps
    then err bounds_widened
    else ok (record candidate { token = hard.token })

unfoldable pub tighten_bounds :
    (selected hard : List WatchtowerBound) → Result RiskError (List WatchtowerBound)
tighten_bounds selected [] = ok []
tighten_bounds selected (hard ∷ rest) = do
  bound ← tighten_bound hard (bound_of hard.token selected)
  others ← tighten_bounds selected rest
  ok (bound ∷ others)

abbrev pub minimum_total : List WatchtowerBound → ℕ
minimum_total = sum_of (λ b. b.minimum_weight_bps)

abbrev pub maximum_total : List WatchtowerBound → ℕ
maximum_total = sum_of (λ b. b.maximum_weight_bps)

unfoldable pub validate_tightening :
    RiskMode
    → (selected hard : List WatchtowerBound) → (maximum_trade_value hard_maximum_trade_value : ℕ)
    → Result RiskError (List WatchtowerBound)
validate_tightening mode selected hard maximum_trade_value hard_maximum_trade_value = do
  throw_if (not (maximum_trade_value == expected_maximum mode hard_maximum_trade_value))
      cap_not_governance_ratio
  throw_if (ltb hard_maximum_trade_value maximum_trade_value) cap_widened
  throw_if (is_paused mode && not (maximum_trade_value == 0)) paused_capacity
  result ← tighten_bounds selected hard
  throw_if
      (not (is_paused mode)
        && (ltb 10000 (minimum_total result) || ltb (maximum_total result) 10000))
      no_valid_portfolio
  ok result

-- One round of the loop over the shock bounds.
unfoldable pub within_cautious : WatchtowerBound → Option WatchtowerBound → Bool
within_cautious bound none = false
within_cautious bound (some cautious_bound) =
    leb cautious_bound.minimum_weight_bps bound.minimum_weight_bps
    && leb bound.maximum_weight_bps cautious_bound.maximum_weight_bps

unfoldable pub check_shock_bounds :
    (shock_bounds cautious_bounds : List WatchtowerBound) → Result RiskError (Unit {0})
check_shock_bounds [] cautious_bounds = ok tt
check_shock_bounds (bound ∷ rest) cautious_bounds = do
  throw_if (not (within_cautious bound (bound_of bound.token cautious_bounds)))
      shock_widens_cautious
  check_shock_bounds rest cautious_bounds

-- if (desired === "SHOCK") { ... }
unfoldable pub check_shock :
    WatchtowerConfiguration → RiskMode → BoundSet → Result RiskError (Unit {0})
check_shock configuration normal selected = ok tt
check_shock configuration cautious selected = ok tt
check_shock configuration shock selected = do
  cautious_set ← selected_bound_set configuration cautious
  check_shock_bounds selected.active_bounds cautious_set.active_bounds
check_shock configuration paused selected = ok tt
