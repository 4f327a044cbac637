-- ===== src/Financial/Policy.antt =====
-- packages/shared/src/financial.ts: tokens, policies and the bounds of an asset.
use aurka.Prelude.{
  ℕ, ◌+◌, Bool, false, ◌||◌, List, [], ◌∷◌, Result, ok, err, ◌>>=◌, ◌>>◌, throw_if, ltb,
  if◌then◌else◌,
}
use aurka.Prelude.Text.{Text, text_eq, lower_case, is_blank}
use aurka.Errors.{
  Error, token_required, not_managed_by_policy, duplicate_asset, minimum_exceeds_maximum,
  incomplete_policy,
}
use aurka.Financial.Integer.{IntegerLike, BpsLike, to_uint256, require_bps, basis_points}

-- Pick<FinancialAssetInput, "token" | "minimumWeightBps" | "maximumWeightBps">
pub record PolicyAsset : Type 0 where
  pub token : Text
  pub minimum_weight_bps : BpsLike
  pub maximum_weight_bps : BpsLike

pub record FinancialPolicy : Type 0 where
  pub maximum_transaction_value : IntegerLike
  pub assets : List PolicyAsset

pub record WeightBounds : Type 0 where
  pub minimum : ℕ
  pub maximum : ℕ

unfoldable pub normalize_token : Text → Result Error Text
normalize_token token = do throw_if (is_blank token) token_required; ok (lower_case token)

-- `seen.has(token)`
unfoldable pub has : List Text → Text → Bool
has [] token = false
has (s ∷ seen) token = text_eq s token || has seen token

-- policy.assets.find(...), where a blank token on the way throws.
unfoldable pub find_policy_asset : Text → List PolicyAsset → Result Error PolicyAsset
find_policy_asset normalized [] = err not_managed_by_policy
find_policy_asset normalized (asset ∷ rest) = do
  let later = find_policy_asset normalized rest
  token ← normalize_token asset.token
  if text_eq token normalized then ok asset else later

unfoldable pub policy_bounds : FinancialPolicy → Text → Result Error WeightBounds
policy_bounds policy token = do
  normalized ← normalize_token token
  bound ← find_policy_asset normalized policy.assets
  minimum ← require_bps bound.minimum_weight_bps
  maximum ← require_bps bound.maximum_weight_bps
  ok (record { minimum = minimum; maximum = maximum })

-- The loop of `validatePolicy`, over the tokens seen and the two totals.
unfoldable pub policy_totals : List Text → ℕ → ℕ → List PolicyAsset → Result Error (ℕ × ℕ)
policy_totals seen minimum_total maximum_total [] = ok (minimum_total, maximum_total)
policy_totals seen minimum_total maximum_total (asset ∷ rest) = do
  token ← normalize_token asset.token
  throw_if (has seen token) duplicate_asset
  minimum ← require_bps asset.minimum_weight_bps
  maximum ← require_bps asset.maximum_weight_bps
  throw_if (ltb maximum minimum) minimum_exceeds_maximum
  policy_totals (token ∷ seen) (minimum_total + minimum) (maximum_total + maximum) rest

unfoldable pub validate_policy : FinancialPolicy → Result Error (Unit {0})
validate_policy policy = do
  totals ← policy_totals [] 0 0 policy.assets
  throw_if (ltb basis_points totals.0 || ltb totals.1 basis_points) incomplete_policy
  cap ← to_uint256 policy.maximum_transaction_value
  ok tt
