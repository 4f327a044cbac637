-- ===== src/Price/Protection.antt =====
-- What a returned settlement price protection promises of its four snapshots and of the exchange.
use aurka.Prelude.{
  not-false, ℕ, ◌+◌, ◌-◌, ◌*◌, ◌≤◌, ◌<◌, ◌≡◌, ap, true, false, ◌||◌, not, List, [], ◌∷◌, All, ok,
  arith, >>=-eq-ok, throw_if_inv, throw_if-eq-ok, ltb, ◌==◌,
}
use aurka.Prelude.Text.{Text}
use aurka.Errors.{
  price_from_future, price_stale, price_not_positive, price_token_mismatch, price_deviation,
  not_bytes32, snapshot_not_approved,
}
use aurka.Financial.Integer.{BpsLike, Num, to_uint256, safe_natural, bps_value, basis_points}
use aurka.Financial.Checked.{scale10, checked_mul}
use aurka.Financial.Checked.Laws.{checked_mul-eq-ok}
use aurka.Financial.Asset.{value_fraction}
use aurka.Price.{
  PriceSnapshot, SettlementPriceProtection, TreasuryExchangeValues, assert_fresh_price,
  positive_age, assert_approved_price_snapshot, same_text, is_bytes32, difference,
  require_deviation, assert_price_within_deviation, assert_fresh_prices, holding_at,
  assert_settlement_price_protection,
}
use aurka.Price.Exchange.{KeepsValue, exchange-KeepsValue}

-- Observed at most the allowed number of seconds ago, and not in the future.
pub record IsFresh (snapshot : PriceSnapshot) (now_seconds max_age_seconds : Num) : Type 0 where
  pub observed : ℕ
  pub now : ℕ
  pub age : ℕ
  pub observed_reads : safe_natural snapshot.observed_at ≡ ok observed
  pub now_reads : safe_natural now_seconds ≡ ok now
  pub age_reads : positive_age max_age_seconds ≡ ok age
  pub not_future : observed ≤ now
  pub recent : now ≤ observed + age

pub assert_fresh_price-IsFresh :
    (snapshot : PriceSnapshot) (now_seconds max_age_seconds : Num)
    → assert_fresh_price snapshot now_seconds max_age_seconds ≡ ok tt
    → IsFresh snapshot now_seconds max_age_seconds
unfolding assert_fresh_price
assert_fresh_price-IsFresh snapshot now_seconds max_age_seconds e =
    let (o, eo, e1) = >>=-eq-ok (safe_natural snapshot.observed_at) _ e in
    let (n, en, e2) = >>=-eq-ok (safe_natural now_seconds) _ e1 in
    let (a, ea, e3) = >>=-eq-ok (positive_age max_age_seconds) _ e2 in
    let (p, ep, e4) = >>=-eq-ok (to_uint256 snapshot.price) _ e3 in
    let (_, e5) = throw_if_inv (p == 0) price_not_positive _ e4 in
    let (_, _, e6) = >>=-eq-ok (scale10 snapshot.price_decimals) _ e5 in
    let (future, e7) = throw_if_inv (ltb n o) price_from_future _ e6 in
    let stale : ltb a (n - o) ≡ false = throw_if-eq-ok (ltb a (n - o)) price_stale e7 in
    record {
      observed = o;
      now = n;
      age = a;
      observed_reads = eo;
      now_reads = en;
      age_reads = ea;
      not_future = ground (arith, future);
      recent = ground (arith, future, stale);
    }

-- The actual price lies in the band around the reference price: both prices are cross-multiplied by
-- the other's scale.
pub record IsWithin (reference actual : PriceSnapshot) (b : BpsLike) : Type 0 where
  pub reference_price : ℕ
  pub actual_price : ℕ
  pub reference_scale : ℕ
  pub actual_scale : ℕ
  pub deviation : ℕ
  pub reference_price_reads : to_uint256 reference.price ≡ ok reference_price
  pub actual_price_reads : to_uint256 actual.price ≡ ok actual_price
  pub reference_scale_reads : scale10 reference.price_decimals ≡ ok reference_scale
  pub actual_scale_reads : scale10 actual.price_decimals ≡ ok actual_scale
  pub deviation_reads : require_deviation b ≡ ok deviation
  pub deviation_bound : deviation ≤ basis_points
  pub reference_positive : 0 < reference_price
  pub actual_positive : 0 < actual_price
  pub below :
      actual_price * reference_scale * basis_points
      ≤ reference_price * actual_scale * (basis_points + deviation)
  pub above :
      reference_price * actual_scale * (basis_points - deviation)
      ≤ actual_price * reference_scale * basis_points

pub require_deviation-le : (b : BpsLike) {n : ℕ} → require_deviation b ≡ ok n → n ≤ basis_points
unfolding require_deviation
require_deviation-le b e = let (d, ed, fits) = >>=-eq-ok (bps_value b) _ e in ground arith

-- The test on the distance, as the two bounds.
band :
    (x y deviation distance bound : ℕ)
    → deviation ≤ basis_points
    → distance ≡ difference x y * basis_points
    → bound ≡ y * deviation
    → ltb bound distance ≡ false
    → (x * basis_points ≤ y * (basis_points + deviation))
      × (y * (basis_points - deviation) ≤ x * basis_points)
unfolding difference
band x y deviation distance bound fits ed eb h =
    let kept = basis_points - deviation in
    let whole : deviation + kept ≡ basis_points = omega arith in
    let split : y * basis_points ≡ y * deviation + y * kept =
      omega (arith, ap (λ (t : ℕ). y * t) whole) in
    (ground (arith, split), ground (arith, split))

IsWithin-of :
    (reference actual : PriceSnapshot) (b : BpsLike)
    (rp ap sr sa rn an deviation distance bound : ℕ)
    → to_uint256 reference.price ≡ ok rp
    → to_uint256 actual.price ≡ ok ap
    → (rp == 0 || ap == 0) ≡ false
    → scale10 reference.price_decimals ≡ ok sr
    → scale10 actual.price_decimals ≡ ok sa
    → rn ≡ rp * sa
    → an ≡ ap * sr
    → require_deviation b ≡ ok deviation
    → distance ≡ difference an rn * basis_points
    → bound ≡ rn * deviation
    → ltb bound distance ≡ false
    → IsWithin reference actual b
IsWithin-of reference actual b rp ap sr sa rn an deviation distance bound e1 e2 positive e3 e4 e5 e6
      e7 e8 e9 h =
    let (below, above) = band an rn deviation distance bound (require_deviation-le b e7) e8 e9 h in
    record {
      reference_price = rp;
      actual_price = ap;
      reference_scale = sr;
      actual_scale = sa;
      deviation = deviation;
      reference_price_reads = e1;
      actual_price_reads = e2;
      reference_scale_reads = e3;
      actual_scale_reads = e4;
      deviation_reads = e7;
      deviation_bound = require_deviation-le b e7;
      reference_positive = ground (arith, positive);
      actual_positive = ground (arith, positive);
      below = rw (← e5, ← e6) below;
      above = rw (← e5, ← e6) above;
    }

pub assert_price_within_deviation-IsWithin :
    (reference actual : PriceSnapshot) (b : BpsLike)
    → assert_price_within_deviation reference actual b ≡ ok tt
    → IsWithin reference actual b
unfolding assert_price_within_deviation
assert_price_within_deviation-IsWithin reference actual b e =
    let (_, e1) =
      throw_if_inv (not (same_text reference.token actual.token)) price_token_mismatch _ e in
    let (rp, er, e2) = >>=-eq-ok (to_uint256 reference.price) _ e1 in
    let (ap, ea, e3) = >>=-eq-ok (to_uint256 actual.price) _ e2 in
    let (positive, e4) = throw_if_inv (rp == 0 || ap == 0) price_not_positive _ e3 in
    let (sr, ers, e5) = >>=-eq-ok (scale10 reference.price_decimals) _ e4 in
    let (sa, eas, e6) = >>=-eq-ok (scale10 actual.price_decimals) _ e5 in
    let (rn, ern, e7) = >>=-eq-ok (checked_mul rp sa) _ e6 in
    let (an, ean, e8) = >>=-eq-ok (checked_mul ap sr) _ e7 in
    let (d, ed, e9) = >>=-eq-ok (require_deviation b) _ e8 in
    let (distance, edist, e10) = >>=-eq-ok (checked_mul (difference an rn) basis_points) _ e9 in
    let (bound, ebound, e11) = >>=-eq-ok (checked_mul rn d) _ e10 in
    IsWithin-of reference actual b rp ap sr sa rn an d distance bound er ea positive ers eas
      (checked_mul-eq-ok rp sa ern) (checked_mul-eq-ok ap sr ean) ed
      (checked_mul-eq-ok (difference an rn) basis_points edist) (checked_mul-eq-ok rn d ebound)
      (throw_if-eq-ok (ltb bound distance) price_deviation e11)

pub record IsApproved (snapshot : PriceSnapshot) (token snapshot_id : Text) : Type 0 where
  pub same_token : same_text snapshot.token token ≡ true
  pub same_id : same_text snapshot.snapshot_id snapshot_id ≡ true

assert_snapshot-IsApproved :
    (snapshot : PriceSnapshot) (token snapshot_id : Text)
    → assert_approved_price_snapshot snapshot token snapshot_id ≡ ok tt
    → IsApproved snapshot token snapshot_id
unfolding assert_approved_price_snapshot
assert_snapshot-IsApproved snapshot token snapshot_id e =
    let (t, e1) = throw_if_inv (not (same_text snapshot.token token)) price_token_mismatch _ e in
    let (_, e2) = throw_if_inv (not (is_bytes32 snapshot.snapshot_id)) not_bytes32 _ e1 in
    let (_, e3) = throw_if_inv (not (is_bytes32 snapshot_id)) not_bytes32 _ e2 in
    let i =
      throw_if-eq-ok (not (same_text snapshot.snapshot_id snapshot_id)) snapshot_not_approved e3 in
    record { same_token = not-false _ t; same_id = not-false _ i }

assert_fresh_prices-All :
    (snapshots : List PriceSnapshot) (now_seconds max_age_seconds : Num)
    → assert_fresh_prices snapshots now_seconds max_age_seconds ≡ ok tt
    → All (λ s. IsFresh s now_seconds max_age_seconds) snapshots
unfolding assert_fresh_prices
assert_fresh_prices-All [] now_seconds max_age_seconds e = tt
assert_fresh_prices-All (s ∷ rest) now_seconds max_age_seconds e =
    let (_, first, later) = >>=-eq-ok (assert_fresh_price s now_seconds max_age_seconds) _ e in
    (
      assert_fresh_price-IsFresh s now_seconds max_age_seconds first,
      assert_fresh_prices-All rest now_seconds max_age_seconds later,
    )

-- Every protection of one settlement.
pub record IsProtectedSettlement (input : SettlementPriceProtection) : Type 0 where
  pub fresh :
      All
        (λ s. IsFresh s input.now_seconds input.maximum_price_age_seconds)
        (input.trader_input_reference_price ∷ input.trader_output_reference_price
          ∷ input.trader_input_execution_price ∷ input.trader_output_execution_price ∷ [])
  pub input_approved :
      IsApproved input.trader_input_execution_price input.trader_input_reference_price.token
        input.approved_trader_input_snapshot_id
  pub output_approved :
      IsApproved input.trader_output_execution_price input.trader_output_reference_price.token
        input.approved_trader_output_snapshot_id
  pub input_within :
      IsWithin input.trader_input_reference_price input.trader_input_execution_price
        input.maximum_price_deviation_bps
  pub output_within :
      IsWithin input.trader_output_reference_price input.trader_output_execution_price
        input.maximum_price_deviation_bps
  pub deviation : ℕ
  pub input_value : ℕ × ℕ
  pub output_value : ℕ × ℕ
  pub deviation_reads : require_deviation input.maximum_price_deviation_bps ≡ ok deviation
  pub input_value_reads :
      value_fraction
        (holding_at input.trader_input_amount input.trader_input_decimals
          input.trader_input_execution_price)
        input.value_decimals
      ≡ ok input_value
  pub output_value_reads :
      value_fraction
        (holding_at input.trader_output_amount input.trader_output_decimals
          input.trader_output_execution_price)
        input.value_decimals
      ≡ ok output_value
  pub keeps_value : KeepsValue input_value output_value deviation

-- When the check of a settlement's prices returns: all four snapshots are fresh and none is from the
-- future; each execution price is the approved snapshot of its token and lies, as an exact fraction,
-- within the allowed deviation of its reference price; and at the execution prices the exact value
-- that the treasury receives is at least the exact value that it gives, less the deviation.
pub assert_settlement_price_protection-IsProtectedSettlement :
    (input : SettlementPriceProtection) {v : TreasuryExchangeValues}
    → assert_settlement_price_protection input ≡ ok v
    → IsProtectedSettlement input
unfolding assert_settlement_price_protection
assert_settlement_price_protection-IsProtectedSettlement input {v} e =
    let (_, f, e1) = >>=-eq-ok (assert_fresh_prices _ _ _) _ e in
    let (_, ai, e2) = >>=-eq-ok (assert_approved_price_snapshot _ _ _) _ e1 in
    let (_, ao, e3) = >>=-eq-ok (assert_approved_price_snapshot _ _ _) _ e2 in
    let (_, wi, e4) = >>=-eq-ok (assert_price_within_deviation _ _ _) _ e3 in
    let (_, wo, e5) = >>=-eq-ok (assert_price_within_deviation _ _ _) _ e4 in
    let (d, vi, vo, ed, ei, eo, _, k) = exchange-KeepsValue _ _ e5 in
    record {
      fresh = assert_fresh_prices-All _ _ _ f;
      input_approved = assert_snapshot-IsApproved _ _ _ ai;
      output_approved = assert_snapshot-IsApproved _ _ _ ao;
      input_within = assert_price_within_deviation-IsWithin _ _ _ wi;
      output_within = assert_price_within_deviation-IsWithin _ _ _ wo;
      deviation = d;
      input_value = vi;
      output_value = vo;
      deviation_reads = ed;
      input_value_reads = ei;
      output_value_reads = eo;
      keeps_value = k;
    }
