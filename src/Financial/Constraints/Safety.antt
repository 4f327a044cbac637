-- ===== src/Financial/Constraints/Safety.antt =====
-- An evaluation is safe exactly when the trade is within the cap and every asset's share of the
-- NAV is within the policy's bounds, as exact fractions.
use aurka.Prelude.{
  ℕ, ◌+◌, ◌*◌, ◌/◌, ◌≤◌, ◌≡◌, refl, sym, ◌∙◌, subst, ◌↔◌, true, false, List, [], ◌∷◌, ◌++◌, ok,
  arith, >>=-eq-ok, ok-injective, All,
}
use aurka.Financial.Integer.{IntegerLike, to_uint256, basis_points}
use aurka.Financial.Checked.{bps_of_down, bps_of_up}
use aurka.Financial.Checked.Laws.{bps_of_down-eq, bps_of_up-eq}
use aurka.Financial.Weight.{weight_bps}
use aurka.Financial.Policy.{FinancialPolicy, WeightBounds, policy_bounds, validate_policy}
use aurka.Financial.Portfolio.{AssetValuation, PortfolioValuation}
use aurka.Financial.Constraints.{
  ConstraintViolation, ConstraintEvaluation, minimum_violations, maximum_violations,
  asset_violations, all_violations, cap_violations, evaluation_of, evaluate_constraints,
}

-- The asset's bounds, and its value between those shares of the NAV.
pub record IsWithinBounds (policy : FinancialPolicy) (nav : ℕ) (a : AssetValuation) : Type 0 where
  pub bounds : WeightBounds
  pub managed : policy_bounds policy a.token ≡ ok bounds
  pub above_minimum : nav * bounds.minimum ≤ a.value * basis_points
  pub below_maximum : a.value * basis_points ≤ nav * bounds.maximum

module _ (a : AssetValuation) (exposure least minimum most maximum : ℕ) where
  abbrev found : List ConstraintViolation
  found = minimum_violations a exposure least minimum ++ maximum_violations a most maximum

  none_found : found ≡ [] → (least ≤ a.value) × (a.value ≤ most)
  unfolding minimum_violations maximum_violations
  none_found e = ground arith

  found_none : least ≤ a.value → a.value ≤ most → found ≡ []
  unfolding minimum_violations maximum_violations
  found_none lo hi = ground arith

module _ (nav value share l : ℕ) where
  least-le : bps_of_up nav share ≡ ok l → (l ≤ value) ↔ (nav * share ≤ value * basis_points)
  least-le e =
      let least : l ≡ (nav * share + 9999) / basis_points =
        ok-injective (sym e ∙ bps_of_up-eq nav share) in
      (λ h. omega arith, λ h. omega arith)

  most-le : (value ≤ bps_of_down nav share) ↔ (value * basis_points ≤ nav * share)
  most-le = let most = bps_of_down-eq nav share in (λ h. omega arith, λ h. omega arith)

within_iff :
    (policy : FinancialPolicy) (nav : ℕ) (a : AssetValuation) (b : WeightBounds) (exposure l : ℕ)
    → policy_bounds policy a.token ≡ ok b
    → bps_of_up nav b.minimum ≡ ok l
    → (found a exposure l b.minimum (bps_of_down nav b.maximum) b.maximum ≡ [])
      ↔ IsWithinBounds policy nav a
within_iff policy nav a b exposure l eb el = (
  λ e.
      let (lo, hi) = none_found a exposure l b.minimum (bps_of_down nav b.maximum) b.maximum e in
      record {
        bounds = b;
        managed = eb;
        above_minimum = (least-le nav a.value b.minimum l el).0 lo;
        below_maximum = (most-le nav a.value b.maximum l).0 hi;
      },
  λ h.
      let same : h.bounds ≡ b = ok-injective (sym h.managed ∙ eb) in
      found_none a exposure l b.minimum (bps_of_down nav b.maximum) b.maximum
        ((least-le nav a.value b.minimum l el).1 (rw same at h.above_minimum))
        ((most-le nav a.value b.maximum l).1 (rw same at h.below_maximum)),
)

asset_violations-none :
    (policy : FinancialPolicy) (nav : ℕ) (a : AssetValuation) {vs : List ConstraintViolation}
    → asset_violations policy nav a ≡ ok vs
    → (vs ≡ []) ↔ IsWithinBounds policy nav a
unfolding asset_violations
asset_violations-none policy nav a {vs} e =
    let (b, eb, e1) = >>=-eq-ok (policy_bounds policy a.token) _ e in
    let (w, ew, e2) = >>=-eq-ok (weight_bps a.value nav false) _ e1 in
    let (l, el, e3) = >>=-eq-ok (bps_of_up nav b.minimum) _ e2 in
    subst (λ us. (us ≡ []) ↔ IsWithinBounds policy nav a) (ok-injective e3)
      (within_iff policy nav a b w l eb el)

append-eq-nil {ℓ} : {A : Type ℓ} (xs ys : List A) → (xs ++ ys ≡ []) → (xs ≡ []) × (ys ≡ [])
append-eq-nil [] ys e = (refl, e)
append-eq-nil (x ∷ xs) ys e = cc

all_violations-none :
    (policy : FinancialPolicy) (nav : ℕ) (xs : List AssetValuation) {vs : List ConstraintViolation}
    → all_violations policy nav xs ≡ ok vs
    → (vs ≡ []) ↔ All (IsWithinBounds policy nav) xs
unfolding all_violations
all_violations-none policy nav [] e = (λ _. tt, λ _. sym (ok-injective e))
all_violations-none policy nav (x ∷ xs) {vs} e =
    let (here, eh, e1) = >>=-eq-ok (asset_violations policy nav x) _ e in
    let (others, eo, e2) = >>=-eq-ok (all_violations policy nav xs) _ e1 in
    let (h0, h1) = asset_violations-none policy nav x eh in
    let (o0, o1) = all_violations-none policy nav xs eo in
    subst (λ us. (us ≡ []) ↔ All (IsWithinBounds policy nav) (x ∷ xs)) (ok-injective e2)
      (
        λ none_left. let (p, q) = append-eq-nil here others none_left in (h0 p, o0 q),
        λ all. cc (h1 all.0, o1 all.1),
      )

-- The trade is within the cap, and every asset within its bounds.
pub record IsSafe (p : PortfolioValuation) (policy : FinancialPolicy) (amount : ℕ) : Type 0 where
  pub cap : ℕ
  pub cap_reads : to_uint256 policy.maximum_transaction_value ≡ ok cap
  pub within_cap : amount ≤ cap
  pub within_bounds : All (IsWithinBounds policy p.nav) p.assets

evaluation_of-safe : (vs : List ConstraintViolation) → ((evaluation_of vs).safe ≡ true) ↔ (vs ≡ [])
unfolding evaluation_of
evaluation_of-safe [] = (λ _. refl, λ _. refl)
evaluation_of-safe (v ∷ vs) = (λ e. cc, λ e. cc)

cap_violations-none : (amount cap : ℕ) → (cap_violations amount cap ≡ []) ↔ (amount ≤ cap)
unfolding cap_violations
cap_violations-none amount cap = (λ e. ground arith, λ e. ground arith)

evaluation_iff :
    (p : PortfolioValuation) (policy : FinancialPolicy) (amount c : ℕ)
    (vs : List ConstraintViolation)
    → to_uint256 policy.maximum_transaction_value ≡ ok c
    → all_violations policy p.nav p.assets ≡ ok vs
    → ((evaluation_of (cap_violations amount c ++ vs)).safe ≡ true) ↔ IsSafe p policy amount
evaluation_iff p policy amount c vs ec ev =
    let (s0, s1) = evaluation_of-safe (cap_violations amount c ++ vs) in
    let (c0, c1) = cap_violations-none amount c in
    let (a0, a1) = all_violations-none policy p.nav p.assets ev in
    (
      λ safe.
          let (no_cap, no_asset) = append-eq-nil (cap_violations amount c) vs (s0 safe) in
          record { cap = c; cap_reads = ec; within_cap = c0 no_cap; within_bounds = a0 no_asset },
      λ h.
          let same : h.cap ≡ c = ok-injective (sym h.cap_reads ∙ ec) in
          s1 (cc (c1 (rw same at h.within_cap), a1 h.within_bounds)),
    )

-- Whenever the evaluation returns, it is safe exactly when the amount is within the cap
-- and every asset within its bounds.
pub evaluate_constraints-safe :
    (p : PortfolioValuation) (policy : FinancialPolicy) (v : IntegerLike) (amount : ℕ)
    {ev : ConstraintEvaluation}
    → to_uint256 v ≡ ok amount
    → evaluate_constraints p policy v ≡ ok ev
    → (ev.safe ≡ true) ↔ IsSafe p policy amount
unfolding evaluate_constraints
evaluate_constraints-safe p policy v amount ea e =
    let (_, _, e1) = >>=-eq-ok (validate_policy policy) _ e in
    let (a, ea', e2) = >>=-eq-ok (to_uint256 v) _ e1 in
    let (c, ec, e3) = >>=-eq-ok (to_uint256 policy.maximum_transaction_value) _ e2 in
    let (vs, ev, e4) = >>=-eq-ok (all_violations policy p.nav p.assets) _ e3 in
    let same : a ≡ amount = ok-injective (sym ea' ∙ ea) in
    subst (λ r. (r.safe ≡ true) ↔ IsSafe p policy amount) (ok-injective e4)
      (subst
        (λ n. ((evaluation_of (cap_violations n c ++ vs)).safe ≡ true) ↔ IsSafe p policy amount)
        (sym same) (evaluation_iff p policy amount c vs ec ev))
