-- ===== src/Settlement/Liveness.antt =====
-- When a settlement returns: the search always ends, and a request that is safe throughout is filled.
use aurka.Prelude.{
  ℕ, suc, ◌+◌, ◌-◌, ◌≤◌, ◌<◌, ◌≡◌, refl, sym, ◌∙◌, ap, subst, ◌⊎◌, inl, inr, Bool, true, false, not,
  List, none, some, Bool-cases, Result, ok, ◌>>=◌, arith, >>=-eq-ok, throw_if_inv, catch, ltb, ◌==◌,
}
use aurka.Prelude.Int.{pos}
use aurka.Errors.{Error, base_fee_distribution}
use aurka.Bisect.{bisect_up}
use aurka.Bisect.Laws.{Highest, bisect_up-Highest, bisect_up-total}
use aurka.Financial.Integer.{IntegerLike, bigint, BpsLike, integer, to_uint256, require_bps}
use aurka.Financial.Integer.Laws.{require_bps_bigint}
use aurka.Financial.Portfolio.{AssetValuation, PortfolioValuation}
use aurka.Financial.Constraints.{unbound}
use aurka.Financial.Capacity.{calculate_utilization}
use aurka.Financial.Fees.{
  FeeDistribution, FeeDistributionInput, OptionSpaceFee, option_space_fee,
  calculate_option_space_fee, or_default, default_maximum_fee_bps, distribute_fees,
}
use aurka.Settlement.{
  FinancialFeeConfig, DirectSettlementInput, DirectSettlementResult, fee_for, find_asset,
  evaluate_settlement, settlement_is_safe, settlement_binding, settlement_limit, settlement_report,
  settlement_result, solve_settlement, check_commitments, calculate_direct_settlement,
}
use aurka.Settlement.Maximality.{Settles, evaluate-true}

Bool-total :
    (b : Bool)
    → (◌≡◌ {A = Result Error Bool} (ok b) (ok true))
      ⊎ (◌≡◌ {A = Result Error Bool} (ok b) (ok false))
Bool-total true = inl refl
Bool-total false = inr refl

Nat-cases : (n limit : ℕ) → n ≤ limit → (n ≡ limit) ⊎ (suc n ≤ limit)
Nat-cases n limit le = elim (Bool-cases (ltb n limit)) [
  | inl below ↦ inr (ground (arith, below))
  | inr full ↦ inl (ground (arith, full))
]

-- The rate of a converted base fee is the rate of the base fee.
option-same :
    (base : BpsLike) (b : ℕ) (slope : BpsLike) (u v : IntegerLike) (m : BpsLike)
    {o : OptionSpaceFee}
    → require_bps base ≡ ok b
    → calculate_option_space_fee (integer (bigint (pos b))) slope u v m ≡ ok o
    → calculate_option_space_fee base slope u v m ≡ ok o
unfolding calculate_option_space_fee
option-same base b slope u v m {o} eb e =
    let (b', eb', e1) = >>=-eq-ok (require_bps (integer (bigint (pos b)))) _ e in
    let same : b' ≡ b = require_bps_bigint b eb' in
    rw eb (
      subst
        (λ x.
          (require_bps slope >>= λ s. to_uint256 u >>= λ u0.
          to_uint256 v >>= λ u1. require_bps m >>= λ most. option_space_fee x s u0 u1 most)
          ≡ ok o)
        same e1)

distribute-option :
    (input : FeeDistributionInput) {d : FeeDistribution}
    → distribute_fees input ≡ ok d
    → (o : OptionSpaceFee) × (calculate_option_space_fee input.base_fee_bps input.slope_bps
          input.utilization_before input.utilization_after
          (or_default input.maximum_fee_bps default_maximum_fee_bps)
        ≡ ok o)
unfolding distribute_fees
distribute-option input e =
    let (_, _, e1) = >>=-eq-ok (to_uint256 input.trade_value) _ e in
    let (base, eb, e2) = >>=-eq-ok (require_bps input.base_fee_bps) _ e1 in
    let (tb, _, e3) = >>=-eq-ok (require_bps input.treasury_base_fee_bps) _ e2 in
    let (solver, _, e4) = >>=-eq-ok (require_bps input.solver_fee_bps) _ e3 in
    let (protocol, _, e5) = >>=-eq-ok (require_bps input.protocol_fee_bps) _ e4 in
    let (_, e6) = throw_if_inv (not (tb + solver + protocol == base)) base_fee_distribution _ e5 in
    let (o, eo, _) =
      >>=-eq-ok
        (calculate_option_space_fee (integer (bigint (pos base))) input.slope_bps
          input.utilization_before input.utilization_after
          (or_default input.maximum_fee_bps default_maximum_fee_bps))
        _ e6 in
    (o, option-same input.base_fee_bps base _ _ _ _ eb eo)

-- The two utilizations and the rate that the result reports are computed by the fees as well.
fee_for-option :
    (value : ℕ) (fee : FinancialFeeConfig) (before after baseline : ℕ) {d : FeeDistribution}
    → fee_for value fee before after baseline ≡ ok d
    → (u : ℕ) × (v : ℕ) × (o : OptionSpaceFee) × (calculate_utilization
          (bigint (pos before))
          (bigint (pos baseline))
        ≡ ok u)
      × (calculate_utilization (bigint (pos after)) (bigint (pos baseline)) ≡ ok v)
      × (calculate_option_space_fee fee.base_fee_bps fee.slope_bps
            (bigint (pos u))
            (bigint (pos v))
            fee.maximum_fee_bps
          ≡ ok o)
unfolding fee_for
fee_for-option value fee before after baseline e =
    let (u, eu, e1) =
      >>=-eq-ok (calculate_utilization (bigint (pos before)) (bigint (pos baseline))) _ e in
    let (v, ev, e2) =
      >>=-eq-ok (calculate_utilization (bigint (pos after)) (bigint (pos baseline))) _ e1 in
    let (o, eo) = distribute-option _ e2 in (u, v, o, eu, ev, eo)

module _ (input : DirectSettlementInput) (requested baseline consumed : ℕ) where
  -- The search never throws and never runs out of fuel.
  search_ends :
      (limit : ℕ)
      → (executed : ℕ) × (bisect_up (settlement_is_safe input baseline consumed) limit 0 limit
          ≡ ok executed)
        × Highest (settlement_is_safe input baseline consumed) 0 limit executed
  search_ends limit =
      let test = settlement_is_safe input baseline consumed in
      let (executed, e) = bisect_up-total test limit 0 limit (λ n a b. Bool-total _) in
      (executed, e, bisect_up-Highest test limit 0 limit (omega arith) (omega arith) e)

  result_returns :
      (q : PortfolioValuation) (fees : FeeDistribution)
      → Settles input baseline consumed requested q fees
      → (r : DirectSettlementResult) × (settlement_result input requested baseline consumed
            requested
          ≡ ok r)
        × (r.executed_value ≡ requested)
        × (r.binding_constraint ≡ unbound)
  unfolding settlement_result settlement_binding
  result_returns q fees s =
      let (u, v, o, eu, ev, eo) =
        fee_for-option requested input.fee consumed (consumed + requested) baseline s.charged in
      let whole : ltb requested requested ≡ false = ground arith in
      (
        settlement_report input requested baseline consumed requested fees q o
            (record { constraint = unbound; binding_asset = none }),
        rw (s.charged, s.applied, eu, ev, eo, whole) refl,
        refl,
        refl,
      )

  -- The search reaches the end of an interval on which every value is safe.
  search_reaches :
      (executed limit : ℕ)
      → Highest (settlement_is_safe input baseline consumed) 0 limit executed
      → ((n : ℕ) → 0 < n → n ≤ limit → evaluate_settlement input baseline consumed n ≡ ok true)
      → executed ≡ limit
  search_reaches executed limit found safe = elim (Nat-cases executed limit found.below) [
    | inl same ↦ same
    | inr short ↦
        let passes : settlement_is_safe input baseline consumed (suc executed) ≡ ok true =
          ap (λ m. ok (catch m false)) (safe (suc executed) (omega arith) short) in
        elim found.next_failed [
          | inl full ↦ full
          | inr failed ↦ (let clash = sym passes ∙ failed in cc)
        ]
  ]

limit_of :
    (requested cap remaining available : ℕ)
    → requested ≤ cap
    → requested ≤ remaining
    → requested ≤ available
    → settlement_limit requested cap remaining available ≡ requested
limit_of requested cap remaining available a b c = ground arith

solve_runs :
    (input : DirectSettlementInput) (requested baseline consumed cap : ℕ) (output : AssetValuation)
    → to_uint256 input.policy.maximum_transaction_value ≡ ok cap
    → find_asset input.trader_output_token input.portfolio.assets ≡ some output
    → settlement_limit requested cap (baseline - consumed) output.value ≡ requested
    → bisect_up (settlement_is_safe input baseline consumed) requested 0 requested ≡ ok requested
    → solve_settlement input requested baseline consumed
      ≡ settlement_result input requested baseline consumed requested
unfolding solve_settlement
solve_runs input requested baseline consumed cap output ec eo limit es = rw (ec, eo, limit, es) refl

calculate_runs :
    (keccak_256 : List ℕ → List ℕ) (input : DirectSettlementInput) (requested baseline consumed : ℕ)
    → to_uint256 input.requested_value ≡ ok requested
    → to_uint256 input.consumed_before ≡ ok consumed
    → to_uint256 input.capacity_baseline_value ≡ ok baseline
    → ltb baseline consumed ≡ false
    → check_commitments keccak_256 input baseline consumed ≡ ok tt
    → calculate_direct_settlement keccak_256 input
      ≡ solve_settlement input requested baseline consumed
unfolding calculate_direct_settlement
calculate_runs keccak_256 input requested baseline consumed er eu eb room checked =
    rw (er, eu, eb, room, checked) refl

solve_fills :
    (input : DirectSettlementInput) (requested baseline consumed cap : ℕ) (output : AssetValuation)
    → to_uint256 input.policy.maximum_transaction_value ≡ ok cap
    → find_asset input.trader_output_token input.portfolio.assets ≡ some output
    → settlement_limit requested cap (baseline - consumed) output.value ≡ requested
    → 0 < requested
    → ((n : ℕ) → 0 < n → n ≤ requested → evaluate_settlement input baseline consumed n ≡ ok true)
    → (r : DirectSettlementResult) × (solve_settlement input requested baseline consumed ≡ ok r)
      × (r.executed_value ≡ requested)
      × (r.binding_constraint ≡ unbound)
solve_fills input requested baseline consumed cap output ec eo limit positive safe =
    let (q, fees, s, _) =
      evaluate-true input baseline consumed requested (safe requested positive (omega arith)) in
    let (executed, es, found) = search_ends input requested baseline consumed requested in
    let full = search_reaches input requested baseline consumed executed requested found safe in
    let (r, er, filled, free) = result_returns input requested baseline consumed q fees s in
    (
      r,
      solve_runs input requested baseline consumed cap output ec eo limit (es ∙ ap ok full) ∙ er,
      filled,
      free,
    )

-- A settlement returns, fills the whole request and reports no binding constraint, when the checks
-- of the commitments pass, the request is positive and within the cap, the remaining capacity and
-- the output asset's value, and every positive value up to it evaluates as safe.
pub calculate_direct_settlement_fills :
    (keccak_256 : List ℕ → List ℕ) (input : DirectSettlementInput)
    (requested baseline consumed cap : ℕ) (output : AssetValuation)
    → to_uint256 input.requested_value ≡ ok requested
    → to_uint256 input.consumed_before ≡ ok consumed
    → to_uint256 input.capacity_baseline_value ≡ ok baseline
    → check_commitments keccak_256 input baseline consumed ≡ ok tt
    → to_uint256 input.policy.maximum_transaction_value ≡ ok cap
    → find_asset input.trader_output_token input.portfolio.assets ≡ some output
    → 0 < requested
    → requested ≤ cap
    → consumed + requested ≤ baseline
    → requested ≤ output.value
    → ((n : ℕ) → 0 < n → n ≤ requested → evaluate_settlement input baseline consumed n ≡ ok true)
    → (r : DirectSettlementResult) × (calculate_direct_settlement keccak_256 input ≡ ok r)
      × (r.executed_value ≡ requested)
      × (r.binding_constraint ≡ unbound)
calculate_direct_settlement_fills keccak_256 input requested baseline consumed cap output er eu eb
      checked ec eo positive within_cap within_capacity within_balance safe =
    let limit =
      limit_of requested cap (baseline - consumed) output.value within_cap (omega arith)
        within_balance in
    let (r, es, filled, free) =
      solve_fills input requested baseline consumed cap output ec eo limit positive safe in
    let room : ltb baseline consumed ≡ false = ground arith in
    (
      r,
      calculate_runs keccak_256 input requested baseline consumed er eu eb room checked ∙ es,
      filled,
      free,
    )
