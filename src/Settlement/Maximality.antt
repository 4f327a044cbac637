-- ===== src/Settlement/Maximality.antt =====
-- The fill that a settlement executes: within every limit, safe, and with no room for one unit more.
use aurka.Prelude.{
  ℕ, suc, ◌+◌, ◌-◌, ◌≤◌, ◌≡◌, refl, sym, ◌∙◌, ap, subst, ◌⊎◌, inl, inr, Bool, true, false, List,
  some, none, Option, Result, ok, err, arith, >>=-eq-ok, ok-injective, throw_if_inv, catch, ltb,
}
use aurka.Prelude.Int.{pos, sub_ℕ}
use aurka.Errors.{Error, consumed_exceeds_capacity}
use aurka.Bisect.{bisect_up}
use aurka.Bisect.Laws.{Highest, bisect_up-Highest}
use aurka.Financial.Integer.{bigint, to_uint256}
use aurka.Financial.Portfolio.{AssetValuation, PortfolioValuation}
use aurka.Financial.Constraints.{unbound, evaluate_constraints}
use aurka.Financial.Constraints.Safety.{IsSafe, evaluate_constraints-safe}
use aurka.Financial.SafeFill.{Binding}
use aurka.Financial.SafeFill.Maximality.{evaluate_amount}
use aurka.Financial.Capacity.{calculate_utilization}
use aurka.Financial.Fees.{FeeDistribution, calculate_option_space_fee}
use aurka.Settlement.{
  DirectSettlementInput, DirectSettlementResult, fee_for, post_trade_for, find_asset,
  required_asset, evaluate_settlement, settlement_is_safe, settlement_binding, settlement_limit,
  settlement_result, solve_settlement, check_commitments, calculate_direct_settlement,
}

catch-true : (m : Result Error Bool) → catch m false ≡ true → m ≡ ok true
catch-true (ok b) e = ap ok e
catch-true (err x) e = cc

catch-false : (m : Result Error Bool) → catch m false ≡ false → m ≡ ok true → ⊥
catch-false (ok b) e e' = cc
catch-false (err x) e e' = cc

required_asset-inv :
    (o : Option AssetValuation) {a : AssetValuation} → required_asset o ≡ ok a → o ≡ some a
required_asset-inv none e = cc
required_asset-inv (some b) e = ap some (ok-injective e)

not_above : (baseline consumed : ℕ) → ltb baseline consumed ≡ false → consumed ≤ baseline
not_above baseline consumed h = ground arith

module _ (input : DirectSettlementInput) (baseline consumed : ℕ) where
  -- The fees of the value and the portfolio after it.
  pub record Settles (value : ℕ) (q : PortfolioValuation) (fees : FeeDistribution) : Type 0 where
    pub charged : fee_for value input.fee consumed (consumed + value) baseline ≡ ok fees
    pub applied :
        post_trade_for input.portfolio input.trader_input_token input.trader_output_token value fees
        ≡ ok q

  pub evaluate-true :
      (value : ℕ)
      → evaluate_settlement input baseline consumed value ≡ ok true
      → (q : PortfolioValuation) × (fees : FeeDistribution) × Settles value q fees
        × IsSafe q input.policy value
  unfolding evaluate_settlement
  evaluate-true value e =
      let (fees, ef, e1) =
        >>=-eq-ok (fee_for value input.fee consumed (consumed + value) baseline) _ e in
      let (q, eq, e2) =
        >>=-eq-ok
          (post_trade_for input.portfolio input.trader_input_token input.trader_output_token value
            fees)
          _ e1 in
      let (ev, ec, e3) =
        >>=-eq-ok (evaluate_constraints q input.policy (bigint (pos value))) _ e2 in
      let is_safe =
        evaluate_constraints-safe q input.policy (bigint (pos value)) value
          (evaluate_amount q input.policy value ec) ec in
      (q, fees, record { charged = ef; applied = eq }, is_safe.0 (ok-injective e3))

  -- Both computations give one portfolio.
  settles_safely :
      (value : ℕ) (q : PortfolioValuation) (fees : FeeDistribution)
      → Settles value q fees
      → evaluate_settlement input baseline consumed value ≡ ok true
      → IsSafe q input.policy value
  settles_safely value q fees s e =
      let (q', fees', s', safe) = evaluate-true value e in
      let same_fees : fees' ≡ fees = ok-injective (sym s'.charged ∙ s.charged) in
      let applied =
        subst
          (λ f.
            post_trade_for input.portfolio input.trader_input_token input.trader_output_token value
              f
            ≡ ok q')
          same_fees s'.applied in
      subst (λ x. IsSafe x input.policy value) (ok-injective (sym applied ∙ s.applied)) safe

  -- What a result promises, with the requested value, the cap and the output asset's value.
  pub record IsMaximalSettlement (requested cap available : ℕ) (r : DirectSettlementResult)
      : Type 0 where
    pub requested_reads : r.requested_value ≡ requested
    pub consumed_reads : r.consumed_before ≡ consumed
    pub baseline_reads : r.capacity_baseline_value ≡ baseline
    pub within_request : r.executed_value ≤ requested
    pub within_cap : r.executed_value ≤ cap
    pub within_balance : r.executed_value ≤ available
    pub consumption : r.consumed_after ≡ consumed + r.executed_value
    pub within_capacity : r.consumed_after ≤ baseline
    pub trader_output : r.trader_output_value ≡ sub_ℕ r.executed_value r.fees.total_fee_amount
    pub treasury_output : r.treasury_output_value ≡ sub_ℕ r.executed_value r.fees.treasury_amount
    pub initial_reads : r.initial_portfolio ≡ input.portfolio
    pub settled : Settles r.executed_value r.final_portfolio r.fees
    pub safe : (r.executed_value ≡ 0) ⊎ IsSafe r.final_portfolio input.policy r.executed_value
    pub maximal :
        (r.executed_value ≡ settlement_limit requested cap (baseline - consumed) available)
        ⊎ ¬ (evaluate_settlement input baseline consumed (suc r.executed_value) ≡ ok true)
    pub full_is_unbound : r.executed_value ≡ requested → r.binding_constraint ≡ unbound

  settlement_limit-le :
      (requested cap remaining available : ℕ)
      → (settlement_limit requested cap remaining available ≤ requested)
        × (settlement_limit requested cap remaining available ≤ cap)
        × (settlement_limit requested cap remaining available ≤ remaining)
        × (settlement_limit requested cap remaining available ≤ available)
  settlement_limit-le requested cap remaining available = ground arith

  full_binding :
      (executed requested : ℕ) (b : Binding)
      → settlement_binding input baseline consumed executed requested ≡ ok b
      → executed ≡ requested
      → b.constraint ≡ unbound
  unfolding settlement_binding
  full_binding executed requested b e full = ground arith

  -- The fields of a result that ended at `executed`.
  record Reports (requested executed : ℕ) (r : DirectSettlementResult) : Type 0 where
    pub requested_is : r.requested_value ≡ requested
    pub consumed_is : r.consumed_before ≡ consumed
    pub baseline_is : r.capacity_baseline_value ≡ baseline
    pub executed_is : r.executed_value ≡ executed
    pub after_is : r.consumed_after ≡ consumed + executed
    pub settled_is : Settles executed r.final_portfolio r.fees
    pub trader_is : r.trader_output_value ≡ sub_ℕ executed r.fees.total_fee_amount
    pub treasury_is : r.treasury_output_value ≡ sub_ℕ executed r.fees.treasury_amount
    pub initial_is : r.initial_portfolio ≡ input.portfolio
    pub unbound_is : executed ≡ requested → r.binding_constraint ≡ unbound

  settlement_result-Reports :
      (requested executed : ℕ) {r : DirectSettlementResult}
      → settlement_result input requested baseline consumed executed ≡ ok r
      → Reports requested executed r
  unfolding settlement_result
  settlement_result-Reports requested executed {r} e =
      let (fees, ef, e1) =
        >>=-eq-ok (fee_for executed input.fee consumed (consumed + executed) baseline) _ e in
      let (q, eq, e2) =
        >>=-eq-ok
          (post_trade_for input.portfolio input.trader_input_token input.trader_output_token
            executed fees)
          _ e1 in
      let (before, _, e3) =
        >>=-eq-ok (calculate_utilization (bigint (pos consumed)) (bigint (pos baseline))) _ e2 in
      let (after, _, e4) =
        >>=-eq-ok
          (calculate_utilization (bigint (pos (consumed + executed))) (bigint (pos baseline))) _
          e3 in
      let (option, _, e5) =
        >>=-eq-ok
          (calculate_option_space_fee input.fee.base_fee_bps input.fee.slope_bps
            (bigint (pos before)) (bigint (pos after)) input.fee.maximum_fee_bps)
          _ e4 in
      let (b, eb, e6) =
        >>=-eq-ok (settlement_binding input baseline consumed executed requested) _ e5 in
      subst (Reports requested executed) (ok-injective e6) (record {
        requested_is = refl;
        consumed_is = refl;
        baseline_is = refl;
        executed_is = refl;
        after_is = refl;
        settled_is = record { charged = ef; applied = eq };
        trader_is = refl;
        treasury_is = refl;
        initial_is = refl;
        unbound_is = full_binding executed requested b eb;
      })

  module _ (requested cap available executed : ℕ) (room : consumed ≤ baseline)
      (found : Highest
        (settlement_is_safe input baseline consumed)
        0
        (settlement_limit requested cap (baseline - consumed) available)
        executed) where
    executed-IsSafe :
        {r : DirectSettlementResult}
        → Reports requested executed r
        → (executed ≡ 0) ⊎ IsSafe r.final_portfolio input.policy executed
    executed-IsSafe {r} s = elim found.passed [
      | inl none_filled ↦ inl none_filled
      | inr passed ↦ inr (
          settles_safely executed r.final_portfolio r.fees s.settled_is (
            catch-true (evaluate_settlement input baseline consumed executed)
              (ok-injective passed)))
    ]

    executed_maximal :
        (executed ≡ settlement_limit requested cap (baseline - consumed) available)
        ⊎ ¬ (evaluate_settlement input baseline consumed (suc executed) ≡ ok true)
    executed_maximal = elim found.next_failed [
      | inl full ↦ inl full
      | inr failed ↦ inr (
          catch-false (evaluate_settlement input baseline consumed (suc executed))
            (ok-injective failed))
    ]

    result-IsMaximalSettlement :
        {r : DirectSettlementResult}
        → Reports requested executed r
        → IsMaximalSettlement requested cap available r
    result-IsMaximalSettlement {r} s =
        let back : executed ≡ r.executed_value = sym s.executed_is in
        let limits = settlement_limit-le requested cap (baseline - consumed) available in
        let bound = found.below in
        record {
          requested_reads = s.requested_is;
          consumed_reads = s.consumed_is;
          baseline_reads = s.baseline_is;
          within_request = omega (arith, s.executed_is);
          within_cap = omega (arith, s.executed_is);
          within_balance = omega (arith, s.executed_is);
          consumption = omega (arith, s.executed_is, s.after_is);
          within_capacity = omega (arith, s.after_is);
          trader_output =
              subst (λ n. r.trader_output_value ≡ sub_ℕ n r.fees.total_fee_amount) back s.trader_is;
          treasury_output =
              subst (λ n. r.treasury_output_value ≡ sub_ℕ n r.fees.treasury_amount) back
                s.treasury_is;
          initial_reads = s.initial_is;
          settled = subst (λ n. Settles n r.final_portfolio r.fees) back s.settled_is;
          safe =
              subst (λ n. (n ≡ 0) ⊎ IsSafe r.final_portfolio input.policy n) back
                (executed-IsSafe s);
          maximal =
              subst
                (λ n.
                  (n ≡ settlement_limit requested cap (baseline - consumed) available)
                  ⊎ ¬ (evaluate_settlement input baseline consumed (suc n) ≡ ok true))
                back executed_maximal;
          full_is_unbound = λ same. s.unbound_is (back ∙ same);
        }

  solve-IsMaximal :
      (requested : ℕ) {r : DirectSettlementResult}
      → consumed ≤ baseline
      → solve_settlement input requested baseline consumed ≡ ok r
      → (cap : ℕ) × (output : AssetValuation) × (to_uint256 input.policy.maximum_transaction_value
          ≡ ok cap)
        × (find_asset input.trader_output_token input.portfolio.assets ≡ some output)
        × IsMaximalSettlement requested cap output.value r
  unfolding solve_settlement
  solve-IsMaximal requested {r} room e =
      let (cap, ec, e1) = >>=-eq-ok (to_uint256 input.policy.maximum_transaction_value) _ e in
      let asset = find_asset input.trader_output_token input.portfolio.assets in
      let (output, eo, e2) = >>=-eq-ok (required_asset asset) _ e1 in
      let limit = settlement_limit requested cap (baseline - consumed) output.value in
      let test = settlement_is_safe input baseline consumed in
      let (executed, el, e3) = >>=-eq-ok (bisect_up test limit 0 limit) _ e2 in
      (
        cap,
        output,
        ec,
        required_asset-inv asset eo,
        result-IsMaximalSettlement requested cap output.value executed room
            (bisect_up-Highest test limit 0 limit (omega arith) (omega arith) el)
            (settlement_result-Reports requested executed e3),
      )

-- Whenever a settlement is returned, the executed value is within the request, the transaction cap,
-- what the epoch's capacity has left and the output asset's value; the consumption after it is the
-- sum and within the baseline; its fees and its final portfolio are those that the fee and trade
-- functions return for it; it is zero or the final portfolio is inside every policy bound; it is the
-- smallest of the four limits or one unit more throws or is unsafe; and a full fill reports no
-- binding constraint.
pub calculate_direct_settlement-IsMaximal :
    (keccak_256 : List ℕ → List ℕ) (input : DirectSettlementInput) {r : DirectSettlementResult}
    → calculate_direct_settlement keccak_256 input ≡ ok r
    → (requested : ℕ) × (baseline : ℕ) × (consumed : ℕ) × (cap : ℕ) × (output : AssetValuation)
      × (to_uint256 input.requested_value ≡ ok requested)
      × (to_uint256 input.capacity_baseline_value ≡ ok baseline)
      × (to_uint256 input.consumed_before ≡ ok consumed)
      × (to_uint256 input.policy.maximum_transaction_value ≡ ok cap)
      × (find_asset input.trader_output_token input.portfolio.assets ≡ some output)
      × IsMaximalSettlement input baseline consumed requested cap output.value r
unfolding calculate_direct_settlement
calculate_direct_settlement-IsMaximal keccak_256 input {r} e =
    let (requested, er, e1) = >>=-eq-ok (to_uint256 input.requested_value) _ e in
    let (consumed, eu, e2) = >>=-eq-ok (to_uint256 input.consumed_before) _ e1 in
    let (baseline, eb, e3) = >>=-eq-ok (to_uint256 input.capacity_baseline_value) _ e2 in
    let (room, e4) = throw_if_inv (ltb baseline consumed) consumed_exceeds_capacity _ e3 in
    let (_, _, e5) = >>=-eq-ok (check_commitments keccak_256 input baseline consumed) _ e4 in
    let (cap, output, ec, eo, h) =
      solve-IsMaximal input baseline consumed requested (not_above baseline consumed room) e5 in
    (requested, baseline, consumed, cap, output, er, eb, eu, ec, eo, h)
