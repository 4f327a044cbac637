-- ===== src/Settlement/Accounting.antt =====
-- Where the executed value of a settlement goes, and what it does to the portfolio.
use aurka.Prelude.{
  ℕ, ◌+◌, ◌-◌, ◌*◌, ◌≤◌, ◌<◌, ◌≡◌, refl, sym, ◌∙◌, ap, subst, inl, inr, List, ok, arith, >>=-eq-ok,
}
use aurka.Prelude.Int.{pos, sub_ℕ}
use aurka.Financial.Integer.{bigint, to_uint256}
use aurka.Financial.Integer.Laws.{to_uint256_bigint}
use aurka.Financial.Portfolio.{PortfolioValuation}
use aurka.Financial.Portfolio.Valued.{IsValued}
use aurka.Financial.Trade.Laws.{KeepsTreasuryFee, apply_fee_inclusive_trade-IsValued}
use aurka.Financial.Capacity.{calculate_utilization}
use aurka.Financial.Fees.{FeeDistribution, FeeDistributionInput, distribute_fees}
use aurka.Financial.Fees.Distribution.{distribute_fees-IsDistribution}
use aurka.Settlement.{
  FinancialFeeConfig, DirectSettlementInput, DirectSettlementResult, fee_for, post_trade_for,
  trade_fees, calculate_direct_settlement,
}
use aurka.Settlement.Maximality.{calculate_direct_settlement-IsMaximal}

distribute_value :
    (input : FeeDistributionInput) (value : ℕ) {d : FeeDistribution}
    → input.trade_value ≡ bigint (pos value)
    → distribute_fees input ≡ ok d
    → to_uint256 input.trade_value ≡ ok value
unfolding distribute_fees
distribute_value input value same e =
    let (v, ev, _) = >>=-eq-ok (to_uint256 input.trade_value) _ e in
    ev ∙ ap ok (to_uint256_bigint value (ap to_uint256 (sym same) ∙ ev))

-- The split of the fee, for the value.
abbrev SplitsFee : ℕ → FeeDistribution → Type 0
SplitsFee value d =
    (d.treasury_amount + d.solver_amount + d.protocol_amount ≡ d.total_fee_amount)
    × (100 * d.total_fee_amount < value + 100)

distribute_fees-SplitsFee :
    (input : FeeDistributionInput) (value : ℕ) {d : FeeDistribution}
    → input.trade_value ≡ bigint (pos value)
    → distribute_fees input ≡ ok d
    → SplitsFee value d
distribute_fees-SplitsFee input value same e =
    let (_, _, h, bound) =
      distribute_fees-IsDistribution input value (distribute_value input value same e) e in
    (h.total_split, bound)

fee_for-SplitsFee :
    (value : ℕ) (fee : FinancialFeeConfig) (before after baseline : ℕ) {d : FeeDistribution}
    → fee_for value fee before after baseline ≡ ok d
    → SplitsFee value d
unfolding fee_for
fee_for-SplitsFee value fee before after baseline e =
    let (u, _, e1) =
      >>=-eq-ok (calculate_utilization (bigint (pos before)) (bigint (pos baseline))) _ e in
    let (v, _, e2) =
      >>=-eq-ok (calculate_utilization (bigint (pos after)) (bigint (pos baseline))) _ e1 in
    distribute_fees-SplitsFee _ value refl e2

-- The legs of the output: what the trader is paid, the external fees, and what the treasury keeps.
pub record IsAccounted (r : DirectSettlementResult) : Type 0 where
  pub paid : ℕ
  pub leaving : ℕ
  pub trader_reads : r.trader_output_value ≡ pos paid
  pub treasury_reads : r.treasury_output_value ≡ pos leaving
  pub trader_leg : paid + r.fees.total_fee_amount ≡ r.executed_value
  pub external_legs : paid + r.fees.solver_amount + r.fees.protocol_amount ≡ leaving
  pub treasury_leg : leaving + r.fees.treasury_amount ≡ r.executed_value
  pub fee_bound : 100 * r.fees.total_fee_amount < r.executed_value + 100

sub_ℕ-pos : (a b : ℕ) → b ≤ a → sub_ℕ a b ≡ pos (a - b)
sub_ℕ-pos a b h = ground arith

IsAccounted-of :
    (r : DirectSettlementResult)
    → r.trader_output_value ≡ sub_ℕ r.executed_value r.fees.total_fee_amount
    → r.treasury_output_value ≡ sub_ℕ r.executed_value r.fees.treasury_amount
    → SplitsFee r.executed_value r.fees
    → IsAccounted r
IsAccounted-of r et ey (split, bound) =
    let fits : r.fees.total_fee_amount ≤ r.executed_value = omega arith in
    let fits' : r.fees.treasury_amount ≤ r.executed_value = omega arith in
    record {
      paid = r.executed_value - r.fees.total_fee_amount;
      leaving = r.executed_value - r.fees.treasury_amount;
      trader_reads = et ∙ sub_ℕ-pos r.executed_value r.fees.total_fee_amount fits;
      treasury_reads = ey ∙ sub_ℕ-pos r.executed_value r.fees.treasury_amount fits';
      trader_leg = omega arith;
      external_legs = omega arith;
      treasury_leg = omega arith;
      fee_bound = bound;
    }

-- Whenever a settlement is returned, the executed value is what the trader is paid and the whole fee;
-- what leaves the treasury is the trader's part and the solver's and the protocol's fees, and with
-- the treasury's own fee it is the executed value; neither difference is negative; and the fee is at
-- most one hundredth of the executed value, rounded up.
pub calculate_direct_settlement-IsAccounted :
    (keccak_256 : List ℕ → List ℕ) (input : DirectSettlementInput) {r : DirectSettlementResult}
    → calculate_direct_settlement keccak_256 input ≡ ok r
    → IsAccounted r
calculate_direct_settlement-IsAccounted keccak_256 input {r} e =
    let (_, baseline, consumed, _, _, _, _, _, _, _, h) =
      calculate_direct_settlement-IsMaximal keccak_256 input e in
    IsAccounted-of r h.trader_output h.treasury_output
      (fee_for-SplitsFee r.executed_value input.fee consumed _ baseline h.settled.charged)

trade_keeps :
    (value : ℕ) (p q : PortfolioValuation) (d : FeeDistribution)
    → SplitsFee value d
    → KeepsTreasuryFee p (trade_fees d) q
    → IsValued q × (q.nav ≡ p.nav + d.treasury_amount)
trade_keeps value p q d (split, _) (valued, nav) = (valued, omega arith)

post_trade_for-IsValued :
    (p : PortfolioValuation) (input output : List ℕ) (value : ℕ) (d : FeeDistribution)
    {q : PortfolioValuation}
    → IsValued p
    → SplitsFee value d
    → post_trade_for p input output value d ≡ ok q
    → IsValued q × (q.nav ≡ p.nav + d.treasury_amount)
unfolding post_trade_for
post_trade_for-IsValued p input output value d {q} h (split, bound) e =
    elim (apply_fee_inclusive_trade-IsValued p _ (trade_fees d) h e) [
      | inl kept ↦ trade_keeps value p q d (split, bound) kept
      | inr (none_moved, same) ↦
          let zero_value : 0 ≡ value = to_uint256_bigint value none_moved in
          let same_nav : q.nav ≡ p.nav = ap (λ x. x.nav) same in
          (subst IsValued (sym same) h, omega arith)
    ]

-- From a valued portfolio, a returned settlement ends in a valued portfolio: its NAV is the sum of
-- its values and every weight is the rounded-up share. The NAV grows by the treasury's fee, and by
-- nothing else.
pub calculate_direct_settlement-IsValued :
    (keccak_256 : List ℕ → List ℕ) (input : DirectSettlementInput) {r : DirectSettlementResult}
    → IsValued input.portfolio
    → calculate_direct_settlement keccak_256 input ≡ ok r
    → IsValued r.final_portfolio
      × (r.final_portfolio.nav ≡ r.initial_portfolio.nav + r.fees.treasury_amount)
calculate_direct_settlement-IsValued keccak_256 input {r} valued e =
    let (_, baseline, consumed, _, _, _, _, _, _, _, h) =
      calculate_direct_settlement-IsMaximal keccak_256 input e in
    let split =
      fee_for-SplitsFee r.executed_value input.fee consumed _ baseline h.settled.charged in
    let (v, nav) =
      post_trade_for-IsValued input.portfolio _ _ r.executed_value r.fees valued split
        h.settled.applied in
    (v, nav ∙ ap (λ p. p.nav + r.fees.treasury_amount) (sym h.initial_reads))
