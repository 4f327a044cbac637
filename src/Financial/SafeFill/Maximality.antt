-- ===== src/Financial/SafeFill/Maximality.antt =====
-- The fill that the bisection finds: within every limit, safe, and with no room for one unit more.
use aurka.Prelude.{
  ℕ, suc, ◌≤◌, ◌≡◌, refl, sym, ◌∙◌, ap, subst, ◌⊎◌, inl, inr, true, false, ok, arith, >>=-eq-ok,
  ok-injective, Returns,
}
use aurka.Prelude.Int.{pos}
use aurka.Bisect.{bisect_up}
use aurka.Bisect.Laws.{Highest, bisect_up-Highest}
use aurka.Financial.Integer.{bigint, to_uint256}
use aurka.Financial.Integer.Laws.{to_uint256_bigint}
use aurka.Financial.Policy.{FinancialPolicy, validate_policy}
use aurka.Financial.Portfolio.{AssetValuation, PortfolioValuation}
use aurka.Financial.Trade.{apply_trade}
use aurka.Financial.Constraints.{ConstraintEvaluation, unbound, evaluate_constraints}
use aurka.Financial.Constraints.Safety.{IsSafe, evaluate_constraints-safe}
use aurka.Financial.SafeFill.{
  Binding, fill_binding, fill_result, FillRequest, SafeFillResult, with_value, output_asset,
  evaluate_fill, fill_is_safe, fill_limit, find_maximum_safe_fill,
}

pub evaluate_amount :
    (p : PortfolioValuation) (policy : FinancialPolicy) (n : ℕ) {ev : ConstraintEvaluation}
    → evaluate_constraints p policy (bigint (pos n)) ≡ ok ev
    → to_uint256 (bigint (pos n)) ≡ ok n
unfolding evaluate_constraints
evaluate_amount p policy n e =
    let (_, _, e1) = >>=-eq-ok (validate_policy policy) _ e in
    let (a, ea, e2) = >>=-eq-ok (to_uint256 (bigint (pos n))) _ e1 in
    ea ∙ ap ok (to_uint256_bigint n ea)

module _ (p : PortfolioValuation) (policy : FinancialPolicy) (t : FillRequest) (n : ℕ) where
  -- What an answer of the bisection's test says of the portfolio after the fill.
  fill_is_safe-true :
      fill_is_safe p policy t n ≡ ok true
      → Returns (apply_trade p (with_value t n)) (λ q. IsSafe q policy n)
  unfolding evaluate_fill
  fill_is_safe-true e =
      let (ev, ee, es) = >>=-eq-ok (evaluate_fill p policy t n) _ e in
      let (q, eq, ec) = >>=-eq-ok (apply_trade p (with_value t n)) _ ee in
      let is_safe =
        evaluate_constraints-safe q policy (bigint (pos n)) n (evaluate_amount q policy n ec) ec in
      (q, eq, is_safe.0 (ok-injective es))

  fill_is_safe-false :
      fill_is_safe p policy t n ≡ ok false
      → Returns (apply_trade p (with_value t n)) (λ q. ¬ IsSafe q policy n)
  unfolding evaluate_fill
  fill_is_safe-false e =
      let (ev, ee, es) = >>=-eq-ok (evaluate_fill p policy t n) _ e in
      let (q, eq, ec) = >>=-eq-ok (apply_trade p (with_value t n)) _ ee in
      let is_safe =
        evaluate_constraints-safe q policy (bigint (pos n)) n (evaluate_amount q policy n ec) ec in
      let unsafe : ev.safe ≡ false = ok-injective es in (q, eq, λ h. cc (is_safe.1 h))

-- What the result promises, with the requested value, the cap and the output asset's value.
pub record IsMaximalFill (p : PortfolioValuation) (policy : FinancialPolicy) (t : FillRequest)
    (requested cap available : ℕ) (r : SafeFillResult) : Type 0 where
  pub requested_reads : r.requested ≡ requested
  pub within_request : r.maximum_safe_fill ≤ requested
  pub within_cap : r.maximum_safe_fill ≤ cap
  pub within_balance : r.maximum_safe_fill ≤ available
  pub applied : apply_trade p (with_value t r.maximum_safe_fill) ≡ ok r.post_trade
  pub safe : (r.maximum_safe_fill ≡ 0) ⊎ IsSafe r.post_trade policy r.maximum_safe_fill
  pub maximal :
      (r.maximum_safe_fill ≡ fill_limit requested cap available)
      ⊎ Returns
          (apply_trade p (with_value t (suc r.maximum_safe_fill)))
          (λ q. ¬ IsSafe q policy (suc r.maximum_safe_fill))
  pub full_is_unbound : r.maximum_safe_fill ≡ requested → r.binding_constraint ≡ unbound

fill_limit-le :
    (requested cap available : ℕ)
    → (fill_limit requested cap available ≤ requested)
      × (fill_limit requested cap available ≤ cap)
      × (fill_limit requested cap available ≤ available)
fill_limit-le requested cap available = ground arith

full_binding :
    (p : PortfolioValuation) (policy : FinancialPolicy) (t : FillRequest) (low requested : ℕ)
    (b : Binding)
    → fill_binding p policy t low requested ≡ ok b
    → low ≡ requested
    → b.constraint ≡ unbound
unfolding fill_binding
full_binding p policy t low requested b e full = ground arith

fill_result-inv :
    (p : PortfolioValuation) (policy : FinancialPolicy) (t : FillRequest) (requested low : ℕ)
    {r : SafeFillResult}
    → fill_result p policy t requested low ≡ ok r
    → (r.requested ≡ requested)
      × (r.maximum_safe_fill ≡ low)
      × (apply_trade p (with_value t low) ≡ ok r.post_trade)
      × (low ≡ requested → r.binding_constraint ≡ unbound)
unfolding fill_result
fill_result-inv p policy t requested low {r} e =
    let (q, eq, e1) = >>=-eq-ok (apply_trade p (with_value t low)) _ e in
    let (ev, ee, e2) = >>=-eq-ok (evaluate_constraints q policy (bigint (pos low))) _ e1 in
    let (b, eb, e3) = >>=-eq-ok (fill_binding p policy t low requested) _ e2 in
    subst
      (λ (s : SafeFillResult).
        (s.requested ≡ requested)
        × (s.maximum_safe_fill ≡ low)
        × (apply_trade p (with_value t low) ≡ ok s.post_trade)
        × (low ≡ requested → s.binding_constraint ≡ unbound))
      (ok-injective e3) (refl, refl, eq, full_binding p policy t low requested b eb)

module _ (p : PortfolioValuation) (policy : FinancialPolicy) (t : FillRequest)
    (requested cap available low : ℕ)
    (found : Highest (fill_is_safe p policy t) 0 (fill_limit requested cap available) low) where
  low_limits : (low ≤ requested) × (low ≤ cap) × (low ≤ available)
  low_limits = let bound = found.below in ground (arith, fill_limit-le requested cap available)

  low-IsSafe :
      (q : PortfolioValuation)
      → apply_trade p (with_value t low) ≡ ok q
      → (low ≡ 0) ⊎ IsSafe q policy low
  low-IsSafe q eq = elim found.passed [
    | inl none_filled ↦ inl none_filled
    | inr passed ↦
        let (q', eq', safe) = fill_is_safe-true p policy t low passed in
        inr (subst (λ x. IsSafe x policy low) (ok-injective (sym eq' ∙ eq)) safe)
  ]

  low_maximal :
      (low ≡ fill_limit requested cap available)
      ⊎ Returns (apply_trade p (with_value t (suc low))) (λ q. ¬ IsSafe q policy (suc low))
  low_maximal = elim found.next_failed [
    | inl full ↦ inl full
    | inr failed ↦ inr (fill_is_safe-false p policy t (suc low) failed)
  ]

  result-IsMaximalFill :
      {r : SafeFillResult}
      → fill_result p policy t requested low ≡ ok r
      → IsMaximalFill p policy t requested cap available r
  result-IsMaximalFill {r} e =
      let (er, el, eq, full) = fill_result-inv p policy t requested low e in
      let limits = low_limits in
      record {
        requested_reads = er;
        within_request = omega arith;
        within_cap = omega arith;
        within_balance = omega arith;
        applied = subst (λ n. apply_trade p (with_value t n) ≡ ok r.post_trade) (sym el) eq;
        safe =
            subst (λ n. (n ≡ 0) ⊎ IsSafe r.post_trade policy n) (sym el)
              (low-IsSafe r.post_trade eq);
        maximal =
            subst
              (λ n.
                (n ≡ fill_limit requested cap available)
                ⊎ Returns (apply_trade p (with_value t (suc n))) (λ q. ¬ IsSafe q policy (suc n)))
              (sym el) low_maximal;
        full_is_unbound = λ same. full (sym el ∙ same);
      }

-- Whenever a fill is returned, it is within the request, the cap and the balance; it is zero or
-- leaves a safe portfolio; and it is the limit itself or one unit more is unsafe. A fill of the
-- whole request reports no binding constraint.
pub find_maximum_safe_fill-IsMaximalFill :
    (p : PortfolioValuation) (policy : FinancialPolicy) (t : FillRequest) (requested cap : ℕ)
    (output : AssetValuation) {r : SafeFillResult}
    → to_uint256 t.requested ≡ ok requested
    → to_uint256 policy.maximum_transaction_value ≡ ok cap
    → output_asset p t.trader_output_token ≡ ok output
    → find_maximum_safe_fill p policy t ≡ ok r
    → IsMaximalFill p policy t requested cap output.value r
unfolding find_maximum_safe_fill
find_maximum_safe_fill-IsMaximalFill p policy t requested cap output {r} er ecap eout e =
    let limit = fill_limit requested cap output.value in
    let (_, ev, e1) = >>=-eq-ok (validate_policy policy) _ e in
    let (low, el, e2) =
      >>=-eq-ok (bisect_up (fill_is_safe p policy t) limit 0 limit) _ (rw (er, ecap, eout) at e1) in
    result-IsMaximalFill p policy t requested cap output.value low
      (bisect_up-Highest (fill_is_safe p policy t) limit 0 limit (omega arith) (omega arith) el) e2
