-- ===== src/Financial/Portfolio/Valued.antt =====
-- The invariant of a valued portfolio: its NAV is the sum of its values, and every weight is the
-- value's share of the NAV, rounded up.
use aurka.Prelude.{
  ℕ, ◌+◌, ◌<◌, ◌≡◌, refl, List, [], ◌∷◌, ok, arith, >>=-eq-ok, ok-injective, throw_if_inv, subst,
  sym, ◌∙◌, All, sum_of, ◌==◌, true,
}
use aurka.Errors.{nav_not_positive, empty_portfolio}
use aurka.Financial.Integer.{Num}
use aurka.Financial.Checked.{checked_add}
use aurka.Financial.Checked.Laws.{checked_add-eq-ok}
use aurka.Financial.Weight.{weight_bps}
use aurka.Financial.Weight.Laws.{IsCeilingWeight, weight_bps-IsCeilingWeight}
use aurka.Financial.Portfolio.{
  AssetValuation, PortfolioValuation, FinancialAssetInput, total_value, weigh_assets, value_assets,
  calculate_portfolio_valuation, is_empty,
}

abbrev pub total : List AssetValuation → ℕ
total = sum_of (λ a. a.value)

abbrev pub IsWeighed : ℕ → AssetValuation → Type 0
IsWeighed nav a = IsCeilingWeight a.value nav a.weight_bps

pub record IsValued (p : PortfolioValuation) : Type 0 where
  pub nav_is_total : p.nav ≡ total p.assets
  pub nav_positive : 0 < p.nav
  pub weighed : All (IsWeighed p.nav) p.assets

pub total_value-inv :
    (s : ℕ) (xs : List AssetValuation) {n : ℕ} → total_value s xs ≡ ok n → n ≡ s + total xs
unfolding total_value
total_value-inv s [] e = omega (arith, ok-injective e)
total_value-inv s (x ∷ xs) e =
    let (next, en, rest) = >>=-eq-ok (checked_add s x.value) _ e in
    omega (arith, checked_add-eq-ok s x.value en, total_value-inv next xs rest)

abbrev pub Weighing : ℕ → List AssetValuation → List AssetValuation → Type 0
Weighing nav xs ys = (total ys ≡ total xs) × All (IsWeighed nav) ys

pub weigh_assets-inv :
    (nav : ℕ) (xs : List AssetValuation) {ys : List AssetValuation}
    → weigh_assets nav xs ≡ ok ys
    → Weighing nav xs ys
unfolding weigh_assets
weigh_assets-inv nav [] {ys} e = subst (Weighing nav []) (ok-injective e) (refl, tt)
weigh_assets-inv nav (x ∷ xs) {ys} e =
    let (w, ew, e1) = >>=-eq-ok (weight_bps x.value nav true) _ e in
    let (others, eo, e2) = >>=-eq-ok (weigh_assets nav xs) _ e1 in
    let (v, ev, good) = weight_bps-IsCeilingWeight x.value nav in
    let same : v ≡ w = ok-injective (sym ev ∙ ew) in
    let (sum, rest) = weigh_assets-inv nav xs eo in
    subst (Weighing nav (x ∷ xs)) (ok-injective e2)
      (omega (arith, sum), (subst (IsCeilingWeight x.value nav) same good, rest))

pub calculate_portfolio_valuation-IsValued :
    (inputs : List FinancialAssetInput) (d : Num) {p : PortfolioValuation}
    → calculate_portfolio_valuation inputs d ≡ ok p
    → IsValued p
unfolding calculate_portfolio_valuation
calculate_portfolio_valuation-IsValued inputs d e =
    let (_, e1) = throw_if_inv (is_empty inputs) empty_portfolio _ e in
    let (raw, er, e2) = >>=-eq-ok (value_assets [] inputs d) _ e1 in
    let (nav, en, e3) = >>=-eq-ok (total_value 0 raw) _ e2 in
    let (some_value, e4) = throw_if_inv (nav == 0) nav_not_positive _ e3 in
    let (valued, ev, e5) = >>=-eq-ok (weigh_assets nav raw) _ e4 in
    let (sum, weighed) = weigh_assets-inv nav raw ev in
    subst IsValued (ok-injective e5) (record {
      nav_is_total = omega (arith, total_value-inv 0 raw en);
      nav_positive = ground arith;
      weighed = weighed;
    })
