-- ===== src/Financial/Trade/Laws.antt =====
-- A trade moves value between two assets and neither makes nor loses any.
use aurka.Prelude.{
  ℕ, suc, ◌+◌, ◌-◌, ◌≤◌, ◌<◌, ◌≡◌, refl, sym, ◌∙◌, ap, subst, ◌≢◌, List, [], ◌∷◌, Option, none,
  some, Bool, false, ◌&&◌, ◌||◌, Result, ok, err, arith, >>=-eq-ok, ok-injective, throw_if_inv, ltb,
  leb, ◌==◌, if◌then◌else◌, length, get_elem?, Bool-cases, inl, inr, ◌⊎◌,
}
use aurka.Prelude.Text.{Text, text_eq, text_eq_refl, text_eq→eq}
use aurka.Errors.{Error, trade_assets_equal, lookup_failed, fee_exceeds_output, nav_not_positive}
use aurka.Financial.Integer.{to_uint256}
use aurka.Financial.Checked.{checked_add}
use aurka.Financial.Checked.Laws.{checked_add-eq-ok, checked_sub-eq-ok}
use aurka.Financial.Policy.{normalize_token}
use aurka.Financial.Portfolio.{
  AssetValuation, PortfolioValuation, total_value, weigh_assets, find_index, asset_index,
}
use aurka.Financial.Portfolio.Valued.{total, IsValued, total_value-inv, weigh_assets-inv}
use aurka.Financial.Trade.{
  ValueTrade, TradeFees, is_missing, trade_indices, shift_value, shift_assets, move_value,
  apply_trade, move_value_after_fees, apply_fee_inclusive_trade,
}

-- `i` is an index of a list of `n` assets that starts at `index`.
abbrev in_range : (i index n : ℕ) → Bool
in_range i index n = leb index i && ltb i (index + n)

abbrev amount_if : Bool → ℕ → ℕ
amount_if b n = if b then n else 0

shift_value-inv :
    (i o added taken index value : ℕ) {v : ℕ}
    → i ≢ o
    → shift_value i o added taken index value ≡ ok v
    → v + amount_if (index == o) taken ≡ value + amount_if (index == i) added
unfolding shift_value
shift_value-inv i o added taken index value {v} ne e =
    ground (arith, checked_add-eq-ok value added {c = v}, checked_sub-eq-ok value taken {c = v})

-- The sum of the values, with what is taken, is the sum before with what is added.
shift_assets-total :
    (i o added taken index : ℕ) (xs : List AssetValuation) {ys : List AssetValuation}
    → i ≢ o
    → shift_assets i o added taken index xs ≡ ok ys
    → total ys + amount_if (in_range o index (length xs)) taken
      ≡ total xs + amount_if (in_range i index (length xs)) added
unfolding shift_assets
shift_assets-total i o added taken index [] {ys} ne e = rw (← ok-injective e) (ground arith)
shift_assets-total i o added taken index (x ∷ xs) {ys} ne e =
    let (v, ev, e1) = >>=-eq-ok (shift_value i o added taken index x.value) _ e in
    let (others, eo, e2) = >>=-eq-ok (shift_assets i o added taken (suc index) xs) _ e1 in
    rw (← ok-injective e2) (
      ground (
        arith,
        shift_value-inv i o added taken index x.value ne ev,
        shift_assets-total i o added taken (suc index) xs ne eo,
      ))

find_index-inv :
    (token : Text) (xs : List AssetValuation) {i : ℕ}
    → find_index token xs ≡ ok i
    → (i < length xs)
      × (a : AssetValuation) × (get_elem? xs i ≡ some a)
      × (normalize_token a.token ≡ ok token)
unfolding find_index
find_index-inv token [] e = cc
find_index-inv token (x ∷ xs) {i} e =
    let (t, et, e1) = >>=-eq-ok (normalize_token x.token) _ e in
    elim (Bool-cases (text_eq t token)) [
      | inl here ↦
          let first : i ≡ 0 = sym (ok-injective (rw here at e1)) in
          rw first (omega arith, x, refl, et ∙ ap ok (text_eq→eq t token here))
      | inr later ↦
          let (j, ej, e2) = >>=-eq-ok (find_index token xs) _ (rw later at e1) in
          let next : i ≡ suc j = sym (ok-injective e2) in
          let (lt, a, ea, et') = find_index-inv token xs ej in rw next (omega arith, a, ea, et')
    ]

asset_index-inv :
    (p : PortfolioValuation) (token : Text) {i : ℕ}
    → asset_index p token ≡ ok i
    → (i < length p.assets)
      × (a : AssetValuation) × (get_elem? p.assets i ≡ some a)
      × (normalize_token a.token ≡ normalize_token token)
unfolding asset_index
asset_index-inv p token e =
    let (n, en, found) = >>=-eq-ok (normalize_token token) _ e in
    let (lt, a, ea, et) = find_index-inv n p.assets found in (lt, a, ea, et ∙ sym en)

token_of : Option AssetValuation → Result Error Text
token_of none = err lookup_failed
token_of (some a) = normalize_token a.token

distinct_indices :
    (xs : List AssetValuation) (i o : ℕ) (a b : AssetValuation) (it ot : Text)
    → get_elem? xs i ≡ some a
    → normalize_token a.token ≡ ok it
    → get_elem? xs o ≡ some b
    → normalize_token b.token ≡ ok ot
    → text_eq it ot ≡ false
    → i ≢ o
unfolding token_of
distinct_indices xs i o a b it ot ea eta eb etb differ same =
    let same_asset : some a ≡ some b = sym ea ∙ ap (get_elem? xs) same ∙ eb in
    let same_token : it ≡ ot =
      ok-injective (sym eta ∙ ap (λ (x : Option AssetValuation). token_of x) same_asset ∙ etb) in
    cc (text_eq_refl it)

-- The two indices of a trade are different and lie in the list.
pub trade_indices-inv :
    (p : PortfolioValuation) (t : ValueTrade) {i : ℕ × ℕ}
    → trade_indices p t ≡ ok i
    → (i.0 ≢ i.1) × (i.0 < length p.assets) × (i.1 < length p.assets)
unfolding trade_indices
trade_indices-inv p t {i} e =
    let (it, eit, e1) = >>=-eq-ok (normalize_token t.trader_input_token) _ e in
    let (ot, eot, e2) = >>=-eq-ok (normalize_token t.trader_output_token) _ e1 in
    let (differ, e3) = throw_if_inv (text_eq it ot) trade_assets_equal _ e2 in
    let (ii, ei, e4) = >>=-eq-ok (asset_index p t.trader_input_token) _ e3 in
    let (oi, eo, e5) = >>=-eq-ok (asset_index p t.trader_output_token) _ e4 in
    let (_, e6) =
      throw_if_inv (is_missing (get_elem? p.assets ii) || is_missing (get_elem? p.assets oi))
        lookup_failed _ e5 in
    let (in_lt, a, ea, eta) = asset_index-inv p t.trader_input_token ei in
    let (out_lt, b, eb, etb) = asset_index-inv p t.trader_output_token eo in
    subst (λ (r : ℕ × ℕ). (r.0 ≢ r.1) × (r.0 < length p.assets) × (r.1 < length p.assets))
      (ok-injective e6)
      (
        distinct_indices p.assets ii oi a b it ot ea (eta ∙ eit) eb (etb ∙ eot) differ,
        in_lt,
        out_lt,
      )

-- What both operations do to the sum of the values.
shift-total :
    (p : PortfolioValuation) (t : ValueTrade) (added taken : ℕ) {i : ℕ × ℕ}
    {ys : List AssetValuation}
    → trade_indices p t ≡ ok i
    → shift_assets i.0 i.1 added taken 0 p.assets ≡ ok ys
    → total ys + taken ≡ total p.assets + added
shift-total p t added taken {i} {ys} ei ey =
    let (ne, in_lt, out_lt) = trade_indices-inv p t ei in
    let sums = shift_assets-total i.0 i.1 added taken 0 p.assets ne ey in ground arith

-- The balance of a trade with fees: what is gained is the fee share that the treasury keeps.
abbrev pub KeepsTreasuryFee : PortfolioValuation → TradeFees → PortfolioValuation → Type 0
KeepsTreasuryFee p fees q =
    IsValued q × (q.nav + fees.solver_amount + fees.protocol_amount ≡ p.nav + fees.total_fee_amount)

module _ (p : PortfolioValuation) (t : ValueTrade) {q : PortfolioValuation} where
  move_value-IsValued :
      (v : ℕ) → IsValued p → move_value p t v ≡ ok q → IsValued q × (q.nav ≡ p.nav)
  unfolding move_value
  move_value-IsValued v h e =
      let (i, ei, e1) = >>=-eq-ok (trade_indices p t) _ e in
      let (updated, eu, e2) = >>=-eq-ok (shift_assets i.0 i.1 v v 0 p.assets) _ e1 in
      let (valued, ev, e3) = >>=-eq-ok (weigh_assets p.nav updated) _ e2 in
      let (sum, weighed) = weigh_assets-inv p.nav updated ev in
      let moved = shift-total p t v v ei eu in
      subst (λ r. IsValued r × (r.nav ≡ p.nav)) (ok-injective e3)
        (
          record {
            nav_is_total = omega (arith, h.nav_is_total, sum, moved);
            nav_positive = h.nav_positive;
            weighed = weighed;
          },
          refl,
        )

  -- A trade without fees keeps the portfolio valued, and its NAV as it was.
  pub apply_trade-IsValued : IsValued p → apply_trade p t ≡ ok q → IsValued q × (q.nav ≡ p.nav)
  unfolding apply_trade
  apply_trade-IsValued h e =
      let (v, ev, e1) = >>=-eq-ok (to_uint256 t.value) _ e in
      elim (Bool-cases (v == 0)) [
        | inl none_moved ↦
            subst (λ r. IsValued r × (r.nav ≡ p.nav)) (ok-injective (rw none_moved at e1)) (h, refl)
        | inr moved ↦ move_value-IsValued v h (rw moved at e1)
      ]

  move_value_after_fees-IsValued :
      (fees : TradeFees) (v : ℕ)
      → IsValued p
      → move_value_after_fees p t fees v ≡ ok q
      → KeepsTreasuryFee p fees q
  unfolding move_value_after_fees
  move_value_after_fees-IsValued fees v h e =
      let (i, ei, e1) = >>=-eq-ok (trade_indices p t) _ e in
      let (x, ex, e2) = >>=-eq-ok (checked_add fees.solver_amount fees.protocol_amount) _ e1 in
      let (enough, e3) = throw_if_inv (ltb v fees.total_fee_amount) fee_exceeds_output _ e2 in
      let (_, e4) = throw_if_inv (ltb v x) fee_exceeds_output _ e3 in
      let (l, el, e5) = >>=-eq-ok (checked_add (v - fees.total_fee_amount) x) _ e4 in
      let (updated, eu, e6) = >>=-eq-ok (shift_assets i.0 i.1 v l 0 p.assets) _ e5 in
      let (nav, en, e7) = >>=-eq-ok (total_value 0 updated) _ e6 in
      let (some_value, e8) = throw_if_inv (nav == 0) nav_not_positive _ e7 in
      let (valued, ev, e9) = >>=-eq-ok (weigh_assets nav updated) _ e8 in
      let (sum, weighed) = weigh_assets-inv nav updated ev in
      let moved = shift-total p t v l ei eu in
      let counted = total_value-inv 0 updated en in
      let (is_x, _) = checked_add-eq-ok fees.solver_amount fees.protocol_amount ex in
      let (is_l, _) = checked_add-eq-ok (v - fees.total_fee_amount) x el in
      let covered : fees.total_fee_amount ≤ v = ground arith in
      subst (KeepsTreasuryFee p fees) (ok-injective e9) (
        record { nav_is_total = omega arith; nav_positive = ground arith; weighed = weighed },
        omega (arith, h.nav_is_total),
      )

  -- A trade with fees keeps the portfolio valued, and raises its NAV by the part of the fee that
  -- does not leave for the solver or the protocol; a trade of zero leaves it alone.
  pub apply_fee_inclusive_trade-IsValued :
      (fees : TradeFees)
      → IsValued p
      → apply_fee_inclusive_trade p t fees ≡ ok q
      → KeepsTreasuryFee p fees q ⊎ ((to_uint256 t.value ≡ ok 0) × (q ≡ p))
  unfolding apply_fee_inclusive_trade
  apply_fee_inclusive_trade-IsValued fees h e =
      let (v, ev, e1) = >>=-eq-ok (to_uint256 t.value) _ e in
      elim (Bool-cases (v == 0)) [
        | inl none_moved ↦
            let zero_value : v ≡ 0 = ground arith in
            inr (ev ∙ ap ok zero_value, sym (ok-injective (rw none_moved at e1)))
        | inr moved ↦ inl (move_value_after_fees-IsValued fees v h (rw moved at e1))
      ]
