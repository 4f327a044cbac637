-- ===== src/Financial/Asset/Laws.antt =====
-- Laws of the amount adjustment of packages/shared/src/financial.ts.
use native.Mathlib.Nat.{mod-lt, mul_assoc}
use aurka.Prelude.{
  ℕ, zero, suc, ◌+◌, ◌-◌, ◌*◌, ◌/◌, ◌%◌, ◌^◌, ◌<◌, ◌≡◌, refl, sym, ◌∙◌, ap, subst, inl, inr, Result,
  ok, arith, >>=-eq-ok, ok-injective, throw_if_inv, ◌==◌, Result-cases,
}
use aurka.Errors.{Error, price_not_positive}
use aurka.Prelude.Int.{pos, negsuc}
use aurka.Financial.Integer.{IntegerLike, bigint, Num, int, not_integral, to_uint256}
use aurka.Financial.Integer.Laws.{to_uint256_bigint}
use aurka.Financial.Checked.{checked_mul, scale10}
use aurka.Financial.Checked.Laws.{checked_mul-eq-ok}
use aurka.Financial.Asset.{
  AssetRate, Holding, AssetAmountAdjustment, value_fraction, calculate_asset_value_down,
  calculate_asset_value_exact, calculate_asset_amount_increment, adjust_asset_amount_down,
}
use aurka.Financial.Asset.Gcd.{greatest_common_divisor}
use aurka.Financial.Asset.Gcd.Laws.{
  Divides, greatest_common_divisor-Divides, multiple, rest_multiple, reduced_positive, restore,
}

power_positive : (n : ℕ) → 0 < 10 ^ n
power_positive zero = omega arith
power_positive (suc n) = let h = power_positive n in grind arith

scale10_positive : (d : Num) {n : ℕ} → scale10 d ≡ ok n → 0 < n
unfolding scale10
scale10_positive (int (pos n)) e = let h = power_positive n in ground arith
scale10_positive (int (negsuc n)) e = cc
scale10_positive not_integral e = cc

-- The increment is a positive scale over a common divisor of it and of the value of one raw unit.
record IsIncrement (rate : AssetRate) (value_decimals : Num) (increment : ℕ) : Type 0 where
  pub price : ℕ
  pub balance_scale : ℕ
  pub price_scale : ℕ
  pub unit : ℕ
  pub divisor : ℕ
  pub price_reads : to_uint256 rate.price ≡ ok price
  pub balance_scale_reads : scale10 rate.decimals ≡ ok balance_scale
  pub price_scale_reads : scale10 rate.price_decimals ≡ ok price_scale
  pub unit_reads : scale10 value_decimals ≡ ok unit
  pub of_scale : Divides divisor (balance_scale * price_scale)
  pub of_value : Divides divisor (price * unit)
  pub quotient : increment ≡ balance_scale * price_scale / divisor

calculate_asset_amount_increment-IsIncrement :
    (rate : AssetRate) (value_decimals : Num) {increment : ℕ}
    → calculate_asset_amount_increment rate value_decimals ≡ ok increment
    → IsIncrement rate value_decimals increment
unfolding calculate_asset_amount_increment
calculate_asset_amount_increment-IsIncrement rate value_decimals e =
    let (price, price_e, e1) = >>=-eq-ok (to_uint256 rate.price) _ e in
    let (_, e2) = throw_if_inv (price == 0) price_not_positive _ e1 in
    let (bs, bs_e, e3) = >>=-eq-ok (scale10 rate.decimals) _ e2 in
    let (ps, ps_e, e4) = >>=-eq-ok (scale10 rate.price_decimals) _ e3 in
    let (d, d_e, e5) = >>=-eq-ok (checked_mul bs ps) _ e4 in
    let (unit, unit_e, e6) = >>=-eq-ok (scale10 value_decimals) _ e5 in
    let (v, v_e, e7) = >>=-eq-ok (checked_mul price unit) _ e6 in
    let d_is = checked_mul-eq-ok bs ps d_e in
    let v_is = checked_mul-eq-ok price unit v_e in
    let (of_d, of_v) = greatest_common_divisor-Divides d v in
    record {
      price = price;
      balance_scale = bs;
      price_scale = ps;
      unit = unit;
      divisor = greatest_common_divisor d v;
      price_reads = price_e;
      balance_scale_reads = bs_e;
      price_scale_reads = ps_e;
      unit_reads = unit_e;
      of_scale = subst (λ x. Divides (greatest_common_divisor d v) x) d_is of_d;
      of_value = subst (λ x. Divides (greatest_common_divisor d v) x) v_is of_v;
      quotient = sym (ok-injective e7) ∙ ap (λ x. x / greatest_common_divisor d v) d_is;
    }

increment_positive :
    (rate : AssetRate) (value_decimals : Num) (i : ℕ) → IsIncrement rate value_decimals i → 0 < i
increment_positive rate value_decimals i inc =
    let (k, of_scale) = inc.of_scale in
    let bs_positive = scale10_positive rate.decimals inc.balance_scale_reads in
    let ps_positive = scale10_positive rate.price_decimals inc.price_scale_reads in
    rw inc.quotient (reduced_positive _ _ k (grind arith) of_scale)

-- What the conversions of a holding divide.
record IsFraction (asset : Holding) (value_decimals : Num) (n d : ℕ) : Type 0 where
  pub balance : ℕ
  pub price : ℕ
  pub balance_scale : ℕ
  pub price_scale : ℕ
  pub unit : ℕ
  pub balance_reads : to_uint256 asset.balance ≡ ok balance
  pub price_reads : to_uint256 asset.price ≡ ok price
  pub balance_scale_reads : scale10 asset.decimals ≡ ok balance_scale
  pub price_scale_reads : scale10 asset.price_decimals ≡ ok price_scale
  pub unit_reads : scale10 value_decimals ≡ ok unit
  pub numerator : n ≡ balance * price * unit
  pub denominator : d ≡ balance_scale * price_scale

value_fraction-IsFraction :
    (asset : Holding) (value_decimals : Num) {f : ℕ × ℕ}
    → value_fraction asset value_decimals ≡ ok f
    → IsFraction asset value_decimals f.0 f.1
unfolding value_fraction
value_fraction-IsFraction asset value_decimals e =
    let (b, b_e, e0) = >>=-eq-ok (to_uint256 asset.balance) _ e in
    let (p, p_e, e1) = >>=-eq-ok (to_uint256 asset.price) _ e0 in
    let (_, e2) = throw_if_inv (p == 0) price_not_positive _ e1 in
    let (a, a_e, e3) = >>=-eq-ok (checked_mul b p) _ e2 in
    let (u, u_e, e4) = >>=-eq-ok (scale10 value_decimals) _ e3 in
    let (n, n_e, e5) = >>=-eq-ok (checked_mul a u) _ e4 in
    let (bs, bs_e, e6) = >>=-eq-ok (scale10 asset.decimals) _ e5 in
    let (ps, ps_e, e7) = >>=-eq-ok (scale10 asset.price_decimals) _ e6 in
    let (d, d_e, e8) = >>=-eq-ok (checked_mul bs ps) _ e7 in
    let pair = ok-injective e8 in
    record {
      balance = b;
      price = p;
      balance_scale = bs;
      price_scale = ps;
      unit = u;
      balance_reads = b_e;
      price_reads = p_e;
      balance_scale_reads = bs_e;
      price_scale_reads = ps_e;
      unit_reads = u_e;
      numerator =
          sym (ap (λ f. f.0) pair)
          ∙ checked_mul-eq-ok a u n_e
          ∙ ap (λ x. x * u) (checked_mul-eq-ok b p a_e);
      denominator = sym (ap (λ f. f.1) pair) ∙ checked_mul-eq-ok bs ps d_e;
    }

same_reading {ℓ} : {A : Type ℓ} {r : Result Error A} {x y : A} → r ≡ ok x → r ≡ ok y → x ≡ y
same_reading a b = ok-injective (sym a ∙ b)

-- A rounded-down multiple of the increment, as a holding of the token, leaves no remainder.
divisible :
    (rate : AssetRate) (value_decimals : Num) (n i : ℕ) {f : ℕ × ℕ}
    → IsIncrement rate value_decimals i
    → value_fraction (record { rate = rate; balance = bigint (pos (n - n % i)) }) value_decimals
      ≡ ok f
    → f.0 % f.1 ≡ 0
divisible rate value_decimals n i {f} inc e =
    let fr =
      value_fraction-IsFraction (record { rate = rate; balance = bigint (pos (n - n % i)) })
        value_decimals e in
    let price = same_reading fr.price_reads inc.price_reads in
    let unit = same_reading fr.unit_reads inc.unit_reads in
    let bs = same_reading fr.balance_scale_reads inc.balance_scale_reads in
    let ps = same_reading fr.price_scale_reads inc.price_scale_reads in
    let d : f.1 ≡ inc.balance_scale * inc.price_scale = fr.denominator ∙ rw bs (rw ps refl) in
    let balance : fr.balance ≡ i * (n / i) =
      to_uint256_bigint (n - n % i) fr.balance_reads ∙ rest_multiple n i in
    let top : f.0
        ≡ inc.balance_scale * inc.price_scale / inc.divisor * (n / i) * (inc.price * inc.unit) =
      fr.numerator
      ∙ rw balance (rw price (rw unit (mul_assoc _ _ _)))
      ∙ ap (λ x. x * (n / i) * (inc.price * inc.unit)) inc.quotient in
    let bs_positive = scale10_positive rate.decimals inc.balance_scale_reads in
    let ps_positive = scale10_positive rate.price_decimals inc.price_scale_reads in
    rw top (rw d (multiple _ _ _ (n / i) (grind arith) inc.of_scale inc.of_value))

-- How an amount is split, and how the supported part converts.
pub record IsExactAdjustment (requested : ℕ) (rate : AssetRate) (value_decimals : Num)
    (a : AssetAmountAdjustment) : Type 0 where
  pub requested_is : a.requested_amount ≡ requested
  pub splits : a.supported_amount + a.remainder ≡ requested
  pub small : a.remainder < a.increment
  pub exact :
      calculate_asset_value_exact
        (record { rate = rate; balance = bigint (pos a.supported_amount) })
        value_decimals
      ≡ calculate_asset_value_down
          (record { rate = rate; balance = bigint (pos a.supported_amount) })
          value_decimals

exact_conversion :
    (asset : Holding) (value_decimals : Num)
    → ((f : ℕ × ℕ) → value_fraction asset value_decimals ≡ ok f → f.0 % f.1 ≡ 0)
    → calculate_asset_value_exact asset value_decimals
      ≡ calculate_asset_value_down asset value_decimals
unfolding calculate_asset_value_exact calculate_asset_value_down
exact_conversion asset value_decimals divides =
    elim (Result-cases (value_fraction asset value_decimals)) [
      | inl (f, e) ↦ let h = divides f e in rw e (rw h refl)
      | inr (thrown, e) ↦ rw e refl
    ]

-- An adjusted amount splits the requested one into a supported amount and a remainder below the
-- increment, and the supported amount converts exactly: the exact conversion of a holding of it
-- answers as the rounding one does.
pub adjust_asset_amount_down-IsExactAdjustment :
    (amount : IntegerLike) (rate : AssetRate) (value_decimals : Num) {a : AssetAmountAdjustment}
    → adjust_asset_amount_down amount rate value_decimals ≡ ok a
    → (n : ℕ) × (to_uint256 amount ≡ ok n) × IsExactAdjustment n rate value_decimals a
unfolding adjust_asset_amount_down
adjust_asset_amount_down-IsExactAdjustment amount rate value_decimals {a} e =
    let (n, n_e, e1) = >>=-eq-ok (to_uint256 amount) _ e in
    let (i, i_e, e2) = >>=-eq-ok (calculate_asset_amount_increment rate value_decimals) _ e1 in
    let inc = calculate_asset_amount_increment-IsIncrement rate value_decimals i_e in
    (
      n,
      n_e,
      subst (IsExactAdjustment n rate value_decimals) (ok-injective e2) (record {
        requested_is = refl;
        splits = restore n i;
        small = mod-lt n (increment_positive rate value_decimals i inc);
        exact =
            exact_conversion _ value_decimals (λ f fe. divisible rate value_decimals n i inc fe);
      }),
    )
