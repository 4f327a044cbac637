-- ===== src/Price/Exchange.antt =====
-- What a returned price check promises of the exchange, as exact fractions.
use native.Mathlib.Nat.{mul-le-mul_left, mul-le-mul_right, div-add-mod}
use aurka.Prelude.{
  ℕ, zero, suc, ◌+◌, ◌-◌, ◌*◌, ◌/◌, ◌%◌, ◌≤◌, ◌<◌, ◌≡◌, refl, sym, ◌∙◌, ap, subst, false, ok, arith,
  >>=-eq-ok, ok-injective, throw_if_inv, ltb,
}
use aurka.Prelude.Int.{pos}
use aurka.Errors.{exchange_below_minimum}
use aurka.Financial.Integer.{bigint, BpsLike, integer, Num, to_uint256, bps_value, basis_points}
use aurka.Financial.Integer.Laws.{to_uint256_bigint}
use aurka.Financial.Checked.Laws.{ceil_div-eq, ceil_div-eq-ok}
use aurka.Financial.Asset.{
  Holding, value_fraction, calculate_asset_value, calculate_asset_value_down,
}
use aurka.Price.{
  TreasuryExchangeInput, TreasuryExchangeValues, require_deviation, ceil_mul_div_by_small,
  calculate_minimum_treasury_input_value, assert_minimum_treasury_exchange_value,
  calculate_treasury_exchange_values,
}

div_le : (n d : ℕ) → d * (n / d) ≤ n
div_le n zero = omega arith
div_le n (suc d) = omega (arith, div-add-mod n (suc d))

-- The split computation is the rounded-up product.
pub ceil_mul_div_by_small-eq :
    (value multiplier : ℕ)
    → ceil_mul_div_by_small value multiplier basis_points
      ≡ ok ((value * multiplier + 9999) / basis_points)
unfolding ceil_mul_div_by_small
ceil_mul_div_by_small-eq value multiplier =
    let split : value ≡ basis_points * (value / basis_points) + value % basis_points =
      omega arith in
    rw (ceil_div-eq (value % basis_points * multiplier) basis_points (omega arith))
      (ap ok (omega (arith, ap (λ (t : ℕ). t * multiplier) split)))

require_deviation_bigint :
    (n : ℕ) {m : ℕ}
    → require_deviation (integer (bigint (pos n))) ≡ ok m
    → (m ≡ n) × (n ≤ basis_points)
unfolding require_deviation bps_value
require_deviation_bigint n e =
    let (d, ed, fits) = >>=-eq-ok (to_uint256 (bigint (pos n))) _ e in
    ground (arith, to_uint256_bigint n ed)

-- The exchange values satisfy their bound.
pub record IsProtected (input output deviation : ℕ) (v : TreasuryExchangeValues) : Type 0 where
  pub input_reads : v.treasury_input_value ≡ input
  pub output_reads : v.treasury_output_value ≡ output
  pub deviation_reads : v.maximum_deviation_bps ≡ deviation
  pub deviation_bound : deviation ≤ basis_points
  pub minimum : output * (basis_points - deviation) ≤ basis_points * v.minimum_treasury_input_value
  pub tight :
      basis_points * v.minimum_treasury_input_value
      < output * (basis_points - deviation) + basis_points
  pub enough : v.minimum_treasury_input_value ≤ input

minimum_bounds :
    (output deviation o d m : ℕ)
    → o ≡ output
    → (d ≡ deviation) × (deviation ≤ basis_points)
    → ceil_mul_div_by_small o (basis_points - d) basis_points ≡ ok m
    → (deviation ≤ basis_points)
      × (output * (basis_points - deviation) ≤ basis_points * m)
      × (basis_points * m < output * (basis_points - deviation) + basis_points)
minimum_bounds output deviation o d m eo (ed, fits) e =
    let value : m ≡ (o * (basis_points - d) + 9999) / basis_points =
      ok-injective (sym e ∙ ceil_mul_div_by_small-eq o (basis_points - d)) in
    rw (← eo, ← ed) (omega arith, omega arith, omega arith)

minimum-inv :
    (output deviation : ℕ) {m : ℕ}
    → calculate_minimum_treasury_input_value
        (bigint (pos output))
        (integer (bigint (pos deviation)))
      ≡ ok m
    → (deviation ≤ basis_points)
      × (output * (basis_points - deviation) ≤ basis_points * m)
      × (basis_points * m < output * (basis_points - deviation) + basis_points)
unfolding calculate_minimum_treasury_input_value
minimum-inv output deviation {m} e =
    let (o, eo, e1) = >>=-eq-ok (to_uint256 (bigint (pos output))) _ e in
    let (d, ed, e2) = >>=-eq-ok (require_deviation (integer (bigint (pos deviation)))) _ e1 in
    minimum_bounds output deviation o d m (to_uint256_bigint output eo)
      (require_deviation_bigint deviation ed) e2

IsProtected-of :
    (input output d i o m : ℕ)
    → i ≡ input
    → o ≡ output
    → (d ≤ basis_points)
      × (o * (basis_points - d) ≤ basis_points * m)
      × (basis_points * m < o * (basis_points - d) + basis_points)
    → ltb i m ≡ false
    → IsProtected input output d (record {
      treasury_input_value = i;
      treasury_output_value = o;
      minimum_treasury_input_value = m;
      maximum_deviation_bps = d;
    })
IsProtected-of input output d i o m ei eo (fits, least, close) enough = record {
  input_reads = ei;
  output_reads = eo;
  deviation_reads = refl;
  deviation_bound = fits;
  minimum = subst (λ (t : ℕ). t * (basis_points - d) ≤ basis_points * m) eo least;
  tight = subst (λ (t : ℕ). basis_points * m < t * (basis_points - d) + basis_points) eo close;
  enough = ground (arith, ei, enough);
}

pub assert_minimum-IsProtected :
    (input output : ℕ) (b : BpsLike) {v : TreasuryExchangeValues}
    → assert_minimum_treasury_exchange_value (bigint (pos input)) (bigint (pos output)) b ≡ ok v
    → (deviation : ℕ) × (require_deviation b ≡ ok deviation) × IsProtected input output deviation v
unfolding assert_minimum_treasury_exchange_value
assert_minimum-IsProtected input output b {v} e =
    let (i, ei, e1) = >>=-eq-ok (to_uint256 (bigint (pos input))) _ e in
    let (o, eo, e2) = >>=-eq-ok (to_uint256 (bigint (pos output))) _ e1 in
    let (d, ed, e3) = >>=-eq-ok (require_deviation b) _ e2 in
    let (m, em, e4) =
      >>=-eq-ok (calculate_minimum_treasury_input_value (bigint (pos o)) (integer (bigint (pos d))))
        _ e3 in
    let (enough, e5) = throw_if_inv (ltb i m) exchange_below_minimum _ e4 in
    (
      d,
      ed,
      subst (IsProtected input output d) (ok-injective e5) (
          IsProtected-of input output d i o m (to_uint256_bigint input ei)
            (to_uint256_bigint output eo) (minimum-inv o d em) enough),
    )

-- What comes in, ni / di, against what goes out, no / do.
exchange_ratio :
    (ni di nout dout input output kept m : ℕ)
    → di * input ≤ ni
    → nout ≤ dout * output
    → output * kept ≤ basis_points * m
    → m ≤ input
    → nout * di * kept ≤ ni * dout * basis_points
exchange_ratio ni di nout dout input output kept m hi ho hm enough =
    let a : nout * (di * kept) ≤ dout * output * (di * kept) = mul-le-mul_right (di * kept) ho in
    let b : dout * di * (output * kept) ≤ dout * di * (basis_points * m) =
      mul-le-mul_left (dout * di) hm in
    let c : dout * di * m ≤ dout * di * input = mul-le-mul_left (dout * di) enough in
    let d : dout * (di * input) ≤ dout * ni = mul-le-mul_left dout hi in omega (arith, a, b, c, d)

-- The exchange brings in its share of what it takes out: as exact fractions of the two values, the
-- input value is at least the output value less the deviation.
abbrev pub KeepsValue : ℕ × ℕ → ℕ × ℕ → ℕ → Type 0
KeepsValue (ni, di) (nout, dout) deviation =
    nout * di * (basis_points - deviation) ≤ ni * dout * basis_points

value_down-le :
    (asset : Holding) (decimals : Num) {q : ℕ}
    → calculate_asset_value_down asset decimals ≡ ok q
    → (f : ℕ × ℕ) × (value_fraction asset decimals ≡ ok f) × (f.1 * q ≤ f.0)
unfolding calculate_asset_value_down
value_down-le asset decimals {q} e =
    let (f, ef, e1) = >>=-eq-ok (value_fraction asset decimals) _ e in
    (f, ef, subst (λ (t : ℕ). f.1 * t ≤ f.0) (ok-injective e1) (div_le f.0 f.1))

value-ge :
    (asset : Holding) (decimals : Num) {q : ℕ}
    → calculate_asset_value asset decimals ≡ ok q
    → (f : ℕ × ℕ) × (value_fraction asset decimals ≡ ok f) × (f.0 ≤ f.1 * q)
unfolding calculate_asset_value
value-ge asset decimals {q} e =
    let (f, ef, e1) = >>=-eq-ok (value_fraction asset decimals) _ e in
    (f, ef, (ceil_div-eq-ok f.0 f.1 e1).1)

pub exchange-KeepsValue :
    (input : TreasuryExchangeInput) (b : BpsLike) {v : TreasuryExchangeValues}
    → calculate_treasury_exchange_values input b ≡ ok v
    → (deviation : ℕ) × (fi : ℕ × ℕ) × (fo : ℕ × ℕ) × (require_deviation b ≡ ok deviation)
      × (value_fraction input.trader_input input.value_decimals ≡ ok fi)
      × (value_fraction input.trader_output input.value_decimals ≡ ok fo)
      × (deviation ≤ basis_points)
      × KeepsValue fi fo deviation
unfolding calculate_treasury_exchange_values
exchange-KeepsValue input b {v} e =
    let (i, ei, e1) =
      >>=-eq-ok (calculate_asset_value_down input.trader_input input.value_decimals) _ e in
    let (o, eo, e2) =
      >>=-eq-ok (calculate_asset_value input.trader_output input.value_decimals) _ e1 in
    let (fi, efi, hi) = value_down-le input.trader_input input.value_decimals ei in
    let (fo, efo, ho) = value-ge input.trader_output input.value_decimals eo in
    let (d, ed, p) = assert_minimum-IsProtected i o b e2 in
    (
      d,
      fi,
      fo,
      ed,
      efi,
      efo,
      p.deviation_bound,
      exchange_ratio fi.0 fi.1 fo.0 fo.1 i o (basis_points - d) v.minimum_treasury_input_value hi ho
          p.minimum p.enough,
    )
