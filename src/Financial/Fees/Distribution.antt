-- ===== src/Financial/Fees/Distribution.antt =====
-- The distribution of a fee: the parts add up, nothing is negative, and the total is bounded.
use native.Mathlib.Nat.{mul-le-mul, mul-le-mul_left, le_of_mul-le-mul_left}
use aurka.Prelude.{
  ℕ, ◌+◌, ◌*◌, ◌≤◌, ◌<◌, ◌≡◌, refl, Result, ok, arith, >>=-eq-ok, ok-injective, subst, sym, ◌∙◌, ap,
  false, not, throw_if_inv, if◌then◌else◌, ◌==◌,
}
use aurka.Prelude.Int.{pos}
use aurka.Errors.{Error, base_fee_distribution}
use aurka.Financial.Integer.{
  basis_points, fixed_point_scale, bigint, integer, to_uint256, require_bps,
}
use aurka.Financial.Integer.Laws.{require_bps_bigint}
use aurka.Financial.Fees.Formula.{option_space_fee-inv}
use aurka.Financial.Checked.{checked_mul, floor_mul_div}
use aurka.Financial.Checked.Laws.{checked_mul-eq-ok, ceil_div-eq-ok, floor_mul_div-eq-ok}
use aurka.Financial.Fees.{
  calculate_option_space_fee, option_space_fee, or_default, default_maximum_fee_bps, OptionSpaceFee,
  FeeDistribution, FeeDistributionInput, fee_amount, fee_amounts, distribute_fees,
}

abbrev pub fee_unit : ℕ
fee_unit = basis_points * fixed_point_scale

-- `amount` is value × rate / (10^4 × 10^18), rounded up.
pub record IsRoundedUp (value rate amount : ℕ) : Type 0 where
  pub covers : value * rate ≤ fee_unit * amount
  pub tight : fee_unit * amount < value * rate + fee_unit

pub fee_amount-inv :
    (value rate : ℕ) {a : ℕ} → fee_amount value rate ≡ ok a → IsRoundedUp value rate a
unfolding fee_amount
fee_amount-inv value rate {a} e =
    let (product, em, ed) = >>=-eq-ok (checked_mul value rate) _ e in
    let is_product : product ≡ value * rate = checked_mul-eq-ok value rate em in
    let (_, lower, upper) = ceil_div-eq-ok product fee_unit ed in
    record { covers = omega arith; tight = omega arith }

pub IsRoundedUp-mono :
    (value r s a b : ℕ) → r ≤ s → IsRoundedUp value r a → IsRoundedUp value s b → a ≤ b
IsRoundedUp-mono value r s a b le ha hb =
    let scaled : value * r ≤ value * s = mul-le-mul_left value le in
    omega (arith, ha.tight, hb.covers)

-- Two parts of `amount`, in proportion to rates that the divisor covers, do not exceed it.
parts_le :
    (amount solver protocol divisor x y : ℕ)
    → solver + protocol ≤ divisor
    → floor_mul_div amount solver divisor ≡ ok x
    → floor_mul_div amount protocol divisor ≡ ok y
    → x + y ≤ amount
parts_le amount solver protocol divisor x y le ex ey =
    let (positive, hx, _) = floor_mul_div-eq-ok amount solver divisor ex in
    let (_, hy, _) = floor_mul_div-eq-ok amount protocol divisor ey in
    let scaled : amount * (solver + protocol) ≤ amount * divisor = mul-le-mul_left amount le in
    le_of_mul-le-mul_left {k = divisor} (omega arith) positive

-- What the amounts satisfy, for a trade value and a fee.
pub record IsDistribution (value base : ℕ) (option : OptionSpaceFee) (d : FeeDistribution)
    : Type 0 where
  pub base_split :
      d.treasury_base_fee_amount + d.solver_amount + d.protocol_amount ≡ d.base_fee_amount
  pub total_split : d.treasury_amount + d.solver_amount + d.protocol_amount ≡ d.total_fee_amount
  pub premium_split : d.base_fee_amount + d.option_space_premium_amount ≡ d.total_fee_amount
  pub base_rounded : IsRoundedUp value (base * fixed_point_scale) d.base_fee_amount
  pub total_rounded : IsRoundedUp value option.fee_bps_scaled d.total_fee_amount
  pub rate : d.total_fee_bps_scaled ≡ option.fee_bps_scaled

pub fee_amounts-IsDistribution :
    (value base solver protocol : ℕ) (option : OptionSpaceFee) {d : FeeDistribution}
    → solver + protocol ≤ base
    → base * fixed_point_scale ≤ option.fee_bps_scaled
    → fee_amounts value base solver protocol option ≡ ok d
    → IsDistribution value base option d
unfolding fee_amounts
fee_amounts-IsDistribution value base solver protocol option {d} shares rate e =
    let (b, eb, e1) = >>=-eq-ok (fee_amount value (base * fixed_point_scale)) _ e in
    let (t, et, e2) = >>=-eq-ok (fee_amount value option.fee_bps_scaled) _ e1 in
    let (x, ex, e3) = >>=-eq-ok (floor_mul_div b solver (if base == 0 then 1 else base)) _ e2 in
    let (y, ey, e4) = >>=-eq-ok (floor_mul_div b protocol (if base == 0 then 1 else base)) _ e3 in
    let hb = fee_amount-inv value (base * fixed_point_scale) eb in
    let ht = fee_amount-inv value option.fee_bps_scaled et in
    let below : b ≤ t = IsRoundedUp-mono value _ _ b t rate hb ht in
    let parts : x + y ≤ b = parts_le b solver protocol _ x y (ground arith) ex ey in
    subst (IsDistribution value base option) (ok-injective e4) (record {
      base_split = omega arith;
      total_split = omega arith;
      premium_split = omega arith;
      base_rounded = hb;
      total_rounded = ht;
      rate = refl;
    })

-- The rate that the distribution charges.
abbrev input_fee : ℕ → FeeDistributionInput → Result Error OptionSpaceFee
input_fee base input =
    calculate_option_space_fee (integer (bigint (pos base))) input.slope_bps
      input.utilization_before input.utilization_after
      (or_default input.maximum_fee_bps default_maximum_fee_bps)

fee_rates :
    (base b s u v m : ℕ) {option : OptionSpaceFee}
    → require_bps (integer (bigint (pos base))) ≡ ok b
    → option_space_fee b s u v m ≡ ok option
    → (base * fixed_point_scale ≤ option.fee_bps_scaled)
      × (option.fee_bps_scaled ≤ 100 * fixed_point_scale)
fee_rates base b s u v m eb e =
    let (cap, room, order, after, h) = option_space_fee-inv b s u v m e in
    let same : b ≡ base = require_bps_bigint base eb in
    let scaled : m * fixed_point_scale ≤ 100 * fixed_point_scale =
      mul-le-mul {n₂ = 100} {m₂ = fixed_point_scale} cap (omega arith) in
    (omega (arith, h.sum, ap (λ (n : ℕ). n * fixed_point_scale) same), omega (arith, h.capped))

IsDistribution-bound :
    (v value base tb solver protocol : ℕ) (option : OptionSpaceFee) (d : FeeDistribution)
    → v ≡ value
    → not (tb + solver + protocol == base) ≡ false
    → (base * fixed_point_scale ≤ option.fee_bps_scaled)
      × (option.fee_bps_scaled ≤ 100 * fixed_point_scale)
    → fee_amounts v base solver protocol option ≡ ok d
    → IsDistribution value base option d × (100 * d.total_fee_amount < value + 100)
IsDistribution-bound v value base tb solver protocol option d same sums (low, high) e =
    let shares : solver + protocol ≤ base = ground arith in
    let h = fee_amounts-IsDistribution v base solver protocol option shares low e in
    let h' : IsDistribution value base option d =
      subst (λ n. IsDistribution n base option d) same h in
    let most : value * option.fee_bps_scaled ≤ value * (100 * fixed_point_scale) =
      mul-le-mul_left value high in
    (h', omega (arith, h'.total_rounded.tight))

option_rates :
    (base : ℕ) (input : FeeDistributionInput) {option : OptionSpaceFee}
    → input_fee base input ≡ ok option
    → (base * fixed_point_scale ≤ option.fee_bps_scaled)
      × (option.fee_bps_scaled ≤ 100 * fixed_point_scale)
unfolding calculate_option_space_fee
option_rates base input {option} e =
    let (b, eb, e1) = >>=-eq-ok (require_bps (integer (bigint (pos base)))) _ e in
    let (s, es, e2) = >>=-eq-ok (require_bps input.slope_bps) _ e1 in
    let (u, eu, e3) = >>=-eq-ok (to_uint256 input.utilization_before) _ e2 in
    let (v, ev, e4) = >>=-eq-ok (to_uint256 input.utilization_after) _ e3 in
    let (m, em, e5) =
      >>=-eq-ok (require_bps (or_default input.maximum_fee_bps default_maximum_fee_bps)) _ e4 in
    fee_rates base b s u v m eb e5

pub distribute_fees-IsDistribution :
    (input : FeeDistributionInput) (value : ℕ) {d : FeeDistribution}
    → to_uint256 input.trade_value ≡ ok value
    → distribute_fees input ≡ ok d
    → (base : ℕ) × (option : OptionSpaceFee) × IsDistribution value base option d
      × (100 * d.total_fee_amount < value + 100)
unfolding distribute_fees
distribute_fees-IsDistribution input value {d} ev e =
    let (v, ev', e1) = >>=-eq-ok (to_uint256 input.trade_value) _ e in
    let (base, _, e2) = >>=-eq-ok (require_bps input.base_fee_bps) _ e1 in
    let (tb, _, e3) = >>=-eq-ok (require_bps input.treasury_base_fee_bps) _ e2 in
    let (solver, _, e4) = >>=-eq-ok (require_bps input.solver_fee_bps) _ e3 in
    let (protocol, _, e5) = >>=-eq-ok (require_bps input.protocol_fee_bps) _ e4 in
    let (sums, e6) =
      throw_if_inv (not (tb + solver + protocol == base)) base_fee_distribution _ e5 in
    let (option, eo, e7) = >>=-eq-ok (input_fee base input) _ e6 in
    let (h, bound) =
      IsDistribution-bound v value base tb solver protocol option d (ok-injective (sym ev' ∙ ev))
        sums (option_rates base input eo) e7 in
    (base, option, h, bound)
