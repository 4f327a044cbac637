-- ===== src/Financial/Fees/Formula.antt =====
-- The OptionSpace fee of packages/shared/src/financial.ts: no step of the formula overflows, and
-- the fee stays within its cap.
use native.Mathlib.Nat.{mul-le-mul}
use aurka.Prelude.{
  ap, ℕ, ◌+◌, ◌-◌, ◌*◌, ◌/◌, ◌≤◌, ◌<◌, ◌≡◌, refl, ok, arith, Returns, le→ltb_false, >>=-eq-ok,
  ok-injective, sym, ◌∙◌, subst,
}
use aurka.Financial.Integer.{fixed_point_scale}
use aurka.Financial.Checked.{checked_mul, ceil_div}
use aurka.Financial.Checked.Laws.{
  checked_mul_fits, checked_mul-eq-ok, ceil_div-eq-ok, checked_add_fits, ceil_div-eq,
}
use aurka.Financial.Fees.{
  OptionSpaceFee, check_fee_arguments, quadratic_sum, premium_of, option_space_fee,
}

-- `p` is slope × (u1² + u0 u1 + u0²) / (3 × 10^18), rounded up.
pub record IsPremium (slope u0 u1 p : ℕ) : Type 0 where
  pub covers : slope * quadratic_sum u0 u1 ≤ 3 * fixed_point_scale * p
  pub tight : 3 * fixed_point_scale * p < slope * quadratic_sum u0 u1 + 3 * fixed_point_scale

module _ (slope u0 u1 : ℕ) (small : slope ≤ 100) (order : u0 ≤ u1)
    (after : u1 ≤ fixed_point_scale) where
  after_squared_le : u1 * u1 ≤ fixed_point_scale * fixed_point_scale
  after_squared_le = mul-le-mul after after

  mixed_le : u0 * u1 ≤ fixed_point_scale * fixed_point_scale
  mixed_le = mul-le-mul {n₂ = fixed_point_scale} (omega arith) after

  before_squared_le : u0 * u0 ≤ fixed_point_scale * fixed_point_scale
  before_squared_le =
      mul-le-mul {n₂ = fixed_point_scale} {m₂ = fixed_point_scale} (omega arith) (omega arith)

  scaled_le : slope * quadratic_sum u0 u1 ≤ slope * (3 * fixed_point_scale * fixed_point_scale)
  scaled_le =
      mul-le-mul {n₂ = slope} (omega arith)
        (omega (arith, after_squared_le, mixed_le, before_squared_le))

  pub premium_of-IsPremium : Returns (premium_of slope u0 u1) (IsPremium slope u0 u1)
  unfolding premium_of
  premium_of-IsPremium =
      let scaled = slope * quadratic_sum u0 u1 in
      let divisor = 3 * fixed_point_scale in
      let premium = (scaled + (divisor - 1)) / divisor in
      (
        premium,
        rw
            (
              checked_mul_fits u1 u1 (omega (arith, after_squared_le)),
              checked_mul_fits u0 u1 (omega (arith, mixed_le)),
              checked_mul_fits u0 u0 (omega (arith, before_squared_le)),
              checked_mul_fits slope (quadratic_sum u0 u1) (omega (arith, scaled_le)),
            )
            (ceil_div-eq scaled divisor (omega arith)),
        record { covers = omega arith; tight = omega arith },
      )

  pub premium-le : (p : ℕ) → IsPremium slope u0 u1 p → p ≤ slope * fixed_point_scale
  premium-le p h = omega (arith, scaled_le, h.tight)

IsPremium-facts :
    (slope u0 u1 a b c n : ℕ) {p : ℕ}
    → a ≡ u1 * u1
    → b ≡ u0 * u1
    → c ≡ u0 * u0
    → n ≡ slope * (a + b + c)
    → ceil_div n (3 * fixed_point_scale) ≡ ok p
    → IsPremium slope u0 u1 p
IsPremium-facts slope u0 u1 a b c n ea eb ec en e =
    let (_, least, most) = ceil_div-eq-ok n (3 * fixed_point_scale) e in
    let sum : a + b + c ≡ quadratic_sum u0 u1 = omega arith in
    let scaled : n ≡ slope * quadratic_sum u0 u1 = en ∙ ap (λ (t : ℕ). slope * t) sum in
    record { covers = omega arith; tight = omega arith }

pub premium_of-inv :
    (slope u0 u1 : ℕ) {p : ℕ} → premium_of slope u0 u1 ≡ ok p → IsPremium slope u0 u1 p
unfolding premium_of
premium_of-inv slope u0 u1 e =
    let (a, ea, e1) = >>=-eq-ok (checked_mul u1 u1) _ e in
    let (b, eb, e2) = >>=-eq-ok (checked_mul u0 u1) _ e1 in
    let (c, ec, e3) = >>=-eq-ok (checked_mul u0 u0) _ e2 in
    let (n, en, e4) = >>=-eq-ok (checked_mul slope (a + b + c)) _ e3 in
    IsPremium-facts slope u0 u1 a b c n (checked_mul-eq-ok u1 u1 ea) (checked_mul-eq-ok u0 u1 eb)
      (checked_mul-eq-ok u0 u0 ec) (checked_mul-eq-ok slope (a + b + c) en) e4

pub check_fee_arguments-inv :
    (base slope u0 u1 maximum : ℕ) {t : Unit {0}}
    → check_fee_arguments base slope u0 u1 maximum ≡ ok t
    → (maximum ≤ 100) × (base + slope ≤ maximum) × (u0 ≤ u1) × (u1 ≤ fixed_point_scale)
unfolding check_fee_arguments
check_fee_arguments-inv base slope u0 u1 maximum e = ground arith

-- What the formula promises for arguments in range.
pub record IsFeeFor (base slope u0 u1 maximum : ℕ) (f : OptionSpaceFee) : Type 0 where
  pub premium : IsPremium slope u0 u1 f.premium_bps_scaled
  pub sum : f.fee_bps_scaled ≡ base * fixed_point_scale + f.premium_bps_scaled
  pub premium_bound : f.premium_bps_scaled ≤ slope * fixed_point_scale
  pub capped : f.fee_bps_scaled ≤ maximum * fixed_point_scale
  pub before : f.utilization_before ≡ u0
  pub after : f.utilization_after ≡ u1

module _ (base slope u0 u1 maximum : ℕ) (cap : maximum ≤ 100) (room : base + slope ≤ maximum)
    (order : u0 ≤ u1) (after : u1 ≤ fixed_point_scale) where
  check_fee_arguments_pass : check_fee_arguments base slope u0 u1 maximum ≡ ok tt
  unfolding check_fee_arguments
  check_fee_arguments_pass = ground arith

  -- Arguments in range always give a fee: none of the overflow checks and neither the cap check
  -- can fail. The fee is the base plus the premium rounded up, and within the cap.
  pub option_space_fee-IsFeeFor :
      Returns (option_space_fee base slope u0 u1 maximum) (IsFeeFor base slope u0 u1 maximum)
  unfolding option_space_fee
  option_space_fee-IsFeeFor =
      let (p, e, h) = premium_of-IsPremium slope u0 u1 (omega arith) order after in
      let small : p ≤ slope * fixed_point_scale =
        premium-le slope u0 u1 (omega arith) order after p h in
      let scaled : (base + slope) * fixed_point_scale ≤ maximum * fixed_point_scale =
        mul-le-mul {n₂ = maximum} room (omega arith) in
      (
        record {
          fee_bps_scaled = base * fixed_point_scale + p;
          premium_bps_scaled = base * fixed_point_scale + p - base * fixed_point_scale;
          utilization_before = u0;
          utilization_after = u1;
        },
        rw (
          check_fee_arguments_pass,
          e,
          checked_mul_fits base fixed_point_scale (omega arith),
          checked_add_fits (base * fixed_point_scale) p (omega arith),
          le→ltb_false (maximum * fixed_point_scale) (base * fixed_point_scale + p) (omega arith),
        ),
        record {
          premium =
              let same : base * fixed_point_scale + p - base * fixed_point_scale ≡ p =
                omega arith in
              rw same h;
          sum = omega arith;
          premium_bound = omega arith;
          capped = omega arith;
          before = refl;
          after = refl;
        },
      )

-- The formula returns a fee exactly when its arguments are in range.
pub option_space_fee-inv :
    (base slope u0 u1 maximum : ℕ) {f : OptionSpaceFee}
    → option_space_fee base slope u0 u1 maximum ≡ ok f
    → (maximum ≤ 100)
      × (base + slope ≤ maximum)
      × (u0 ≤ u1)
      × (u1 ≤ fixed_point_scale)
      × IsFeeFor base slope u0 u1 maximum f
unfolding option_space_fee
option_space_fee-inv base slope u0 u1 maximum {f} e =
    let (_, checked, rest) = >>=-eq-ok (check_fee_arguments base slope u0 u1 maximum) _ e in
    let (cap, room, order, after) = check_fee_arguments-inv base slope u0 u1 maximum checked in
    let (g, eg, h) = option_space_fee-IsFeeFor base slope u0 u1 maximum cap room order after in
    let same : g ≡ f = ok-injective (sym eg ∙ e) in
    (cap, room, order, after, subst (IsFeeFor base slope u0 u1 maximum) same h)
