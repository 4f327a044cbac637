-- ===== src/Financial/Fees/Split.antt =====
-- Sequential fills: splitting an interval of utilization moves the premium by rounding alone.
use aurka.Prelude.{ℕ, ◌+◌, ◌*◌, ◌≤◌, ◌≡◌, ap, arith, ok}
use native.Mathlib.Nat.{mul-le-mul_left}
use aurka.Financial.Integer.{fixed_point_scale}
use aurka.Financial.Fees.{quadratic_sum, premium_of}
use aurka.Financial.Fees.Formula.{IsPremium, premium_of-inv}

-- The integrals of the rate add up: d × q(a, a+d) + e × q(a+d, a+d+e) = (d+e) × q(a, a+d+e).
quadratic_sum_telescopes :
    (a d e : ℕ)
    → d * quadratic_sum a (a + d) + e * quadratic_sum (a + d) (a + d + e)
      ≡ (d + e) * quadratic_sum a (a + d + e)
quadratic_sum_telescopes a d e = omega arith

tight_le :
    {slope u0 u1 p : ℕ}
    → IsPremium slope u0 u1 p
    → 3 * fixed_point_scale * p ≤ slope * quadratic_sum u0 u1 + 3 * fixed_point_scale
tight_le h = omega (arith, h.tight)

scale : {m n : ℕ} (k : ℕ) → m ≤ n → k * m ≤ k * n
scale k h = mul-le-mul_left k h

divide : {m n : ℕ} → 3 * fixed_point_scale * m ≤ 3 * fixed_point_scale * n → m ≤ n
divide h = omega arith

-- One fill of the interval against two. Weighted by utilization, the premiums of the two parts
-- cost no more than that of the whole and one unit of rounding for each unit of utilization, and
-- the whole no more than the parts and the same.
pub split_premium :
    (slope a d e p1 p2 p : ℕ)
    → premium_of slope a (a + d) ≡ ok p1
    → premium_of slope (a + d) (a + d + e) ≡ ok p2
    → premium_of slope a (a + d + e) ≡ ok p
    → (d * p1 + e * p2 ≤ (d + e) * p + (d + e)) × ((d + e) * p ≤ d * p1 + e * p2 + (d + e))
split_premium slope a d e p1 p2 p e1 e2 e3 =
    let first = premium_of-inv slope a (a + d) e1 in
    let second = premium_of-inv slope (a + d) (a + d + e) e2 in
    let whole = premium_of-inv slope a (a + d + e) e3 in
    let sum = ap (λ (t : ℕ). slope * t) (quadratic_sum_telescopes a d e) in
    let first_most = scale d (tight_le first) in
    let second_most = scale e (tight_le second) in
    let whole_most = scale (d + e) (tight_le whole) in
    let first_least = scale d first.covers in
    let second_least = scale e second.covers in
    let whole_least = scale (d + e) whole.covers in (divide (omega arith), divide (omega arith))
