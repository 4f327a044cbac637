-- ===== src/Financial/Checked/Laws.antt =====
-- The rounding helpers of packages/shared/src/financial.ts against the fractions they stand for.
use native.Mathlib.Nat.{
  mul_comm, le-div_iff_mul-le, div-add-mod, mod-lt, add-div_right, div-eq_of_lt,
}
use aurka.Prelude.{
  sym, false, ltb, le→ltb_false, ℕ, zero, suc, ◌+◌, ◌-◌, ◌*◌, ◌/◌, ◌%◌, ◌≤◌, ◌<◌, ◌≡◌, ap, ok,
  arith,
}
use aurka.Financial.Integer.{uint256_max, basis_points}
use aurka.Financial.Checked.{
  checked_add, checked_sub, checked_mul, ceil_div, floor_mul_div, bps_of_down, bps_of_up,
}

pub checked_add-eq-ok : (a b : ℕ) {c : ℕ} → checked_add a b ≡ ok c → (c ≡ a + b) × (c ≤ uint256_max)
unfolding checked_add
checked_add-eq-ok a b e = ground arith

pub checked_add_fits : (a b : ℕ) → a + b ≤ uint256_max → checked_add a b ≡ ok (a + b)
unfolding checked_add
checked_add_fits a b e = ground arith

pub checked_sub-eq-ok : (a b : ℕ) {c : ℕ} → checked_sub a b ≡ ok c → (b ≤ a) × (c ≡ a - b)
unfolding checked_sub
checked_sub-eq-ok a b e = ground arith

pub checked_sub_fits : (a b : ℕ) → b ≤ a → checked_sub a b ≡ ok (a - b)
unfolding checked_sub
checked_sub_fits a b e = ground arith

pub checked_mul-eq-ok : (a b : ℕ) {c : ℕ} → checked_mul a b ≡ ok c → c ≡ a * b
unfolding checked_mul
checked_mul-eq-ok a b e = ground arith

quotient_test : (a b : ℕ) → suc a * b ≤ uint256_max → ltb (uint256_max / suc a) b ≡ false
quotient_test a b h =
    le→ltb_false (uint256_max / suc a) b
      ((le-div_iff_mul-le (omega arith)).1 (rw (mul_comm b (suc a)) h))

-- The quotient test is the test of the product.
pub checked_mul_fits : (a b : ℕ) → a * b ≤ uint256_max → checked_mul a b ≡ ok (a * b)
unfolding checked_mul
checked_mul_fits zero b h = ground arith
checked_mul_fits (suc a) b h = ground (arith, quotient_test a b h)

pub ceil_div-eq : (n d : ℕ) → 0 < d → ceil_div n d ≡ ok ((n + (d - 1)) / d)
unfolding ceil_div
ceil_div-eq zero d h = ground (arith, div-eq_of_lt {n = d - 1} {m = d})
ceil_div-eq (suc n) d h =
    let shift : (n + d) / d ≡ n / d + 1 = add-div_right n h in
    let regroup : suc n + (d - 1) ≡ n + d = omega arith in rw regroup (rw shift (ground arith))

pub bps_of_down-eq : (total bps : ℕ) → bps_of_down total bps ≡ total * bps / basis_points
unfolding bps_of_down
bps_of_down-eq total bps =
    let split : total ≡ basis_points * (total / basis_points) + total % basis_points =
      omega arith in
    omega (arith, ap (λ (t : ℕ). t * bps) split)

pub bps_of_up-eq : (total bps : ℕ) → bps_of_up total bps ≡ ok ((total * bps + 9999) / basis_points)
unfolding bps_of_up
bps_of_up-eq total bps =
    let split : total ≡ basis_points * (total / basis_points) + total % basis_points =
      omega arith in
    ground (arith, ap (λ (t : ℕ). t * bps) split)

pub ceil_div-eq-ok :
    (n d : ℕ) {q : ℕ} → ceil_div n d ≡ ok q → (0 < d) × (n ≤ d * q) × (d * q < n + d)
unfolding ceil_div
ceil_div-eq-ok n zero e = ground arith
ceil_div-eq-ok zero (suc d) e = ground arith
ceil_div-eq-ok (suc n) (suc d) {q} e =
    let quotient : q ≡ n / suc d + 1 = ground arith in
    let split : n ≡ suc d * (n / suc d) + n % suc d = sym (div-add-mod n (suc d)) in
    let small : n % suc d < suc d = mod-lt n (omega arith) in
    rw quotient (omega arith, omega arith, omega arith)

pub floor_mul_div-eq-ok :
    (a b d : ℕ) {q : ℕ}
    → floor_mul_div a b d ≡ ok q
    → (0 < d) × (d * q ≤ a * b) × (a * b < d * q + d)
unfolding floor_mul_div checked_mul
floor_mul_div-eq-ok a b zero e = ground arith
floor_mul_div-eq-ok a b (suc d) {q} e =
    let quotient : q ≡ a * b / suc d = ground arith in
    let split : a * b ≡ suc d * (a * b / suc d) + a * b % suc d =
      sym (div-add-mod (a * b) (suc d)) in
    let small : a * b % suc d < suc d = mod-lt (a * b) (omega arith) in
    rw quotient (omega arith, omega arith, omega arith)
