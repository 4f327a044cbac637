-- ===== src/Financial/Asset/Gcd/Laws.antt =====
-- Laws of the `greatestCommonDivisor` of packages/shared/src/financial.ts.
use native.Mathlib.Nat.{div-add-mod, mod-lt, mul-mod_right, mul_comm, mul-div_cancel_left}
use aurka.Prelude.{ℕ, zero, suc, ◌+◌, ◌-◌, ◌*◌, ◌/◌, ◌%◌, ◌≤◌, ◌<◌, ◌≡◌, sym, ◌∙◌, ap, subst, arith}
use aurka.Financial.Asset.Gcd.{gcd_loop, greatest_common_divisor}

abbrev pub Divides : ℕ → ℕ → Type 0
Divides g n = (k : ℕ) × (n ≡ g * k)

combine : (g a b q r : ℕ) → a ≡ b * q + r → Divides g b → Divides g r → Divides g a
combine g a b q r split (k, of_b) (m, of_r) = (k * q + m, split ∙ rw of_b (rw of_r (grind arith)))

gcd_loop-step : (fuel a b : ℕ) → gcd_loop (suc fuel) a (suc b) ≡ gcd_loop fuel (suc b) (a % suc b)
unfolding gcd_loop
gcd_loop-step fuel a b = ground arith

gcd_loop-Divides :
    (fuel a b : ℕ) → b ≤ fuel → Divides (gcd_loop fuel a b) a × Divides (gcd_loop fuel a b) b
unfolding gcd_loop
gcd_loop-Divides zero a b h = ((1, omega arith), (0, omega arith))
gcd_loop-Divides (suc fuel) a zero h = ((1, omega arith), (0, omega arith))
gcd_loop-Divides (suc fuel) a (suc b) h =
    let small : a % suc b < suc b = mod-lt a (omega arith) in
    let (of_b, of_rest) = gcd_loop-Divides fuel (suc b) (a % suc b) (omega arith) in
    subst {A = ℕ} (λ g. Divides g a × Divides g (suc b)) (sym (gcd_loop-step fuel a b))
      (combine _ a (suc b) _ _ (sym (div-add-mod a (suc b))) of_b of_rest, of_b)

pub greatest_common_divisor-Divides :
    (a b : ℕ) → Divides (greatest_common_divisor a b) a × Divides (greatest_common_divisor a b) b
unfolding greatest_common_divisor
greatest_common_divisor-Divides a b = gcd_loop-Divides b a b (omega arith)

positive_factor : (g k d : ℕ) → 0 < d → d ≡ g * k → 0 < g
positive_factor zero k d h e = grind arith
positive_factor (suc g) k d h e = omega arith

regroup : (g k n m : ℕ) → k * n * (g * m) ≡ g * k * (n * m)
regroup g k n m = grind arith

pub reduced_positive : (g d k : ℕ) → 0 < d → d ≡ g * k → 0 < d / g
reduced_positive g d k h of_d =
    let quotient : d / g ≡ k =
      ap (λ x. x / g) of_d ∙ mul-div_cancel_left k (positive_factor g k d h of_d) in
    rw quotient (positive_factor k g d h (of_d ∙ mul_comm g k))

-- A multiple of d / gcd(d, v), times v, is a multiple of d.
pub multiple : (g d v n : ℕ) → 0 < d → Divides g d → Divides g v → (d / g * n * v) % d ≡ 0
multiple g d v n h (k, of_d) (m, of_v) =
    let quotient : d / g ≡ k =
      ap (λ x. x / g) of_d ∙ mul-div_cancel_left k (positive_factor g k d h of_d) in
    let product : d / g * n * v ≡ d * (n * m) =
      rw quotient (ap (λ x. k * n * x) of_v) ∙ regroup g k n m ∙ ap (λ x. x * (n * m)) (sym of_d) in
    ap (λ x. x % d) product ∙ mul-mod_right d (n * m)

pub rest_multiple : (n i : ℕ) → n - n % i ≡ i * (n / i)
rest_multiple n i = let split = div-add-mod n i in omega arith

pub restore : (n i : ℕ) → n - n % i + n % i ≡ n
restore n i = let split = div-add-mod n i in omega arith
