-- ===== src/Financial/Weight/Laws.antt =====
-- The bisected weights are the rounded fractions value * 10000 / nav.
use native.Mathlib.Nat.{mul-le-mul_left}
use aurka.Prelude.{ℕ, suc, ◌*◌, ◌≤◌, ◌<◌, ◌≡◌, ◌⊎◌, inl, inr, true, false, ok, arith, Returns}
use aurka.Bisect.Laws.{
  Highest, Lowest, bisect_up-Highest, bisect_up-total, bisect_down-Lowest, bisect_down-total,
}
use aurka.Financial.Integer.{basis_points}
use aurka.Financial.Checked.Laws.{bps_of_down-eq, bps_of_up-eq}
use aurka.Financial.Weight.{reaches, stays_below, weight_bps}

-- `w` is value * 10000 / nav rounded up, and no more than 10000.
pub record IsCeilingWeight (value nav w : ℕ) : Type 0 where
  pub within : w ≤ basis_points
  pub covers : value ≤ nav → value * basis_points ≤ nav * w
  pub least : (p : ℕ) → p < w → nav * p < value * basis_points

-- `w` is value * 10000 / nav rounded down, and no more than 10000.
pub record IsFloorWeight (value nav w : ℕ) : Type 0 where
  pub within : w ≤ basis_points
  pub fits : nav * w ≤ value * basis_points
  pub greatest : (p : ℕ) → w < p → p ≤ basis_points → value * basis_points < nav * p

reaches-true : (value nav w : ℕ) → reaches value nav w ≡ ok true → value * basis_points ≤ nav * w
reaches-true value nav w e = ground (arith, bps_of_down-eq nav w)

reaches-false : (value nav w : ℕ) → reaches value nav w ≡ ok false → nav * w < value * basis_points
reaches-false value nav w e = ground (arith, bps_of_down-eq nav w)

stays_below-true :
    (value nav w : ℕ) → stays_below value nav w ≡ ok true → nav * w ≤ value * basis_points
stays_below-true value nav w e = ground (arith, bps_of_up-eq nav w)

stays_below-false :
    (value nav w : ℕ) → stays_below value nav w ≡ ok false → value * basis_points < nav * w
stays_below-false value nav w e = ground (arith, bps_of_up-eq nav w)

reaches-answers :
    (value nav w : ℕ) → (reaches value nav w ≡ ok true) ⊎ (reaches value nav w ≡ ok false)
reaches-answers value nav w = grind arith

stays_below-answers :
    (value nav w : ℕ) → (stays_below value nav w ≡ ok true) ⊎ (stays_below value nav w ≡ ok false)
stays_below-answers value nav w = rw (bps_of_up-eq nav w) (grind arith)

Lowest-IsCeilingWeight :
    (value nav w : ℕ) → Lowest (reaches value nav) 0 basis_points w → IsCeilingWeight value nav w
Lowest-IsCeilingWeight value nav w h = record {
  within = h.below;
  covers =
      λ fits. elim h.passed [ inl e ↦ rw e (omega arith) | inr t ↦ reaches-true value nav w t ];
  least = λ p lt. elim h.before_failed [
    | inl e ↦ absurd (omega arith)
    | inr (q, e, t) ↦
        let le : nav * p ≤ nav * q = mul-le-mul_left nav (omega arith) in
        omega (arith, reaches-false value nav q t)
  ];
}

Highest-IsFloorWeight :
    (value nav w : ℕ) → Highest (stays_below value nav) 0 basis_points w → IsFloorWeight value nav w
Highest-IsFloorWeight value nav w h = record {
  within = h.below;
  fits = elim h.passed [ inl e ↦ rw e (omega arith) | inr t ↦ stays_below-true value nav w t ];
  greatest = λ p lt le. elim h.next_failed [
    | inl e ↦ absurd (omega arith)
    | inr t ↦
        let step : nav * suc w ≤ nav * p = mul-le-mul_left nav lt in
        omega (arith, stays_below-false value nav (suc w) t)
  ];
}

-- The weight rounded up is returned on every input, and is the least number of basis points
-- that reaches the value, capped at 10000.
pub weight_bps-IsCeilingWeight :
    (value nav : ℕ) → Returns (weight_bps value nav true) (IsCeilingWeight value nav)
unfolding weight_bps
weight_bps-IsCeilingWeight value nav =
    let (w, e) =
      bisect_down-total (reaches value nav) basis_points 0 basis_points
        (λ n _ _. reaches-answers value nav n) in
    (
      w,
      e,
      Lowest-IsCeilingWeight value nav w (
          bisect_down-Lowest (reaches value nav) basis_points 0 basis_points (omega arith)
            (omega arith) e),
    )

-- The weight rounded down is returned on every input, and is the greatest number of basis
-- points, up to 10000, that the value covers.
pub weight_bps-IsFloorWeight :
    (value nav : ℕ) → Returns (weight_bps value nav false) (IsFloorWeight value nav)
unfolding weight_bps
weight_bps-IsFloorWeight value nav =
    let (w, e) =
      bisect_up-total (stays_below value nav) basis_points 0 basis_points
        (λ n _ _. stays_below-answers value nav n) in
    (
      w,
      e,
      Highest-IsFloorWeight value nav w (
          bisect_up-Highest (stays_below value nav) basis_points 0 basis_points (omega arith)
            (omega arith) e),
    )
