-- ===== src/Bisect.antt =====
-- The two bisection loops of packages/shared/src (financial.ts and settlement.ts), each over its
-- own test. A test may throw; the error then leaves the loop.
pub mod Laws
use aurka.Prelude.{ℕ, zero, suc, ◌+◌, ◌-◌, ◌/◌, Bool, true, false, Result, ok, ◌>>=◌, ltb}

module _ {E : Type 0} (test : ℕ → Result E Bool) where
  -- while (low < high) { mid = low + (high - low + 1) / 2; if (test(mid)) low = mid;
  --   else high = mid - 1; }
  unfoldable pub bisect_up : ℕ → ℕ → ℕ → Result E ℕ
  bisect_up zero low high = ok low
  bisect_up (suc fuel) low high = elim (ltb low high) [
    | true ↦
        let mid = low + (high - low + 1) / 2 in
        test mid >>= λ passed. elim passed [
          | true ↦ bisect_up fuel mid high
          | false ↦ bisect_up fuel low (mid - 1)
        ]
    | false ↦ ok low
  ]

  -- while (low < high) { mid = low + (high - low) / 2; if (test(mid)) high = mid;
  --   else low = mid + 1; }
  unfoldable pub bisect_down : ℕ → ℕ → ℕ → Result E ℕ
  bisect_down zero low high = ok low
  bisect_down (suc fuel) low high = elim (ltb low high) [
    | true ↦
        let mid = low + (high - low) / 2 in
        test mid >>= λ passed. elim passed [
          | true ↦ bisect_down fuel low mid
          | false ↦ bisect_down fuel (mid + 1) high
        ]
    | false ↦ ok low
  ]
