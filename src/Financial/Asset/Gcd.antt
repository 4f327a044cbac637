-- ===== src/Financial/Asset/Gcd.antt =====
-- `greatestCommonDivisor` of packages/shared/src/financial.ts, on the non-negative bigints that
-- it is called with.
pub mod Laws
use aurka.Prelude.{ℕ, zero, suc, ◌%◌, true, false, ◌==◌}

-- while (b !== 0n) { const remainder = a % b; a = b; b = remainder; }, with fuel.
unfoldable pub gcd_loop : ℕ → ℕ → ℕ → ℕ
gcd_loop zero a b = a
gcd_loop (suc fuel) a b = elim (b == 0) [ true ↦ a | false ↦ gcd_loop fuel b (a % b) ]

-- The remainder falls in every round, so `b` rounds are enough.
unfoldable pub greatest_common_divisor : ℕ → ℕ → ℕ
unfolding gcd_loop
greatest_common_divisor left right = gcd_loop right left right
