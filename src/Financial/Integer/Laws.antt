-- ===== src/Financial/Integer/Laws.antt =====
-- The uint256 range check of packages/shared/src/financial.ts.
use aurka.Prelude.{ℕ, ◌≤◌, ◌≡◌, ok, arith, >>=-eq-ok}
use aurka.Prelude.Int.{ℤ, pos, negsuc}
use aurka.Financial.Integer.{
  uint256_max, IntegerLike, bigint, text, BpsLike, parse_canonical_integer, fit_uint256, to_uint256,
  integer, bps_value, require_bps, basis_points,
}

pub fit_uint256-le : (z : ℤ) {n : ℕ} → fit_uint256 z ≡ ok n → (n ≤ uint256_max) × (z ≡ pos n)
unfolding fit_uint256
fit_uint256-le (pos m) e = ground arith
fit_uint256-le (negsuc m) e = ground arith

pub to_uint256-le : (v : IntegerLike) {n : ℕ} → to_uint256 v ≡ ok n → n ≤ uint256_max
unfolding to_uint256
to_uint256-le (bigint z) e = (fit_uint256-le z e).0
to_uint256-le (text t) e =
    let (m, _, fits) = >>=-eq-ok (parse_canonical_integer t) _ e in (fit_uint256-le (pos m) fits).0

pub to_uint256_fits : (n : ℕ) → n ≤ uint256_max → to_uint256 (bigint (pos n)) ≡ ok n
unfolding to_uint256
to_uint256_fits n h = ground arith

pub to_uint256_bigint : (n : ℕ) {m : ℕ} → to_uint256 (bigint (pos n)) ≡ ok m → m ≡ n
unfolding to_uint256
to_uint256_bigint n e = ground arith

pub require_bps-le : (v : BpsLike) {n : ℕ} → require_bps v ≡ ok n → n ≤ basis_points
unfolding require_bps
require_bps-le v e = let (bps, _, fits) = >>=-eq-ok (bps_value v) _ e in ground arith

pub require_bps_bigint : (n : ℕ) {m : ℕ} → require_bps (integer (bigint (pos n))) ≡ ok m → m ≡ n
unfolding require_bps to_uint256
require_bps_bigint n e =
    let (bps, eb, fits) = >>=-eq-ok (to_uint256 (bigint (pos n))) _ e in
    ground (arith, to_uint256_bigint n eb)
