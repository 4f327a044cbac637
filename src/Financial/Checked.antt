-- ===== src/Financial/Checked.antt =====
-- packages/shared/src/financial.ts: checked uint256 arithmetic, rounding divisions and the
-- scaling helpers.
pub mod Laws
use aurka.Prelude.{
  ℕ, suc, ◌+◌, ◌-◌, ◌*◌, ◌/◌, ◌%◌, ◌^◌, Bool, ◌&&◌, not, Result, ok, err, ◌>>=◌, ltb, leb, ◌==◌,
  if◌then◌else◌,
}
use aurka.Prelude.Int.{pos, negsuc}
use aurka.Errors.{
  Error, division_by_zero, overflows_uint256, underflows_uint256, denominator_not_positive,
  decimals_out_of_range,
}
use aurka.Financial.Integer.{uint256_max, basis_points, Num, int, not_integral}

abbrev pub max_decimals : ℕ
max_decimals = 36

unfoldable pub checked_add : ℕ → ℕ → Result Error ℕ
checked_add a b =
    let result = a + b in if ltb uint256_max result then err overflows_uint256 else ok result

unfoldable pub checked_sub : ℕ → ℕ → Result Error ℕ
checked_sub a b = if ltb a b then err underflows_uint256 else ok (a - b)

unfoldable pub checked_mul : ℕ → ℕ → Result Error ℕ
checked_mul a b =
    if not (a == 0) && ltb (uint256_max / a) b then err overflows_uint256 else ok (a * b)

unfoldable pub ceil_div : ℕ → ℕ → Result Error ℕ
ceil_div numerator denominator =
    if leb denominator 0
    then err denominator_not_positive
    else ok (if numerator == 0 then 0 else (numerator - 1) / denominator + 1)

unfoldable pub floor_mul_div : ℕ → ℕ → ℕ → Result Error ℕ
unfolding checked_mul
floor_mul_div a b denominator = do
  product ← checked_mul a b
  if denominator == 0 then err division_by_zero else ok (product / denominator)

unfoldable pub bps_of_down : ℕ → ℕ → ℕ
bps_of_down total bps = total / basis_points * bps + total % basis_points * bps / basis_points

unfoldable pub bps_of_up : ℕ → ℕ → Result Error ℕ
unfolding ceil_div
bps_of_up total bps = do
  part ← ceil_div (total % basis_points * bps) basis_points
  ok (total / basis_points * bps + part)

unfoldable pub scale10 : Num → Result Error ℕ
scale10 (int (pos decimals)) =
    if ltb max_decimals decimals then err decimals_out_of_range else ok (10 ^ decimals)
scale10 (int (negsuc n)) = err decimals_out_of_range
scale10 not_integral = err decimals_out_of_range
