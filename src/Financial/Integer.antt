-- ===== src/Financial/Integer.antt =====
-- packages/shared/src/financial.ts: integers that arrive as a bigint, a decimal string or a
-- JavaScript number, and the uint256 range check.
pub mod Laws
use aurka.Prelude.{
  ℕ, ◌+◌, ◌-◌, ◌*◌, ◌^◌, Bool, true, false, ◌&&◌, [], ◌∷◌, Result, ok, err, ◌>>=◌, ltb, leb,
  if◌then◌else◌,
}
use aurka.Prelude.Int.{ℤ, pos, negsuc}
use aurka.Prelude.Text.{Text, is_digit}
use aurka.Errors.{
  Error, not_canonical_integer, must_fit_uint256, not_a_safe_integer, above_basis_points,
}

abbrev pub uint256_max : ℕ
uint256_max = 2 ^ 256 - 1

abbrev pub basis_points : ℕ
basis_points = 10000

abbrev pub fixed_point_scale : ℕ
fixed_point_scale = 10 ^ 18

abbrev pub maximum_total_fee_bps : ℕ
maximum_total_fee_bps = 100

abbrev pub max_safe_integer : ℕ
max_safe_integer = 2 ^ 53 - 1

-- bigint | string
pub data IntegerLike : Type 0 where
  bigint : ℤ → IntegerLike
  text : Text → IntegerLike

-- A JavaScript number: an integer, or any other value (a fraction, an infinity, NaN).
pub data Num : Type 0 where
  int : ℤ → Num
  not_integral : Num

-- number | IntegerLike
pub data BpsLike : Type 0 where
  number : Num → BpsLike
  integer : IntegerLike → BpsLike

unfoldable pub all_digits : Text → Bool
all_digits [] = true
all_digits (c ∷ s) = is_digit c && all_digits s

-- /^(0|[1-9][0-9]*)$/
unfoldable pub is_canonical : Text → Bool
unfolding all_digits
is_canonical [] = false
is_canonical (c ∷ []) = is_digit c
is_canonical (c ∷ d ∷ s) = leb b'1' c && leb c b'9' && all_digits (d ∷ s)

-- BigInt(value), on digits.
unfoldable pub decimal_from : ℕ → Text → ℕ
decimal_from acc [] = acc
decimal_from acc (c ∷ s) = decimal_from (acc * 10 + (c - b'0')) s

unfoldable pub parse_canonical_integer : Text → Result Error ℕ
unfolding is_canonical decimal_from
parse_canonical_integer value =
    if is_canonical value then ok (decimal_from 0 value) else err not_canonical_integer

unfoldable pub fit_uint256 : ℤ → Result Error ℕ
fit_uint256 (pos n) = if ltb uint256_max n then err must_fit_uint256 else ok n
fit_uint256 (negsuc n) = err must_fit_uint256

unfoldable pub to_uint256 : IntegerLike → Result Error ℕ
unfolding parse_canonical_integer fit_uint256
to_uint256 (bigint z) = fit_uint256 z
to_uint256 (text t) = do n ← parse_canonical_integer t; fit_uint256 (pos n)

-- BigInt(value), for a number that is a non-negative safe integer.
unfoldable pub safe_natural : Num → Result Error ℕ
safe_natural (int (pos n)) = if leb n max_safe_integer then ok n else err not_a_safe_integer
safe_natural (int (negsuc n)) = err not_a_safe_integer
safe_natural not_integral = err not_a_safe_integer

unfoldable pub bps_value : BpsLike → Result Error ℕ
unfolding safe_natural to_uint256
bps_value (number n) = safe_natural n
bps_value (integer i) = to_uint256 i

unfoldable pub require_bps : BpsLike → Result Error ℕ
unfolding bps_value
require_bps value = do
  bps ← bps_value value
  if ltb basis_points bps then err above_basis_points else ok bps
