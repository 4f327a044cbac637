-- ===== src/Financial/Weight.antt =====
-- packages/shared/src/financial.ts: the weight of a value in the NAV, in basis points.
pub mod Laws
use aurka.Prelude.{ℕ, Bool, true, false, Result, ok, ◌>>=◌, leb}
use aurka.Errors.{Error}
use aurka.Bisect.{bisect_up, bisect_down}
use aurka.Financial.Integer.{basis_points}
use aurka.Financial.Checked.{bps_of_down, bps_of_up}

abbrev pub reaches : ℕ → ℕ → ℕ → Result Error Bool
reaches value nav mid = ok (leb value (bps_of_down nav mid))

abbrev pub stays_below : ℕ → ℕ → ℕ → Result Error Bool
stays_below value nav mid = do part ← bps_of_up nav mid; ok (leb part value)

-- The fuel is the width of the range, which every round narrows.
unfoldable pub weight_bps : ℕ → ℕ → Bool → Result Error ℕ
unfolding bisect_up bisect_down bps_of_down bps_of_up
weight_bps value nav true = bisect_down (reaches value nav) basis_points 0 basis_points
weight_bps value nav false = bisect_up (stays_below value nav) basis_points 0 basis_points
