-- ===== src/Errors.antt =====
-- The errors that packages/shared/src throws, one constructor for each kind of message.
-- The argument names inside a message are dropped.

pub data Error : Type 0 where
  not_canonical_integer : Error
  must_fit_uint256 : Error
  overflows_uint256 : Error
  underflows_uint256 : Error
  denominator_not_positive : Error
  division_by_zero : Error
  decimals_out_of_range : Error
  token_required : Error
  not_a_safe_integer : Error
  above_basis_points : Error
  not_managed_by_policy : Error
  duplicate_asset : Error
  minimum_exceeds_maximum : Error
  incomplete_policy : Error
  price_not_positive : Error
  not_exactly_representable : Error
  empty_portfolio : Error
  nav_not_positive : Error
  not_in_portfolio : Error
  lookup_failed : Error
  trade_assets_equal : Error
  fee_exceeds_output : Error
  consumed_exceeds_capacity : Error
  capacity_exhausted : Error
  reverse_exceeds_consumption : Error
  invalid_fee_cap : Error
  utilization_out_of_range : Error
  utilization_decreases : Error
  fee_exceeds_cap : Error
  base_fee_distribution : Error
  not_bytes32 : Error
  not_address : Error
  identifier_required : Error
  price_from_future : Error
  price_stale : Error
  price_token_mismatch : Error
  snapshot_not_approved : Error
  price_deviation : Error
  exchange_below_minimum : Error
  fee_token_mismatch : Error
  epoch_state_mismatch : Error
  epoch_direction_mismatch : Error
  decimal_scales_mismatch : Error
  epoch_commitment_mismatch : Error
